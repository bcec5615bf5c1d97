-- ===== src/Tests/LightRuns.antt =====
-- The theorems on the light client at two headers and a small tree, with a hash of 32 bytes.
use veilux_binary.Base.{
  ℕ, zero, suc, ◌≡◌, refl, ap, ◌⊎◌, some, List, [], ◌∷◌, ◌++◌, Text, lit, ok, length, arith,
}
use veilux_binary.Base.Map as Entries
use veilux_binary.Base.Order.{text_cmp}
use veilux_binary.Kernel.Hash.{Crates, commit, commit_input, frame, le_bytes, zero_hash}
use veilux_binary.Kernel.Merkle.{MerkleStep, merkle_root, climb, verify_merkle_proof, run_proof}
use veilux_binary.Kernel.State.{StateTree, get, put, new, prove, root, leaves, leaf_hash}
use veilux_binary.Light.{Header, LightClient, StateProof, hash, apply_headers, verify_state}
use veilux_binary.Light as Client
use veilux_binary.Light.Chain.{Chain, stay, link, Verdict, apply_headers-Verdict}
use veilux_binary.Kernel.Hash.Collision.{Collision}
use veilux_binary.Light.Binding.{IsHeader, Chain-binding}
use veilux_binary.Light.Proofs.{verify_state-prove, verify_state-binding}
use veilux_binary.Kernel.State.Binding.{root-binding}
use veilux_binary.Tests.World.{shift, alice}

-- The first `n` bytes, with zeros behind.
abbrev pad : ℕ → Text → Text
pad zero t = []
pad (suc n) [] = 0 ∷ pad n []
pad (suc n) (b ∷ t) = b ∷ pad n t

length-pad : (n : ℕ) (t : Text) → length (pad n t) ≡ n
length-pad zero t = refl
length-pad (suc n) [] = ap suc (length-pad n [])
length-pad (suc n) (b ∷ t) = ap suc (length-pad n t)

abbrev short : Crates
short = record { blake3 = pad 32; hex_encode = shift }

abbrev first : Header
first = record {
  height = 0;
  parent = zero_hash;
  events_root = zero_hash;
  state_root = zero_hash;
  commands_root = zero_hash;
  timestamp = 0;
  proposer = alice;
}

abbrev second : Header
second = record first { height = 1; parent = hash short first }

first-IsHeader : IsHeader first
unfolding zero_hash
first-IsHeader = record {
  height_u64 = omega arith;
  timestamp_u64 = omega arith;
  parent_32 = refl;
  events_32 = refl;
  state_32 = refl;
  commands_32 = refl;
  proposer_u64 = omega arith;
}

second-IsHeader : IsHeader second
unfolding hash commit
second-IsHeader = record {
  height_u64 = omega arith;
  timestamp_u64 = omega arith;
  parent_32 = length-pad 32 _;
  events_32 = first-IsHeader.events_32;
  state_32 = first-IsHeader.state_32;
  commands_32 = first-IsHeader.commands_32;
  proposer_u64 = omega arith;
}

grown : Chain short first (second ∷ []) second
grown = link first second second [] refl refl (stay second)

apply_headers-Verdict_example :
    Verdict short
      (Client.new first)
      0
      (second ∷ first ∷ [])
      (apply_headers short (second ∷ first ∷ []) (Client.new first))
apply_headers-Verdict_example = apply_headers-Verdict short (second ∷ first ∷ []) (Client.new first)

Chain-binding_example : (first ∷ second ∷ [] ≡ first ∷ second ∷ []) ⊎ Collision short
Chain-binding_example =
    Chain-binding short first second first second (second ∷ []) (second ∷ []) grown grown
      (first-IsHeader, (second-IsHeader, tt)) (first-IsHeader, (second-IsHeader, tt)) refl refl

abbrev tree : StateTree
tree = put (1 ∷ []) (6 ∷ []) (put (3 ∷ []) (7 ∷ []) new)

tree-three : get (3 ∷ []) tree ≡ some (7 ∷ [])
unfolding put new get Entries.insert Entries.get text_cmp
tree-three = refl

abbrev watcher : LightClient
watcher = Client.new (record first { state_root = root short tree })

verify_state-prove_example :
    (steps : List MerkleStep) × (prove short (3 ∷ []) tree ≡ some (7 ∷ [], steps))
    × (verify_state short watcher
          (record { key = 3 ∷ []; value = 7 ∷ []; proof = steps; state_root = root short tree })
        ≡ ok tt)
unfolding Client.new
verify_state-prove_example = verify_state-prove short (3 ∷ []) (7 ∷ []) tree watcher tree-three refl

-- A tree of one entry: its root is the entry's leaf, and the proof has no step.
abbrev leaf : StateProof
leaf = record {
  key = 3 ∷ [];
  value = 7 ∷ [];
  proof = [];
  state_root = root short (put (3 ∷ []) (7 ∷ []) new);
}

abbrev guard : LightClient
guard = Client.new (record first { state_root = root short (put (3 ∷ []) (7 ∷ []) new) })

leaf-accepted : verify_state short guard leaf ≡ ok tt
unfolding verify_state Client.new put new root leaves leaf_hash merkle_root climb
    verify_merkle_proof run_proof commit commit_input frame le_bytes lit Entries.insert text_cmp
leaf-accepted = refl

verify_state-binding_example : ((leaf.key ≡ leaf.key) × (leaf.value ≡ leaf.value)) ⊎ Collision short
verify_state-binding_example =
    verify_state-binding short (length-pad 32) guard leaf leaf (omega arith) (omega arith)
      (omega arith) (omega arith) tt tt refl leaf-accepted leaf-accepted

-- Two trees whose values differ in a byte that this hash does not reach.
abbrev far : ℕ → StateTree
far b = put (3 ∷ []) (pad 40 [] ++ (b ∷ [])) new

far-root : root short (far 1) ≡ root short (far 2)
unfolding put new root leaves leaf_hash merkle_root climb commit commit_input frame le_bytes lit
    Entries.insert text_cmp
far-root = refl

root-binding_example : (far 1 ≡ far 2) ⊎ Collision short
unfolding put new Entries.insert text_cmp
root-binding_example =
    root-binding short (length-pad 32) (far 1) (far 2) refl ((omega arith, omega arith), tt)
      ((omega arith, omega arith), tt) far-root
