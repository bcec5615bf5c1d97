-- ===== src/Tests/KernelRuns.antt =====
-- The theorems on the kernel at concrete inputs.
use veilux_binary.Base.{
  ◌≡◌, ◌≢◌, refl, true, List, [], ◌∷◌, ◌++◌, lit, ok, arith, All, if◌then◌else◌,
}
use veilux_binary.Base.Map as Entries
use veilux_binary.Base.Order.{text_cmp, text_ord}
use veilux_binary.Kernel.Hash.{Hash, le_bytes}
use veilux_binary.Kernel.Hash.Framing.{commit_input-injective}
use veilux_binary.Kernel.Merkle.{merkle_proof, merkle_root, verify_merkle_proof}
use veilux_binary.Kernel.Merkle.Complete.{verify_merkle_proof-merkle_proof}
use veilux_binary.Kernel.Types.{Command, Event, signing_bytes_for_chain}
use veilux_binary.Kernel.Types.Signing.{signing_bytes-injective, signing_bytes_for_chain_overlap}
use veilux_binary.Kernel.State.{new, put, contains}
use veilux_binary.Kernel.Prism.{Prism}
use veilux_binary.Kernel.Serde.{to_vec_or_default}
use veilux_binary.Kernel.Cascade.{
  Cascade, apply, run_rounds, run_frontier, run_command, handle, add_output,
}
use veilux_binary.Kernel.Cascade.Queue.{apply-Runs}
use veilux_binary.Kernel.Cascade.Runs.{Runs}
use veilux_binary.Tests.World.{crates, silent, alice, order}

abbrev three : List Hash
three = (1 ∷ []) ∷ (2 ∷ []) ∷ (3 ∷ []) ∷ []

verify_merkle_proof_example :
    verify_merkle_proof crates (3 ∷ []) (merkle_proof crates three 2) (merkle_root crates three)
    ≡ true
verify_merkle_proof_example = verify_merkle_proof-merkle_proof crates three 2 (omega arith)

commit_input_example : (alice ≡ alice) × (three ≡ three)
commit_input_example =
    commit_input-injective alice alice three three (omega arith, tt) (omega arith, tt)
      (omega arith, (omega arith, (omega arith, tt)))
      (omega arith, (omega arith, (omega arith, tt))) refl

abbrev command : Command
command = order alice

token-IsDomain : All (λ c. c ≢ 0xff) command.prism
unfolding lit
token-IsDomain = (omega arith, (omega arith, (omega arith, (omega arith, (omega arith, tt)))))

signing_bytes_example :
    (command.prism ≡ command.prism)
    × (command.submitter ≡ command.submitter)
    × (command.nonce ≡ command.nonce)
    × (to_vec_or_default silent command.visibility ≡ to_vec_or_default silent command.visibility)
    × (command.payload ≡ command.payload)
unfolding to_vec_or_default
signing_bytes_example =
    signing_bytes-injective crates silent command command token-IsDomain token-IsDomain
      (omega arith, tt) (omega arith, tt) tt tt (omega arith) (omega arith) refl

signing_bytes_for_chain_example :
    signing_bytes_for_chain crates silent command 7
    ≡ signing_bytes_for_chain crates silent
        (record command { payload = 0xff ∷ (lit "chain" ++ le_bytes 8 7) })
        0
signing_bytes_for_chain_example =
    signing_bytes_for_chain_overlap crates silent command 7 (omega arith)

-- A prism that writes an entry, logs the command and answers with a command to itself while the
-- entry is not there.
abbrev pinged : Command → Event
pinged cmd = record {
  source_command = [];
  prism = lit "token";
  visibility = cmd.visibility;
  payload = cmd.payload;
}

abbrev pinger : Prism
pinger = record {
  info = record { name = lit "token"; description = []; version = [] };
  handle = λ cmd s. (
    ok (record {
      events = pinged cmd ∷ [];
      derived_commands = if contains (9 ∷ []) s then [] else record cmd { payload = 1 ∷ [] } ∷ [];
      cost = 1;
    }),
    put (9 ∷ []) (9 ∷ []) s,
  );
  estimate = λ cmd s. 1;
}

abbrev pinging : Cascade
pinging = record { prisms = (lit "token", pinger) ∷ []; order = lit "token" ∷ [] }

-- The command and the one derived from it run; the tree then has the entry.
apply-Runs_example :
    Runs pinging
      ((0, command) ∷ [])
      new
      (record { events = []; total_cost = 0; depth = 0 })
      (apply pinging command new)
apply-Runs_example = apply-Runs pinging command new

ping : apply pinging command new ≡ (
  ok (record {
    events = pinged command ∷ pinged (record command { payload = 1 ∷ [] }) ∷ [];
    total_cost = 2;
    depth = 2;
  }),
  put (9 ∷ []) (9 ∷ []) new,
)
unfolding apply run_rounds run_frontier run_command handle add_output contains put new Entries.get
    Entries.insert Entries.contains_key text_cmp lit
ping = refl
