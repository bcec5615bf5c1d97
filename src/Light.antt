-- ===== src/Light.antt =====
-- The light client (lightclient/src/lib.rs): it follows headers from one that it trusts and checks
-- proofs of state against the head.
pub mod Chain
pub mod Binding
pub mod Proofs
use veilux_binary.Base.{
  Result, ok, err, ℕ, ◌+◌, Bool, List, [], ◌∷◌, Text, ◌==◌, lit, not, if◌then◌else◌, u64_mod, ◌%◌,
}
use veilux_binary.Base.Order.{same, text_ord}
use veilux_binary.Kernel.Hash.{Crates, Hash, commit, le_bytes}
use veilux_binary.Kernel.Types.{PartyId}
use veilux_binary.Kernel.Merkle.{MerkleStep, verify_merkle_proof}
use veilux_binary.Kernel.State.{leaf_hash}

pub record Header : Type 0 where
  pub height : ℕ
  pub parent : Hash
  pub events_root : Hash
  pub state_root : Hash
  pub commands_root : Hash
  pub timestamp : ℕ
  pub proposer : PartyId

pub data LightError : Type 0 where
  broken_chain : ℕ → LightError
  bad_height : ℕ → LightError
  bad_state_proof : LightError

pub record StateProof : Type 0 where
  pub key : Text
  pub value : Text
  pub proof : List MerkleStep
  pub state_root : Hash

pub record LightClient : Type 0 where
  pub trusted : Header

unfoldable pub new : Header → LightClient
new trusted_genesis = record { trusted = trusted_genesis }

unfoldable pub head : LightClient → Header
head client = client.trusted

module _ (x : Crates) where
  unfoldable pub hash : Header → Hash
  hash h = commit x (lit "block") (
      le_bytes 8 h.height
      ∷ h.parent
      ∷ h.events_root
      ∷ h.state_root
      ∷ h.commands_root
      ∷ le_bytes 8 h.timestamp
      ∷ h.proposer
      ∷ [])

  -- The loop of `apply_headers` from index `i`: the headers before a refused one stay applied. The
  -- release build counts heights without an overflow check.
  unfoldable pub apply_from : ℕ → List Header → LightClient → Result LightError Unit × LightClient
  unfolding hash
  apply_from i [] client = (ok tt, client)
  apply_from i (h ∷ hs) client =
      let rest = apply_from (i + 1) hs (record { trusted = h }) in
      if not (h.height == (client.trusted.height + 1) % u64_mod)
      then (err (bad_height i), client)
      else if not (same h.parent (hash client.trusted))
      then (err (broken_chain h.height), client)
      else rest

  unfoldable pub apply_headers : List Header → LightClient → Result LightError Unit × LightClient
  unfolding apply_from
  apply_headers = apply_from 0

  unfoldable pub verify_state : LightClient → StateProof → Result LightError Unit
  verify_state client proof =
      if not (same proof.state_root client.trusted.state_root)
      then err bad_state_proof
      else if verify_merkle_proof x (leaf_hash x proof.key proof.value) proof.proof proof.state_root
      then ok tt
      else err bad_state_proof

  unfoldable pub verify_state_against_root : StateProof → Bool
  verify_state_against_root proof =
      verify_merkle_proof x (leaf_hash x proof.key proof.value) proof.proof proof.state_root
