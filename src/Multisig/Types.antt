-- ===== src/Multisig/Types.antt =====
-- The data of the multisig prism (prisms/multisig/src/lib.rs).
use veilux_binary.Base.{ℕ, Bool, List, Text}
use veilux_binary.Base.Map.{Map}
use veilux_binary.Kernel.Hash.{Hash}
use veilux_binary.Kernel.Types.{PartyId, Command}
use veilux_binary.Kernel.Serde.{Serde, RoundTrips}

abbrev pub max_owners : ℕ
max_owners = 64

pub record MultisigAccount : Type 0 where
  pub id : Hash
  pub owners : List PartyId
  pub threshold : ℕ
  pub nonce : ℕ

-- `BTreeSet<String>`: the map with no values
abbrev pub Names : Type 0
Names = Map Text (Unit {0})

pub record PendingTx : Type 0 where
  pub account : Hash
  pub seq : ℕ
  pub inner : Command
  pub confirmations : Names
  pub executed : Bool

pub data MultisigCommand : Type 0 where
  -- owners, threshold
  create_account : List PartyId → ℕ → MultisigCommand
  -- account, inner
  propose : Hash → Command → MultisigCommand
  -- account, seq
  confirm : Hash → ℕ → MultisigCommand
  -- account, seq
  revoke : Hash → ℕ → MultisigCommand

pub data MultisigEvent : Type 0 where
  -- account, threshold, owners
  account_created : Hash → ℕ → ℕ → MultisigEvent
  -- account, seq, proposer
  was_proposed : Hash → ℕ → PartyId → MultisigEvent
  -- account, seq, by, confirmations
  was_confirmed : Hash → ℕ → PartyId → ℕ → MultisigEvent
  -- account, seq, by
  was_revoked : Hash → ℕ → PartyId → MultisigEvent
  -- account, seq
  was_executed : Hash → ℕ → MultisigEvent

-- `serde_json` at the types that the prism writes and reads.
pub record MultisigSerde : Type 0 where
  pub account : Serde MultisigAccount
  pub pending : Serde PendingTx
  pub command : Serde MultisigCommand
  pub event : Serde MultisigEvent

pub record MultisigRoundTrips (c : MultisigSerde) : Type 0 where
  pub account : RoundTrips c.account
  pub pending : RoundTrips c.pending
