-- ===== src/Kernel/Types.antt =====
-- The data shapes of kernel/src/types.rs.
pub mod Signing
pub mod Distinct
use veilux_binary.Base.{
  ℕ, zero, suc, Bool, true, false, ◌||◌, List, [], ◌∷◌, ◌++◌, map, Text, lit, ◌≡◌, ◌==◌, not,
  if◌then◌else◌,
}
use veilux_binary.Base.Order.{same, text_ord}
use veilux_binary.Kernel.Hash.{Crates, Hash, zero_hash, le_bytes, commit}
use veilux_binary.Kernel.Merkle.{merkle_root}
use veilux_binary.Kernel.Serde.{Serde, to_vec_or_default}

-- `struct PartyId(String)`
abbrev pub PartyId : Type 0
PartyId = Text

unfoldable pub id_hash : Crates → PartyId → Hash
id_hash x party = commit x (lit "party") (party ∷ [])

pub data Visibility : Type 0 where
  public : Visibility
  parties : List PartyId → Visibility

-- `Vec::contains`
unfoldable pub contains : List PartyId → PartyId → Bool
contains [] party = false
contains (p ∷ ps) party = same p party || contains ps party

-- The parties of the list are distinct.
abbrev pub IsDistinct : List PartyId → Type 0
IsDistinct [] = Unit
IsDistinct (p ∷ ps) = (contains ps p ≡ false) × IsDistinct ps

unfoldable pub includes : Visibility → PartyId → Bool
unfolding contains
includes public party = true
includes (parties set) party = contains set party

unfoldable pub stakeholders : Visibility → List PartyId
stakeholders public = []
stakeholders (parties set) = set

pub record Command : Type 0 where
  pub prism : Text
  pub submitter : PartyId
  pub visibility : Visibility
  pub payload : Text
  pub nonce : ℕ

unfoldable pub command_id : Crates → Command → Hash
command_id x c =
    commit x (lit "command") (c.prism ∷ c.submitter ∷ le_bytes 8 c.nonce ∷ c.payload ∷ [])

pub record SignedCommand : Type 0 where
  pub command : Command
  pub public_key : Text
  pub signature : Text
  pub chain_id : ℕ

pub record Event : Type 0 where
  pub source_command : Hash
  pub prism : Text
  pub visibility : Visibility
  pub payload : Text

pub record Block : Type 0 where
  pub height : ℕ
  pub parent : Hash
  pub events_root : Hash
  pub state_root : Hash
  pub timestamp : ℕ
  pub proposer : PartyId
  pub events : List Event
  pub commands : List Command

module _ (x : Crates) (visibilities : Serde Visibility) where
  unfoldable pub signing_bytes : Command → Text
  signing_bytes c =
      lit "veilux/command/v1"
      ++ (0xff
          ∷ (c.prism
              ++ (0xff
                  ∷ (c.submitter
                      ++ (0xff
                          ∷ (le_bytes 8 c.nonce
                              ++ (to_vec_or_default visibilities c.visibility
                                  ++ (0xff ∷ c.payload))))))))

  unfoldable pub signing_bytes_for_chain : Command → ℕ → Text
  signing_bytes_for_chain c chain_id =
      if not (chain_id == 0)
      then signing_bytes c ++ (0xff ∷ (lit "chain" ++ le_bytes 8 chain_id))
      else signing_bytes c

  unfoldable pub event_id : Event → Hash
  event_id e =
      commit x (lit "event")
        (e.source_command ∷ e.prism ∷ to_vec_or_default visibilities e.visibility ∷ e.payload ∷ [])

  unfoldable pub commitment : Event → Hash
  unfolding event_id
  commitment e = event_id e

  unfoldable pub compute_events_root : Block → Hash
  compute_events_root b = merkle_root x (map commitment b.events)

  unfoldable pub commands_root : Block → Hash
  commands_root b = merkle_root x (map (command_id x) b.commands)

  unfoldable pub block_hash : Block → Hash
  block_hash b = commit x (lit "block") (
      le_bytes 8 b.height
      ∷ b.parent
      ∷ b.events_root
      ∷ b.state_root
      ∷ commands_root b
      ∷ le_bytes 8 b.timestamp
      ∷ b.proposer
      ∷ [])

unfoldable pub genesis : PartyId → ℕ → Block
genesis proposer timestamp = record {
  height = 0;
  parent = zero_hash;
  events_root = zero_hash;
  state_root = zero_hash;
  timestamp = timestamp;
  proposer = proposer;
  events = [];
  commands = [];
}

unfoldable pub deterministic_genesis : Block
deterministic_genesis = record {
  height = 0;
  parent = zero_hash;
  events_root = zero_hash;
  state_root = zero_hash;
  timestamp = 0;
  proposer = lit "genesis";
  events = [];
  commands = [];
}
