-- ===== src/Oracle/Types.antt =====
-- The data of the oracle prism (prisms/oracle/src/lib.rs).
use veilux_binary.Base.{ℕ, List, ◌∷◌, ◌++◌, Text, lit}
use veilux_binary.Kernel.Hash.{Hash, le_bytes}
use veilux_binary.Kernel.Types.{PartyId}
use veilux_binary.Kernel.Serde.{Serde, RoundTrips}

pub record Feed : Type 0 where
  pub feed_id : Hash
  pub name : Text
  pub admin : PartyId
  pub reporters : List Text
  pub quorum : ℕ
  pub round : ℕ

pub record FeedValue : Type 0 where
  pub feed_id : Hash
  pub round : ℕ
  pub value : Text
  pub reporters : List Text

pub record ReporterSig : Type 0 where
  pub public_key : Text
  pub signature : Text

pub data OracleCommand : Type 0 where
  -- name, reporters, quorum
  register_feed : Text → List Text → ℕ → OracleCommand
  -- feed, round, value, signatures
  report : Hash → ℕ → Text → List ReporterSig → OracleCommand

pub data OracleEvent : Type 0 where
  -- feed, name, quorum
  feed_registered : Hash → Text → ℕ → OracleEvent
  -- feed, round, value, signers
  value_updated : Hash → ℕ → Text → ℕ → OracleEvent

unfoldable pub report_digest : Hash → ℕ → Text → Text
report_digest feed_id round value =
    lit "veilux/oracle/report/v1" ++ (0xff ∷ (feed_id ++ (le_bytes 8 round ++ (0xff ∷ value))))

-- `serde_json` at the types that the prism writes and reads.
pub record OracleSerde : Type 0 where
  pub feed : Serde Feed
  pub value : Serde FeedValue
  pub command : Serde OracleCommand
  pub event : Serde OracleEvent

pub record OracleRoundTrips (c : OracleSerde) : Type 0 where
  pub feed : RoundTrips c.feed
  pub value : RoundTrips c.value
