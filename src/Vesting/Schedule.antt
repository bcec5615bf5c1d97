-- ===== src/Vesting/Schedule.antt =====
-- A vesting schedule and what it has released (prisms/vesting/src/lib.rs).
use veilux_binary.Base.{
  ℕ, ◌-◌, ◌/◌, Bool, ltb, leb, ◌==◌, if◌then◌else◌, saturating_mul, saturating_add64,
}
use veilux_binary.Kernel.Hash.{Hash}
use veilux_binary.Kernel.Types.{PartyId}
use veilux_binary.Kernel.Serde.{Serde, RoundTrips}
use veilux_binary.Token.Types.{TokenSerde, TokenRoundTrips}

pub record Schedule : Type 0 where
  pub id : Hash
  pub token_id : Hash
  pub funder : PartyId
  pub beneficiary : PartyId
  pub total : ℕ
  pub released : ℕ
  pub start : ℕ
  pub cliff : ℕ
  pub duration : ℕ
  pub revocable : Bool
  pub revoked : Bool

-- `Schedule::vested`; `now.saturating_sub(start)` is the truncated difference.
unfoldable pub vested : Schedule → ℕ → ℕ
vested s now =
    if s.duration == 0
    then s.total
    else (if ltb now (saturating_add64 s.start s.cliff)
        then 0
        else (if leb s.duration (now - s.start)
            then s.total
            else saturating_mul s.total (now - s.start) / s.duration))

unfoldable pub releasable : Schedule → ℕ → ℕ
releasable s now = vested s now - s.released

pub data VestingCommand : Type 0 where
  -- token_id, beneficiary, total, start, cliff, duration, revocable
  create : Hash → PartyId → ℕ → ℕ → ℕ → ℕ → Bool → VestingCommand
  -- schedule
  release : Hash → VestingCommand
  -- schedule
  revoke : Hash → VestingCommand

pub data VestingEvent : Type 0 where
  -- schedule, beneficiary, total
  created : Hash → PartyId → ℕ → VestingEvent
  -- schedule, to, amount
  was_released : Hash → PartyId → ℕ → VestingEvent
  -- schedule, refunded
  was_revoked : Hash → ℕ → VestingEvent

-- `serde_json` at the types that the prism writes and reads.
pub record VestingSerde : Type 0 where
  pub token : TokenSerde
  pub number : Serde ℕ
  pub schedule : Serde Schedule
  pub command : Serde VestingCommand
  pub event : Serde VestingEvent

pub record VestingRoundTrips (c : VestingSerde) : Type 0 where
  pub token : TokenRoundTrips c.token
  pub schedule : RoundTrips c.schedule
