-- ===== src/Vesting/Handle.antt =====
-- The commands of the vesting prism (prisms/vesting/src/lib.rs), one function for each arm.
use veilux_binary.Base.{
  ℕ, ◌-◌, Bool, true, false, not, Option, none, some, [], ◌∷◌, ◌++◌, Text, lit, ok, err, Action,
  pure, gets, or_raise, raise_if, ◌>>=◌, ◌>>◌, ltb, ◌==◌, if◌then◌else◌, saturating_add,
}
use veilux_binary.Base.Order.{same, text_ord}
use veilux_binary.Kernel.Hash.{Crates, Hash, commit, to_hex, be_bytes}
use veilux_binary.Kernel.Types.{PartyId, Command, Event, command_id}
use veilux_binary.Kernel.Serde.{to_vec_or_default}
use veilux_binary.Kernel.State.{StateTree, contains, get_json, put_json}
use veilux_binary.Kernel.Prism.{
  Prism, PrismError, PrismOutput, invalid_payload, unauthorized, limit_exceeded, not_found,
  or_internal, single,
}
use veilux_binary.Token.Store.{credit, debit, ok_flatten}
use veilux_binary.Vesting.Schedule.{
  Schedule, VestingCommand, VestingEvent, VestingSerde, vested, releasable, create, release, revoke,
  created, was_released, was_revoked,
}

-- `unwrap_or(0)`
unfoldable pub or_zero : Option ℕ → ℕ
or_zero none = 0
or_zero (some n) = n

unfoldable pub key : Crates → Hash → Text
key x id = lit "vesting/sched/" ++ to_hex x id

module _ (x : Crates) (c : VestingSerde) where
  unfoldable pub now : StateTree → ℕ
  now s = or_zero (ok_flatten (get_json c.number (lit "chain/now") s))

  unfoldable pub load : Hash → Action StateTree PrismError Schedule
  load id = do
    found ← or_internal (λ s. (get_json c.schedule (key x id) s, s))
    or_raise found (not_found (lit "vesting schedule " ++ to_hex x id))

  unfoldable pub save : Hash → Schedule → Action StateTree PrismError (Unit {0})
  save id sched = or_internal (put_json c.schedule (key x id) sched)

  unfoldable pub event : Command → VestingEvent → Event
  event cmd payload = record {
    source_command = command_id x cmd;
    prism = lit "vesting";
    visibility = cmd.visibility;
    payload = to_vec_or_default c.event payload;
  }

  unfoldable pub schedule_id : PartyId → PartyId → Hash → ℕ → ℕ → Hash
  schedule_id caller beneficiary token_id start total =
      commit x (lit "vesting/id")
        (caller ∷ beneficiary ∷ to_hex x token_id ∷ be_bytes 8 start ∷ be_bytes 16 total ∷ [])

  unfoldable pub handle_create :
      Command → Hash → PartyId → ℕ → ℕ → ℕ → ℕ → Bool → Action StateTree PrismError PrismOutput
  handle_create cmd token_id beneficiary total start cliff duration revocable = do
    raise_if (total == 0) (invalid_payload (lit "total must be > 0"))
    raise_if (ltb duration cliff) (invalid_payload (lit "cliff must not exceed duration"))
    let id = schedule_id cmd.submitter beneficiary token_id start total
    exists ← gets (contains (key x id))
    raise_if exists (invalid_payload (lit "schedule already exists"))
    debit x c.token token_id cmd.submitter total
    save id (record {
      id = id;
      token_id = token_id;
      funder = cmd.submitter;
      beneficiary = beneficiary;
      total = total;
      released = 0;
      start = start;
      cliff = cliff;
      duration = duration;
      revocable = revocable;
      revoked = false;
    })
    pure (single (event cmd (created id beneficiary total)) 4000)

  unfoldable pub handle_release : Command → Hash → Action StateTree PrismError PrismOutput
  handle_release cmd schedule = do
    sched ← load schedule
    raise_if sched.revoked (invalid_payload (lit "schedule revoked"))
    time ← gets now
    let amount = releasable sched time
    raise_if (amount == 0) (limit_exceeded (lit "nothing vested yet"))
    credit x c.token sched.token_id sched.beneficiary amount
    save schedule (record sched { released = saturating_add sched.released amount })
    pure (single (event cmd (was_released schedule sched.beneficiary amount)) 1500)

  -- `if owed > 0 { credit(..)?; .. }`, and the same for the refund.
  unfoldable pub credit_if_any : Hash → PartyId → ℕ → Action StateTree PrismError (Unit {0})
  credit_if_any token_id who amount =
      if ltb 0 amount then credit x c.token token_id who amount else pure tt

  unfoldable pub handle_revoke : Command → Hash → Action StateTree PrismError PrismOutput
  handle_revoke cmd schedule = do
    sched ← load schedule
    raise_if (not sched.revocable) (unauthorized (lit "schedule is not revocable"))
    raise_if (not (same sched.funder cmd.submitter)) (unauthorized (lit "only funder can revoke"))
    raise_if sched.revoked (invalid_payload (lit "already revoked"))
    time ← gets now
    let owed = vested sched time - sched.released
    credit_if_any sched.token_id sched.beneficiary owed
    let released = if ltb 0 owed then saturating_add sched.released owed else sched.released
    let refund = sched.total - released
    credit_if_any sched.token_id sched.funder refund
    save schedule (record sched { released = released; revoked = true })
    pure (single (event cmd (was_revoked schedule refund)) 1500)

  unfoldable pub dispatch : Command → VestingCommand → Action StateTree PrismError PrismOutput
  dispatch cmd (create token_id beneficiary total start cliff duration revocable) =
      handle_create cmd token_id beneficiary total start cliff duration revocable
  dispatch cmd (release schedule) = handle_release cmd schedule
  dispatch cmd (revoke schedule) = handle_revoke cmd schedule

  unfoldable pub handle : Command → Action StateTree PrismError PrismOutput
  handle command s = elim (c.command.from_slice command.payload) [
    | ok cmd ↦ dispatch command cmd s
    | err e ↦ (err (invalid_payload e), s)
  ]

  unfoldable pub estimate : Command → StateTree → ℕ
  estimate command state = elim (c.command.from_slice command.payload) [
    | ok (create token_id beneficiary total start cliff duration revocable) ↦ 4000
    | ok other ↦ 1500
    | err e ↦ 1000
  ]

  unfoldable pub vesting_prism : Prism
  vesting_prism = record {
    info = record {
      name = lit "vesting";
      description = lit "Time-locked token release schedules (cliff + linear) with optional revoke";
      version = lit "1.0";
    };
    handle = handle;
    estimate = estimate;
  }

  unfoldable pub schedule_of : Hash → StateTree → Option Schedule
  schedule_of id s = ok_flatten (get_json c.schedule (key x id) s)
