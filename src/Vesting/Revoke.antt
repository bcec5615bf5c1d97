-- ===== src/Vesting/Revoke.antt =====
-- Revoking a schedule, and creating one (prisms/vesting/src/lib.rs).
use veilux_binary.Base.{
  ℕ, ◌+◌, ◌-◌, ◌<◌, ◌≤◌, ◌≡◌, ◌≢◌, refl, ap, ◌∙◌, Bool, true, false, some, lit, ok, err, arith,
  if◌then◌else◌, u128_mod, saturating_add, ltb, Bool-cases, inl, inr,
}
use veilux_binary.Base.Order.{same, same_refl, same_sym, text_ord}
use veilux_binary.Kernel.Hash.{Crates, Hash}
use veilux_binary.Kernel.Types.{PartyId, Command}
use veilux_binary.Kernel.State.{StateTree, contains}
use veilux_binary.Kernel.Prism.{unauthorized, single}
use veilux_binary.Token.Store.{balance}
use veilux_binary.Token.Keys.{HexLaws}
use veilux_binary.Token.Balances.{with_balance, balance-bound}
use veilux_binary.Token.Effects.{credit-ok, debit-ok, balance-with_balance_self}
use veilux_binary.Vesting.Schedule.{
  Schedule, VestingSerde, VestingRoundTrips, vested, was_revoked, created,
}
use veilux_binary.Vesting.Curve.{vested-le-total}
use veilux_binary.Vesting.Handle.{
  key, now, event, credit_if_any, handle_revoke, handle_create, schedule_id, schedule_of,
}
use veilux_binary.Vesting.Laws.{
  IsSchedule, with_schedule, credited, save-eq, load-some, schedule_of-with_schedule,
  balance-with_schedule, balance-credited,
}

module _ (x : Crates) (laws : HexLaws x) (c : VestingSerde) (r : VestingRoundTrips c) where
  credited_if : Hash → PartyId → ℕ → StateTree → StateTree
  credited_if id who amount s = if ltb 0 amount then credited x laws c r id who amount s else s

  credit_if_any-ok :
      (id : Hash) (who : PartyId) (amount : ℕ) (s : StateTree)
      → balance x c.token id who s + amount < u128_mod
      → credit_if_any x c id who amount s ≡ (ok tt, credited_if id who amount s)
  unfolding credit_if_any credited_if credited
  credit_if_any-ok id who amount s h = elim (Bool-cases (ltb 0 amount)) [
    | inl some_ ↦
        rw (some_, credit_if_any, credited_if) (credit-ok x laws c.token r.token id who amount s h)
    | inr none_ ↦ rw (none_, credit_if_any, credited_if) refl
  ]

  balance-credited_if :
      (id : Hash) (who other : PartyId) (amount : ℕ) (s : StateTree)
      → balance x c.token id who s + amount < u128_mod
      → balance x c.token id other (credited_if id who amount s) ≡ (
          if same other who
          then balance x c.token id other s + amount
          else balance x c.token id other s)
  unfolding credited_if
  balance-credited_if id who other amount s h = ground (
    arith,
    balance-credited x laws c r id who other amount s h,
    same_balance (balance x c.token id) other who s,
  )
    where
      same_balance :
          (f : PartyId → StateTree → ℕ) (a b : PartyId) (t : StateTree)
          → same a b ≡ true
          → f a t ≡ f b t
      same_balance f a b t e = ap (λ p. f p t) (text_ord.cmp_eq a b (ground arith))

  -- What revoking pays: the vested rest to the beneficiary, the unvested rest to the funder.
  owed : Schedule → ℕ → ℕ
  owed sched time = vested sched time - sched.released

  released_after : Schedule → ℕ → ℕ
  released_after sched time =
      if ltb 0 (owed sched time)
      then saturating_add sched.released (owed sched time)
      else sched.released

  handle_revoke-ok :
      (cmd : Command) (id : Hash) (sched : Schedule) (s : StateTree)
      → schedule_of x c id s ≡ some sched
      → sched.revocable ≡ true
      → same sched.funder cmd.submitter ≡ true
      → sched.revoked ≡ false
      → let due = owed sched (now x c s) in
        let refund = sched.total - released_after sched (now x c s) in
        let s' = credited_if sched.token_id sched.beneficiary due s in
        balance x c.token sched.token_id sched.beneficiary s + due < u128_mod
        → balance x c.token sched.token_id sched.funder s' + refund < u128_mod
        → handle_revoke x c cmd id s ≡ (
          ok (single (event x c cmd (was_revoked id refund)) 1500),
          with_schedule x laws c r id
              (record sched { released = released_after sched (now x c s); revoked = true })
              (credited_if sched.token_id sched.funder refund s'),
        )
  unfolding handle_revoke owed released_after
  handle_revoke-ok cmd id sched s known revocable funder live fits fits' =
      let due = owed sched (now x c s) in
      let refund = sched.total - released_after sched (now x c s) in
      let s' = credited_if sched.token_id sched.beneficiary due s in
      ground (
        arith,
        load-some x laws c r id sched s known,
        credit_if_any-ok sched.token_id sched.beneficiary due s fits,
        credit_if_any-ok sched.token_id sched.funder refund s' fits',
        save-eq x laws c r id
            (record sched { released = released_after sched (now x c s); revoked = true })
            (credited_if sched.token_id sched.funder refund s'),
      )

  released_after-eq :
      (sched : Schedule) (time : ℕ)
      → IsSchedule sched
      → released_after sched time ≡ sched.released + owed sched time
  unfolding released_after owed saturating_add
  released_after-eq sched time v = ground (arith, vested-le-total sched time, v.within, v.fits)

  -- Revoking a live, revocable schedule by its funder pays out its whole rest: the beneficiary gets
  -- what is vested and not yet released, the funder all that is not vested, together with what was
  -- released before exactly the total; the schedule is then revoked. The two parties differ, and
  -- both balances stay within a `u128`.
  pub handle_revoke_splits :
      (cmd : Command) (id : Hash) (sched : Schedule) (s : StateTree)
      → IsSchedule sched
      → schedule_of x c id s ≡ some sched
      → sched.revocable ≡ true
      → same sched.funder cmd.submitter ≡ true
      → sched.revoked ≡ false
      → same sched.funder sched.beneficiary ≡ false
      → balance x c.token sched.token_id sched.beneficiary s + sched.total < u128_mod
      → balance x c.token sched.token_id sched.funder s + sched.total < u128_mod
      → (due refund : ℕ) × (due ≡ vested sched (now x c s) - sched.released)
        × (sched.released + due + refund ≡ sched.total)
        × ((handle_revoke x c cmd id s).0
            ≡ ok (single (event x c cmd (was_revoked id refund)) 1500))
        × (balance x c.token sched.token_id sched.beneficiary (handle_revoke x c cmd id s).1
            ≡ balance x c.token sched.token_id sched.beneficiary s + due)
        × (balance x c.token sched.token_id sched.funder (handle_revoke x c cmd id s).1
            ≡ balance x c.token sched.token_id sched.funder s + refund)
        × (schedule_of x c id (handle_revoke x c cmd id s).1
            ≡ some (record sched { released = sched.released + due; revoked = true }))
  handle_revoke_splits cmd id sched s valid known revocable funder live ne fits_b fits_f =
      let time = now x c s in
      let due = owed sched time in
      let refund = sched.total - released_after sched time in
      let tid = sched.token_id in
      let s' = credited_if tid sched.beneficiary due s in
      let s'' = credited_if tid sched.funder refund s' in
      let new = record sched { released = released_after sched time; revoked = true } in
      let small : due ≤ sched.total = unfold owed in omega (arith, vested-le-total sched time) in
      let sum : sched.released + due + refund ≡ sched.total =
        unfold owed in
        omega
          (arith, vested-le-total sched time, released_after-eq sched time valid, valid.within) in
      let fits : balance x c.token tid sched.beneficiary s + due < u128_mod = omega arith in
      let untouched : balance x c.token tid sched.funder s' ≡ balance x c.token tid sched.funder s =
        ground (arith, balance-credited_if tid sched.beneficiary sched.funder due s fits) in
      let fits' : balance x c.token tid sched.funder s' + refund < u128_mod = omega arith in
      rw (handle_revoke-ok cmd id sched s known revocable funder live fits fits') (
        due,
        refund,
        (unfold owed in refl),
        sum,
        refl,
        ground (
          arith,
          balance-with_schedule x laws c r tid id sched.beneficiary new s'',
          balance-credited_if tid sched.funder sched.beneficiary refund s' fits',
          balance-credited_if tid sched.beneficiary sched.beneficiary due s fits,
          same_refl sched.beneficiary,
          same_sym sched.funder sched.beneficiary,
        ),
        ground (
          arith,
          balance-with_schedule x laws c r tid id sched.funder new s'',
          balance-credited_if tid sched.funder sched.funder refund s' fits',
          same_refl sched.funder,
        ),
        schedule_of-with_schedule x laws c r id new s''
            ∙ ap (λ n. some (record sched { released = n; revoked = true }))
                (released_after-eq sched time valid),
      )

  -- Only the funder of a revocable schedule revokes it: any other attempt fails and changes nothing.
  pub handle_revoke_unauthorized :
      (cmd : Command) (id : Hash) (sched : Schedule) (s : StateTree)
      → schedule_of x c id s ≡ some sched
      → (sched.revocable ≡ false
          → handle_revoke x c cmd id s ≡ (err (unauthorized (lit "schedule is not revocable")), s))
        × (sched.revocable ≡ true
            → same sched.funder cmd.submitter ≡ false
            → handle_revoke x c cmd id s ≡ (err (unauthorized (lit "only funder can revoke")), s))
  unfolding handle_revoke
  handle_revoke_unauthorized cmd id sched s known = (
    λ fixed. ground (arith, load-some x laws c r id sched s known),
    λ revocable other. ground (arith, load-some x laws c r id sched s known),
  )

  -- Creating a schedule that is new, whose cliff is within its duration and whose positive total the
  -- caller holds, takes the total from the caller and stores a valid schedule with nothing released
  -- and the caller as its funder.
  pub handle_create_funds :
      (cmd : Command) (tid : Hash) (beneficiary : PartyId) (total start cliff duration : ℕ)
      (revocable : Bool) (s : StateTree)
      → total ≢ 0
      → cliff ≤ duration
      → contains (key x (schedule_id x c cmd.submitter beneficiary tid start total)) s ≡ false
      → total ≤ balance x c.token tid cmd.submitter s
      → let (result, s') =
          handle_create x c cmd tid beneficiary total start cliff duration revocable s in
        let id = schedule_id x c cmd.submitter beneficiary tid start total in
        (result ≡ ok (single (event x c cmd (created id beneficiary total)) 4000))
        × (balance x c.token tid cmd.submitter s' + total ≡ balance x c.token tid cmd.submitter s)
        × ((sched : Schedule) × (schedule_of x c id s' ≡ some sched)
            × IsSchedule sched
            × (sched.released ≡ 0)
            × (sched.revoked ≡ false)
            × (sched.funder ≡ cmd.submitter)
            × (sched.beneficiary ≡ beneficiary)
            × (sched.total ≡ total))
  handle_create_funds cmd tid beneficiary total start cliff duration revocable s pos k new cover =
      let id = schedule_id x c cmd.submitter beneficiary tid start total in
      let held = balance x c.token tid cmd.submitter s in
      let sched : Schedule = record {
        id = id;
        token_id = tid;
        funder = cmd.submitter;
        beneficiary = beneficiary;
        total = total;
        released = 0;
        start = start;
        cliff = cliff;
        duration = duration;
        revocable = revocable;
        revoked = false;
      } in
      let s' = with_balance x laws c.token r.token tid cmd.submitter (held - total) s in
      let run : handle_create x c cmd tid beneficiary total start cliff duration revocable s ≡ (
        ok (single (event x c cmd (created id beneficiary total)) 4000),
        with_schedule x laws c r id sched s',
      ) =
        unfold handle_create in
        ground (
          arith,
          debit-ok x laws c.token r.token tid cmd.submitter total s cover,
          save-eq x laws c r id sched s',
        ) in
      let bound = balance-bound x c.token tid cmd.submitter s in
      rw run (
        refl,
        omega (
          arith,
          balance-with_schedule x laws c r tid id cmd.submitter sched s',
          balance-with_balance_self x laws c.token r.token tid cmd.submitter (held - total) s
              (omega arith),
        ),
        (
          sched,
          schedule_of-with_schedule x laws c r id sched s',
          record { within = omega arith; fits = omega arith },
          refl,
          refl,
          refl,
          refl,
          refl,
        ),
      )
