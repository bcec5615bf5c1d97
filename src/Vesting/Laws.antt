-- ===== src/Vesting/Laws.antt =====
-- What the commands do to schedules and balances (prisms/vesting/src/lib.rs).
use veilux_binary.Base.{
  ℕ, ◌+◌, ◌-◌, ◌<◌, ◌≤◌, ◌≡◌, ◌≢◌, refl, ap, ◌∙◌, true, false, some, lit, ok, err, arith,
  if◌then◌else◌, u128_mod, saturating_add, saturating_add-fits,
}
use veilux_binary.Base.Order.{same, same_refl, text_ord, text_cmp}
use veilux_binary.Kernel.Hash.{Crates, Hash}
use veilux_binary.Kernel.Types.{PartyId, Command}
use veilux_binary.Kernel.State.{StateTree, put}
use veilux_binary.Kernel.State.Laws.{put_json-eq-put, get_json-put_self, get_json-put_other}
use veilux_binary.Kernel.Prism.{invalid_payload, limit_exceeded, or_internal, single}
use veilux_binary.Token.Store.{balance, ok_flatten, bal_key, read_amount}
use veilux_binary.Token.Keys.{HexLaws}
use veilux_binary.Token.Balances.{with_balance, balance-with_balance}
use veilux_binary.Token.Effects.{with_supply, credit-ok, balance-with_supply}
use veilux_binary.Vesting.Schedule.{
  Schedule, VestingSerde, VestingRoundTrips, vested, releasable, was_released,
}
use veilux_binary.Vesting.Curve.{vested-le-total}
use veilux_binary.Vesting.Handle.{key, now, load, save, event, handle_release, schedule_of}

key-bal_key :
    (x : Crates) (id id' : Hash) (who : PartyId) → same (bal_key x id who) (key x id') ≡ false
unfolding key bal_key lit text_cmp
key-bal_key x id id' who = refl

-- A schedule as `create` stores it and as every command keeps it: it has not released more than its
-- total, which is a `u128`.
pub record IsSchedule (s : Schedule) : Type 0 where
  pub within : s.released ≤ s.total
  pub fits : s.total < u128_mod

module _ (x : Crates) (laws : HexLaws x) (c : VestingSerde) (r : VestingRoundTrips c) where
  pub with_schedule : Hash → Schedule → StateTree → StateTree
  with_schedule id sched s = put (key x id) (r.schedule.bytes sched) s

  pub save-eq :
      (id : Hash) (sched : Schedule) (s : StateTree)
      → save x c id sched s ≡ (ok tt, with_schedule id sched s)
  unfolding save or_internal with_schedule
  save-eq id sched s = ground (arith, put_json-eq-put c.schedule r.schedule (key x id) sched s)

  pub load-some :
      (id : Hash) (sched : Schedule) (s : StateTree)
      → schedule_of x c id s ≡ some sched
      → load x c id s ≡ (ok sched, s)
  unfolding load schedule_of ok_flatten or_internal
  load-some id sched s h = ground arith

  pub schedule_of-with_schedule :
      (id : Hash) (sched : Schedule) (s : StateTree)
      → schedule_of x c id (with_schedule id sched s) ≡ some sched
  unfolding schedule_of with_schedule ok_flatten
  schedule_of-with_schedule id sched s =
      ap ok_flatten (get_json-put_self c.schedule r.schedule (key x id) sched s)

  pub balance-with_schedule :
      (id id' : Hash) (who : PartyId) (sched : Schedule) (s : StateTree)
      → balance x c.token id who (with_schedule id' sched s) ≡ balance x c.token id who s
  unfolding balance with_schedule
  balance-with_schedule id id' who sched s = ap read_amount (
      get_json-put_other c.token.string (key x id') (bal_key x id who) _ s
        (key-bal_key x id id' who))

  -- The state after a credit.
  unfoldable pub credited : Hash → PartyId → ℕ → StateTree → StateTree
  credited id who amount s =
      with_supply x laws c.token r.token id (λ supply. saturating_add supply amount)
        (with_balance x laws c.token r.token id who (balance x c.token id who s + amount) s)

  pub balance-credited :
      (id : Hash) (who other : PartyId) (amount : ℕ) (s : StateTree)
      → balance x c.token id who s + amount < u128_mod
      → balance x c.token id other (credited id who amount s) ≡ (
          if same other who
          then balance x c.token id who s + amount
          else balance x c.token id other s)
  unfolding credited
  balance-credited id who other amount s h = ground (
    arith,
    balance-with_supply x laws c.token r.token id id other
        (λ (supply : ℕ). saturating_add supply amount)
        (with_balance x laws c.token r.token id who (balance x c.token id who s + amount) s),
    balance-with_balance x laws c.token r.token id id who other
        (balance x c.token id who s + amount) s h,
    same_refl id,
  )

  handle_release-ok :
      (cmd : Command) (id : Hash) (sched : Schedule) (s : StateTree)
      → schedule_of x c id s ≡ some sched
      → sched.revoked ≡ false
      → releasable sched (now x c s) ≢ 0
      → balance x c.token sched.token_id sched.beneficiary s + releasable sched (now x c s)
        < u128_mod
      → let amount = releasable sched (now x c s) in
        handle_release x c cmd id s ≡ (
          ok (single (event x c cmd (was_released id sched.beneficiary amount)) 1500),
          with_schedule id
              (record sched { released = saturating_add sched.released amount })
              (credited sched.token_id sched.beneficiary amount s),
        )
  unfolding handle_release credited
  handle_release-ok cmd id sched s known live some_ fits =
      let amount = releasable sched (now x c s) in
      ground (
        arith,
        load-some id sched s known,
        credit-ok x laws c.token r.token sched.token_id sched.beneficiary amount s fits,
        save-eq id (record sched { released = saturating_add sched.released amount })
            (credited sched.token_id sched.beneficiary amount s),
      )

  -- A release of a live schedule with something to release pays the beneficiary all that is vested
  -- and not yet released, and the schedule then records exactly the vested amount and stays valid.
  -- The balance of the beneficiary and the pay fit a `u128` together.
  pub handle_release_pays :
      (cmd : Command) (id : Hash) (sched : Schedule) (s : StateTree)
      → IsSchedule sched
      → schedule_of x c id s ≡ some sched
      → sched.revoked ≡ false
      → releasable sched (now x c s) ≢ 0
      → balance x c.token sched.token_id sched.beneficiary s + releasable sched (now x c s)
        < u128_mod
      → let (result, s') = handle_release x c cmd id s in
        let paid = vested sched (now x c s) in
        (result
          ≡ ok (
              single
                (event x c cmd (was_released id sched.beneficiary (paid - sched.released)))
                1500))
        × (balance x c.token sched.token_id sched.beneficiary s' + sched.released
            ≡ balance x c.token sched.token_id sched.beneficiary s + paid)
        × (schedule_of x c id s' ≡ some (record sched { released = paid }))
        × IsSchedule (record sched { released = paid })
  unfolding releasable
  handle_release_pays cmd id sched s valid known live some_ fits =
      let paid = vested sched (now x c s) in
      let amount = paid - sched.released in
      let new = record sched { released = saturating_add sched.released amount } in
      let bound = vested-le-total sched (now x c s) in
      rw (handle_release-ok cmd id sched s known live some_ fits) (
        refl,
        omega (
          arith,
          some_,
          balance-with_schedule sched.token_id id sched.beneficiary new
              (credited sched.token_id sched.beneficiary amount s),
          paid_balance sched.token_id sched.beneficiary amount s fits,
        ),
        schedule_of-with_schedule id new (credited sched.token_id sched.beneficiary amount s)
            ∙ ap (λ n. some (record sched { released = n }))
                (saturating_add-fits sched.released amount
                    (omega (arith, bound, valid.within, valid.fits, some_))
                  ∙ omega (arith, some_)),
        record { within = bound; fits = valid.fits },
      )
    where
      paid_balance :
          (tid : Hash) (who : PartyId) (amount : ℕ) (t : StateTree)
          → balance x c.token tid who t + amount < u128_mod
          → balance x c.token tid who (credited tid who amount t)
            ≡ balance x c.token tid who t + amount
      paid_balance tid who amount t h =
          rw (balance-credited tid who who amount t h) (rw (same_refl who))

  -- Nothing is released of a revoked schedule, and nothing of one with nothing new vested; neither
  -- changes the state.
  pub handle_release_refused :
      (cmd : Command) (id : Hash) (sched : Schedule) (s : StateTree)
      → schedule_of x c id s ≡ some sched
      → (sched.revoked ≡ true
          → handle_release x c cmd id s ≡ (err (invalid_payload (lit "schedule revoked")), s))
        × (sched.revoked ≡ false
            → vested sched (now x c s) ≤ sched.released
            → handle_release x c cmd id s ≡ (err (limit_exceeded (lit "nothing vested yet")), s))
  unfolding handle_release releasable
  handle_release_refused cmd id sched s known = (
    λ gone. ground (arith, load-some id sched s known),
    λ live nothing. ground (arith, load-some id sched s known),
  )
