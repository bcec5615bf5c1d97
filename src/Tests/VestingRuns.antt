-- ===== src/Tests/VestingRuns.antt =====
-- The theorems on the vesting prism at a concrete schedule: 1000 from time 10 over 100, with a
-- cliff of 5 and 100 released, at time 60.
use veilux_binary.Base.{
  ℕ, ◌+◌, ◌-◌, ◌≡◌, refl, true, false, lit, ok, some, arith, saturating_mul, saturating_add64,
}
use veilux_binary.Base.Map as Entries
use veilux_binary.Base.Order.{text_cmp, text_ord}
use veilux_binary.Kernel.Hash.{Hash, to_hex, commit, commit_input}
use veilux_binary.Kernel.State.{StateTree, new, get_json, contains}
use veilux_binary.Kernel.State as Tree
use veilux_binary.Kernel.Prism.{single}
use veilux_binary.Token.Store.{balance, bal_key, meta_key, allow_key}
use veilux_binary.Vesting.Schedule.{vested, releasable, was_released, was_revoked}
use veilux_binary.Vesting.Handle.{
  event, key, now, schedule_of, schedule_id, handle_release, handle_revoke,
}
use veilux_binary.Dex.Handle as Pools
use veilux_binary.Vesting.Laws.{IsSchedule, handle_release_pays}
use veilux_binary.Vesting.Revoke.{handle_revoke_splits}
use veilux_binary.Tests.World.{
  crates, hex_laws, vests, vests_read, tokens, alice, bob, gold, grant, sched, state, order,
  state-alice, state-bob, state-sched, state-now,
}

vested_now : vested sched 60 ≡ 500
unfolding vested saturating_mul saturating_add64
vested_now = refl

releasable-now : releasable sched (now crates vests state) ≡ 400
unfolding releasable
releasable-now = rw state-now (omega (arith, vested_now))

sched-IsSchedule : IsSchedule sched
sched-IsSchedule = record { within = omega arith; fits = omega arith }

handle_release_pays_example :
    let (result, s) = handle_release crates vests (order bob) grant state in
    let paid = vested sched (now crates vests state) in
    (result
      ≡ ok (single (event crates vests (order bob) (was_released grant bob (paid - 100))) 1500))
    × (balance crates tokens gold bob s + 100 ≡ balance crates tokens gold bob state + paid)
    × (schedule_of crates vests grant s ≡ some (record sched { released = paid }))
    × IsSchedule (record sched { released = paid })
handle_release_pays_example =
    handle_release_pays crates hex_laws vests vests_read (order bob) grant sched state
      sched-IsSchedule state-sched refl (omega (arith, releasable-now))
      (omega (arith, releasable-now, state-bob))

handle_revoke_splits_example :
    (due refund : ℕ) × (due ≡ vested sched (now crates vests state) - 100)
    × (100 + due + refund ≡ 1000)
    × ((handle_revoke crates vests (order alice) grant state).0
        ≡ ok (single (event crates vests (order alice) (was_revoked grant refund)) 1500))
    × (balance crates tokens gold bob (handle_revoke crates vests (order alice) grant state).1
        ≡ balance crates tokens gold bob state + due)
    × (balance crates tokens gold alice (handle_revoke crates vests (order alice) grant state).1
        ≡ balance crates tokens gold alice state + refund)
    × (schedule_of crates vests grant (handle_revoke crates vests (order alice) grant state).1
        ≡ some (record sched { released = 100 + due; revoked = true }))
unfolding text_cmp
handle_revoke_splits_example =
    handle_revoke_splits crates hex_laws vests vests_read (order alice) grant sched state
      sched-IsSchedule state-sched refl refl refl refl (omega (arith, state-bob))
      (omega (arith, state-alice))

abbrev fresh : Hash
fresh = schedule_id crates vests alice bob gold 20 70

fresh-absent : contains (key crates fresh) state ≡ false
unfolding contains Entries.contains_key Entries.get Entries.insert Tree.put new key Pools.key
    meta_key bal_key allow_key to_hex lit text_cmp schedule_id commit commit_input
fresh-absent = refl
