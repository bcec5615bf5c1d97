-- ===== src/Tests/TokenRuns.antt =====
-- The theorems on the token prism at concrete inputs.
use veilux_binary.Base.{
  ◌+◌, ◌-◌, ◌≡◌, ◌<◌, refl, ap, true, false, ◌&&◌, List, [], ◌∷◌, ok, some, arith, u128_mod, min,
}
use veilux_binary.Base.Order.{same, text_cmp, text_ord}
use veilux_binary.Kernel.Hash.{Hash}
use veilux_binary.Kernel.Types.{PartyId, IsDistinct, contains}
use veilux_binary.Kernel.Prism.{single}
use veilux_binary.Token.Types.{transferred}
use veilux_binary.Token.Store.{
  balance, token_meta, move_balance, debit, credit, fee_burned, FeeOutcome, collect_fee,
}
use veilux_binary.Token.Handle.{event, handle_transfer}
use veilux_binary.Token.Balances.{with_balance}
use veilux_binary.Token.Effects.{
  debit-ok, move_balance-ok, balance-with_balance_self, balance-with_balance_other,
}
use veilux_binary.Token.Transfer.{handle_transfer_moves, handle_transfer_to_self}
use veilux_binary.Token.Supply.{total, move_balance_conserves, debit_then_credit}
use veilux_binary.Token.Fee.{collect_fee_conserves}
use veilux_binary.Tests.World.{
  crates, hex_laws, tokens, tokens_read, alice, bob, carol, gold, coin, state, order, state-meta,
  state-alice, state-bob, state-carol,
}

alice-bob : same alice bob ≡ false
unfolding text_cmp
alice-bob = refl

handle_transfer_moves_example :
    let (result, s) = handle_transfer crates tokens (order alice) gold bob 30 state in
    (result ≡ ok (single (event crates tokens (order alice) (transferred gold alice bob 30)) 1000))
    × (balance crates tokens gold alice s + 30 ≡ balance crates tokens gold alice state)
    × (balance crates tokens gold bob s ≡ balance crates tokens gold bob state + 30)
    × ((id : Hash) (who : PartyId)
        → (same id gold && same who alice) ≡ false
        → (same id gold && same who bob) ≡ false
        → balance crates tokens id who s ≡ balance crates tokens id who state)
    × ((id : Hash) → token_meta crates tokens id s ≡ token_meta crates tokens id state)
handle_transfer_moves_example =
    handle_transfer_moves crates hex_laws tokens tokens_read (order alice) gold bob 30 (coin gold)
      state state-meta (omega (arith, state-alice)) (omega (arith, state-bob)) alice-bob

handle_transfer_to_self_example :
    let s = (handle_transfer crates tokens (order alice) gold alice 30 state).1 in
    (balance crates tokens gold alice s ≡ balance crates tokens gold alice state + 30)
    × (token_meta crates tokens gold s ≡ some (coin gold))
handle_transfer_to_self_example =
    handle_transfer_to_self crates hex_laws tokens tokens_read (order alice) gold 30 (coin gold)
      state state-meta (omega (arith, state-alice)) (omega (arith, state-alice))

abbrev holders : List PartyId
holders = alice ∷ bob ∷ carol ∷ []

holders-IsDistinct : IsDistinct holders
unfolding contains text_cmp
holders-IsDistinct = (refl, (refl, (refl, tt)))

holders-alice : contains holders alice ≡ true
unfolding contains text_cmp
holders-alice = refl

holders-bob : contains holders bob ≡ true
unfolding contains text_cmp
holders-bob = refl

holders-carol : contains holders carol ≡ true
unfolding contains text_cmp
holders-carol = refl

moved : (move_balance crates tokens gold alice alice 30 state).0 ≡ ok tt
moved =
    ap (λ r. r.0)
      (move_balance-ok crates hex_laws tokens tokens_read gold alice alice 30 state
        (omega (arith, state-alice))
        (omega (
          arith,
          state-alice,
          balance-with_balance_self crates hex_laws tokens tokens_read gold alice
              (balance crates tokens gold alice state - 30) state (omega (arith, state-alice)),
        )))

move_balance_conserves_example :
    let s = (move_balance crates tokens gold alice alice 30 state).1 in
    (total crates tokens holders gold s ≡ total crates tokens holders gold state)
    × (token_meta crates tokens gold s ≡ token_meta crates tokens gold state)
move_balance_conserves_example =
    move_balance_conserves crates hex_laws tokens tokens_read holders gold alice alice 30 state
      holders-IsDistinct holders-alice holders-alice moved

debited-bob :
    balance crates tokens gold bob (debit crates tokens gold alice 30 state).1 + 30 < u128_mod
unfolding text_cmp
debited-bob =
    rw
      (debit-ok crates hex_laws tokens tokens_read gold alice 30 state (omega (arith, state-alice)))
      (omega (
        arith,
        state-bob,
        balance-with_balance_other crates hex_laws tokens tokens_read gold gold alice bob
            (balance crates tokens gold alice state - 30) state (omega (arith, state-alice)) refl,
      ))

debit_then_credit_example :
    let s = (credit crates tokens gold bob 30 (debit crates tokens gold alice 30 state).1).1 in
    (total crates tokens holders gold s ≡ total crates tokens holders gold state)
    × (token_meta crates tokens gold s ≡ some (record (coin gold) { total_supply = 180 }))
debit_then_credit_example =
    debit_then_credit crates hex_laws tokens tokens_read holders gold alice bob 30 (coin gold) state
      holders-IsDistinct holders-alice holders-bob state-meta (omega arith)
      (omega (arith, state-alice)) debited-bob

paid-carol :
    balance crates tokens gold carol (
        with_balance crates hex_laws tokens tokens_read gold alice
          (balance crates tokens gold alice state - min 90 (balance crates tokens gold alice state))
          state)
      + (min 90 (balance crates tokens gold alice state)
          - fee_burned (min 90 (balance crates tokens gold alice state)) 5000)
    < u128_mod
unfolding text_cmp
paid-carol = omega (
  arith,
  state-alice,
  state-carol,
  balance-with_balance_other crates hex_laws tokens tokens_read gold gold alice carol
      (balance crates tokens gold alice state - min 90 (balance crates tokens gold alice state))
      state (omega (arith, state-alice)) refl,
)

collect_fee_conserves_example :
    (out : FeeOutcome) × ((collect_fee crates tokens gold alice carol 90 5000 state).0 ≡ ok out)
    × (out.charged ≡ min 90 (balance crates tokens gold alice state))
    × (out.burned + out.rewarded ≡ out.charged)
    × (total crates tokens holders gold (collect_fee crates tokens gold alice carol 90 5000 state).1
          + out.burned
        ≡ total crates tokens holders gold state)
    × (token_meta crates tokens gold (collect_fee crates tokens gold alice carol 90 5000 state).1
        ≡ some (record (coin gold) { total_supply = 150 - out.burned }))
collect_fee_conserves_example =
    collect_fee_conserves crates hex_laws tokens tokens_read holders gold alice carol 90 5000
      (coin gold) state holders-IsDistinct holders-alice holders-carol state-meta paid-carol
