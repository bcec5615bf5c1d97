-- ===== src/Tests/DexRuns.antt =====
-- The theorems on the exchange at a concrete pool of 1000 gold and 2000 silver.
use veilux_binary.Base.{
  ℕ, ◌+◌, ◌-◌, ◌*◌, ◌/◌, ◌^◌, ◌≡◌, ◌≤◌, ◌<◌, refl, ok, some, arith, u128_mod, saturating_mul,
  saturating_add,
}
use veilux_binary.Base.Map as Shares
use veilux_binary.Base.Order.{text_cmp, text_ord}
use veilux_binary.Kernel.Prism.{single}
use veilux_binary.Token.Store.{balance}
use veilux_binary.Token.Balances.{with_balance}
use veilux_binary.Token.Effects.{balance-with_balance_other}
use veilux_binary.Dex.Math.{isqrt, quote_out}
use veilux_binary.Dex.Sqrt.{isqrt-IsRoot}
use veilux_binary.Dex.Quote.{quote_out_keeps_product, quote_out_capped}
use veilux_binary.Dex.Pool.{swapped}
use veilux_binary.Dex.Handle.{event, pool_of, sides, traded, handle_swap, minted_shares, shares_of}
use veilux_binary.Dex.Liquidity.{IsPool, minted_shares_fair}
use veilux_binary.Dex.Swap.{handle_swap_keeps_product}
use veilux_binary.Tests.World.{
  crates, hex_laws, tokens, pools, pools_read, alice, gold, silver, market, fund, state, order,
  state-alice, state-fund, state-silver,
}

isqrt-IsRoot_example :
    (r : ℕ) × (isqrt 1000000 ≡ some r) × (r * r ≤ 1000000) × (1000000 < (r + 1) * (r + 1))
isqrt-IsRoot_example = isqrt-IsRoot 1000000 (omega arith)

quote_out_keeps_product_example :
    (quote_out 1000 2000 100 < 2000)
    × (1000 * 2000 ≤ (1000 + 100) * (2000 - quote_out 1000 2000 100))
quote_out_keeps_product_example = quote_out_keeps_product 1000 2000 100 (omega arith) (omega arith)

-- One token of 18 decimals against a thousand: the quote is less than the formula's.
quote_out_capped_example :
    (quote_out (10 ^ 21) (10 ^ 21) (10 ^ 18) * (10 ^ 21 * 10000 + 10 ^ 18 * 9970) < u128_mod)
    × (quote_out (10 ^ 21) (10 ^ 21) (10 ^ 18)
        < 10 ^ 18 * 9970 * 10 ^ 21 / (10 ^ 21 * 10000 + 10 ^ 18 * 9970))
quote_out_capped_example =
    quote_out_capped (10 ^ 21) (10 ^ 21) (10 ^ 18) (omega arith) (omega arith) (omega arith)

fund-IsPool : IsPool fund
unfolding text_cmp
fund-IsPool = record {
  sorted = ground arith;
  backed = refl;
  filled = λ h. (omega arith, omega arith);
}

alice-shares : shares_of alice fund ≡ 400
unfolding shares_of Shares.get text_cmp
alice-shares = refl

minted_shares_fair_example :
    (n : ℕ) × (minted_shares fund 10 20 ≡ some n) × (n * 1000 ≤ 10 * 1400) × (n * 2000 ≤ 20 * 1400)
minted_shares_fair_example = minted_shares_fair fund 10 20 fund-IsPool (omega arith)

trade_out : quote_out 1000 2000 100 ≡ 181
unfolding quote_out saturating_mul saturating_add
trade_out = refl

fund-sides : sides gold fund ≡ some (1000, 2000, silver)
unfolding sides text_cmp
fund-sides = refl

paid-silver :
    balance crates tokens silver alice (
        with_balance crates hex_laws tokens pools_read.token gold alice
          (balance crates tokens gold alice state - 100)
          state)
      + quote_out 1000 2000 100
    < u128_mod
unfolding text_cmp
paid-silver = omega (
  arith,
  state-alice,
  state-silver,
  trade_out,
  balance-with_balance_other crates hex_laws tokens pools_read.token gold silver alice alice
      (balance crates tokens gold alice state - 100) state (omega (arith, state-alice)) refl,
)

handle_swap_keeps_product_example :
    let (result, s) = handle_swap crates pools (order alice) market gold 100 150 state in
    let out = quote_out 1000 2000 100 in
    (result
      ≡ ok (
          single
            (event crates pools (order alice) (swapped market alice gold 100 silver out))
            2000))
    × (pool_of crates pools market s ≡ some (traded gold 100 out fund))
    × (1000 * 2000 ≤ (traded gold 100 out fund).reserve_a * (traded gold 100 out fund).reserve_b)
    × (out < 2000)
handle_swap_keeps_product_example =
    handle_swap_keeps_product crates hex_laws pools pools_read (order alice) market gold 100 150
      fund 1000 2000 silver state state-fund refl fund-sides (omega arith)
      (omega (arith, trade_out)) (omega (arith, trade_out)) (omega (arith, state-alice)) paid-silver
      (omega arith)
