-- ===== src/Dex/Liquidity.antt =====
-- Deposits and withdrawals keep a pool well formed and pay no more than the share
-- (prisms/dex/src/lib.rs).
use native.Mathlib.Nat.{div-mul-le_self}
use veilux_binary.Base.{
  ℕ, ◌+◌, ◌-◌, ◌*◌, ◌/◌, ◌<◌, ◌≤◌, ◌≡◌, ◌≢◌, min, some, arith, ltb, u128_mod, saturating_mul,
  saturating_add, saturating_add-fits, Bool-cases, inl, inr, ltb→lt, not-ltb→le,
}
use veilux_binary.Base.Order.{text_ord}
use veilux_binary.Base.Map as Shares
use veilux_binary.Base.Map.{
  Map, IsSorted, insert-IsSorted, remove-IsSorted, sum, or_zero, sum-insert, sum-remove,
}
use veilux_binary.Kernel.Types.{PartyId}
use veilux_binary.Dex.Math.{checked_div}
use veilux_binary.Dex.Pool.{Pool}
use veilux_binary.Dex.Handle.{minted_shares, shares_of, deposited, withdrawn}

-- The shares add up to the total, each provider has one entry, and a pool with shares has both
-- reserves.
pub record IsPool (p : Pool) : Type 0 where
  pub sorted : IsSorted p.shares
  pub backed : sum p.shares ≡ p.total_shares
  pub filled : p.total_shares ≢ 0 → (0 < p.reserve_a) × (0 < p.reserve_b)

saturating_mul-le : (a b : ℕ) → saturating_mul a b ≤ a * b
unfolding saturating_mul
saturating_mul-le a b = omega arith

shares_of-eq : (who : PartyId) (p : Pool) → shares_of who p ≡ or_zero (Shares.get who p.shares)
unfolding shares_of
shares_of-eq who p = ground arith

pub shares_of-le-total : (who : PartyId) (p : Pool) → IsPool p → shares_of who p ≤ p.total_shares
shares_of-le-total who p h =
    omega (arith, h.backed, shares_of-eq who p, sum-remove who p.shares h.sorted)

-- A deposit keeps the pool well formed, where no sum saturates: the shares still add up.
pub deposited-IsPool :
    (who : PartyId) (amount_a amount_b minted : ℕ) (p : Pool)
    → IsPool p
    → 0 < amount_a
    → 0 < amount_b
    → p.reserve_a + amount_a < u128_mod
    → p.reserve_b + amount_b < u128_mod
    → p.total_shares + minted < u128_mod
    → IsPool (deposited who amount_a amount_b minted p)
unfolding deposited
deposited-IsPool who amount_a amount_b minted p h pa pb fa fb fs =
    let held = shares_of-le-total who p h in
    let new = saturating_add-fits (shares_of who p) minted (omega arith) in
    record {
      sorted = insert-IsSorted who (saturating_add (shares_of who p) minted) p.shares h.sorted;
      backed = omega (
        arith,
        new,
        h.backed,
        shares_of-eq who p,
        saturating_add-fits p.total_shares minted fs,
        sum-insert who (saturating_add (shares_of who p) minted) p.shares h.sorted,
      );
      filled = λ _. (
        omega (arith, saturating_add-fits p.reserve_a amount_a fa),
        omega (arith, saturating_add-fits p.reserve_b amount_b fb),
      );
    }

-- The part that a withdrawal pays out of one reserve.
abbrev pub part : ℕ → ℕ → ℕ → ℕ
part reserve shares total = saturating_mul reserve shares / total

-- A withdrawal pays at most the share of the reserve.
pub part-le_share :
    (reserve shares total : ℕ) → part reserve shares total * total ≤ reserve * shares
part-le_share reserve shares total =
    omega (
      arith,
      div-mul-le_self (saturating_mul reserve shares) total,
      saturating_mul-le reserve shares,
    )

-- Unless all shares leave, something stays in the reserve.
part-lt :
    (reserve shares total : ℕ) → 0 < reserve → shares < total → part reserve shares total < reserve
part-lt reserve shares total pos h =
    below (part reserve shares total) (part-le_share reserve shares total)
  where
    below : (q : ℕ) → q * total ≤ reserve * shares → q < reserve
    below q e = elim (Bool-cases (ltb q reserve)) [
      | inl yes_ ↦ ltb→lt q reserve yes_
      | inr no_ ↦
          let large = not-ltb→le q reserve no_ in
          let products : reserve * total ≤ q * total = grind arith in
          let strict : reserve * shares < reserve * total = strictly reserve pos in
          absurd (omega arith)
    ]
      where
        strictly : (n : ℕ) → 0 < n → n * shares < n * total
        strictly n k = grind arith

-- A withdrawal of shares that the provider holds keeps the pool well formed.
pub withdrawn-IsPool :
    (who : PartyId) (shares : ℕ) (p : Pool)
    → IsPool p
    → 0 < shares
    → shares ≤ shares_of who p
    → let amount_a = part p.reserve_a shares p.total_shares in
      let amount_b = part p.reserve_b shares p.total_shares in
      IsPool (withdrawn who amount_a amount_b shares p)
unfolding withdrawn
withdrawn-IsPool who shares p h pos cover =
    let total = p.total_shares in
    let held = shares_of-le-total who p h in
    let left = shares_of who p - shares in
    record {
      sorted = ground (
        arith,
        remove-IsSorted who p.shares h.sorted,
        insert-IsSorted who left p.shares h.sorted,
      );
      backed = ground (
        arith,
        h.backed,
        shares_of-eq who p,
        sum-remove who p.shares h.sorted,
        sum-insert who left p.shares h.sorted,
      );
      filled = λ more.
          let both = h.filled (omega arith) in
          (
            omega (arith, part-lt p.reserve_a shares total both.0 (omega arith)),
            omega (arith, part-lt p.reserve_b shares total both.1 (omega arith)),
          );
    }

-- In a well-formed pool with shares the division of a deposit never panics, and the new shares are
-- worth at most the deposit, by either reserve.
pub minted_shares_fair :
    (p : Pool) (amount_a amount_b : ℕ)
    → IsPool p
    → p.total_shares ≢ 0
    → (n : ℕ) × (minted_shares p amount_a amount_b ≡ some n)
      × (n * p.reserve_a ≤ amount_a * p.total_shares)
      × (n * p.reserve_b ≤ amount_b * p.total_shares)
unfolding minted_shares checked_div
minted_shares_fair p amount_a amount_b h some_ =
    let both = h.filled some_ in
    let by_a = saturating_mul amount_a p.total_shares / p.reserve_a in
    let by_b = saturating_mul amount_b p.total_shares / p.reserve_b in
    let value_a : by_a * p.reserve_a ≤ amount_a * p.total_shares =
      part-le_share amount_a p.total_shares p.reserve_a in
    let value_b : by_b * p.reserve_b ≤ amount_b * p.total_shares =
      part-le_share amount_b p.total_shares p.reserve_b in
    (
      min by_a by_b,
      ground (arith, both),
      lower (min by_a by_b) by_a p.reserve_a (amount_a * p.total_shares) (omega arith) value_a,
      lower (min by_a by_b) by_b p.reserve_b (amount_b * p.total_shares) (omega arith) value_b,
    )
  where
    lower : (m n r v : ℕ) → m ≤ n → n * r ≤ v → m * r ≤ v
    lower m n r v k e = let products : m * r ≤ n * r = grind arith in omega arith
