-- ===== src/Token/Fee.antt =====
-- The fee of a transaction: what is charged, burned and paid to the proposer
-- (prisms/token/src/lib.rs).
use veilux_binary.Base.{
  ℕ, ◌+◌, ◌-◌, ◌*◌, ◌/◌, ◌%◌, ◌<◌, ◌≤◌, ◌≡◌, ◌≢◌, refl, ap, sym, ◌∙◌, min, true, some, List, ok,
  arith, if◌then◌else◌, u128_mod, checked_add, ltb, ◌==◌, Bool-cases, ==_iff, inl, inr,
}
use veilux_binary.Base.Order.{text_ord}
use veilux_binary.Kernel.Hash.{Crates, Hash}
use veilux_binary.Kernel.Types.{PartyId, contains, IsDistinct}
use veilux_binary.Kernel.State.{StateTree}
use veilux_binary.Token.Types.{TokenMeta, TokenSerde, TokenRoundTrips}
use veilux_binary.Token.Store.{
  balance, token_meta, fee_burned, pay_reward, burn_part, collect_fee, FeeOutcome,
}
use veilux_binary.Token.Keys.{HexLaws}
use veilux_binary.Token.Balances.{
  with_balance, set_balance-eq, token_meta-with_balance, balance-bound,
}
use veilux_binary.Token.Effects.{with_supply, update_supply-eq, token_meta-with_supply}
use veilux_binary.Token.Supply.{total, total-with_balance, total-with_supply}

-- Never more is burned than charged, also where the product wraps.
pub fee_burned-le : (charged burn_bps : ℕ) → fee_burned charged burn_bps ≤ charged
unfolding fee_burned
fee_burned-le charged burn_bps = at_most (min burn_bps 10000) (omega arith)
  where
    at_most : (k : ℕ) → k ≤ 10000 → charged * k % u128_mod / 10000 ≤ charged
    at_most k h = let product : charged * k ≤ charged * 10000 = grind arith in omega arith

-- Below the wrap the burned share is the exact part of the charge, rounded down.
pub fee_burned-exact :
    (charged burn_bps : ℕ)
    → charged * 10000 < u128_mod
    → fee_burned charged burn_bps ≡ charged * min burn_bps 10000 / 10000
unfolding fee_burned
fee_burned-exact charged burn_bps h = at_most (min burn_bps 10000) (omega arith)
  where
    at_most : (k : ℕ) → k ≤ 10000 → charged * k % u128_mod / 10000 ≡ charged * k / 10000
    at_most k b = let product : charged * k ≤ charged * 10000 = grind arith in omega arith

module _ (x : Crates) (laws : HexLaws x) (c : TokenSerde) (r : TokenRoundTrips c) where
  -- The states that the two optional payments lead to.
  with_reward : Hash → PartyId → ℕ → StateTree → StateTree
  with_reward id p rewarded s =
      if ltb 0 rewarded then with_balance x laws c r id p (balance x c id p s + rewarded) s else s

  with_burn : Hash → ℕ → StateTree → StateTree
  with_burn id burned s =
      if ltb 0 burned then with_supply x laws c r id (λ supply. supply - burned) s else s

  pay_reward-ok :
      (id : Hash) (p : PartyId) (rewarded : ℕ) (s : StateTree)
      → balance x c id p s + rewarded < u128_mod
      → pay_reward x c id p rewarded s ≡ (ok tt, with_reward id p rewarded s)
  unfolding pay_reward with_reward checked_add
  pay_reward-ok id p rewarded s h =
      ground (arith, set_balance-eq x laws c r id p (balance x c id p s + rewarded) s)

  burn_part-ok :
      (id : Hash) (burned : ℕ) (s : StateTree)
      → burn_part x c id burned s ≡ (ok tt, with_burn id burned s)
  unfolding burn_part with_burn
  burn_part-ok id burned s = elim (Bool-cases (ltb 0 burned)) [
    | inl some_ ↦
        rw (some_, burn_part, with_burn) (update_supply-eq x laws c r id (λ n. n - burned) s)
    | inr none_ ↦ rw (none_, burn_part, with_burn) refl
  ]

  total-with_reward :
      (ps : List PartyId) (id : Hash) (p : PartyId) (rewarded : ℕ) (s : StateTree)
      → balance x c id p s + rewarded < u128_mod
      → IsDistinct ps
      → contains ps p ≡ true
      → total x c ps id (with_reward id p rewarded s) ≡ total x c ps id s + rewarded
  unfolding with_reward
  total-with_reward ps id p rewarded s h d hp = elim (Bool-cases (ltb 0 rewarded)) [
    | inl some_ ↦ rw some_ (
        omega
          (arith, total-with_balance x laws c r ps id p (balance x c id p s + rewarded) s h d hp))
    | inr none_ ↦ rw none_ (ground arith)
  ]

  total-with_burn :
      (ps : List PartyId) (id : Hash) (burned : ℕ) (s : StateTree)
      → total x c ps id (with_burn id burned s) ≡ total x c ps id s
  unfolding with_burn
  total-with_burn ps id burned s = elim (Bool-cases (ltb 0 burned)) [
    | inl some_ ↦ rw some_ (total-with_supply x laws c r ps id (λ supply. supply - burned) s)
    | inr none_ ↦ rw none_ refl
  ]

  token_meta-with_reward :
      (id : Hash) (p : PartyId) (rewarded : ℕ) (s : StateTree)
      → token_meta x c id (with_reward id p rewarded s) ≡ token_meta x c id s
  unfolding with_reward
  token_meta-with_reward id p rewarded s = elim (Bool-cases (ltb 0 rewarded)) [
    | inl some_ ↦ rw some_ (token_meta-with_balance x laws c r id id p _ s)
    | inr none_ ↦ rw none_ refl
  ]

  token_meta-with_burn :
      (id : Hash) (burned : ℕ) (m : TokenMeta) (s : StateTree)
      → token_meta x c id s ≡ some m
      → token_meta x c id (with_burn id burned s)
        ≡ some (record m { total_supply = m.total_supply - burned })
  unfolding with_burn
  token_meta-with_burn id burned m s known = elim (Bool-cases (ltb 0 burned)) [
    | inl some_ ↦ rw some_ (token_meta-with_supply x laws c r id (λ n. n - burned) m s known)
    | inr none_ ↦ rw none_ (ground arith)
  ]

  collect_fee-ok :
      (id : Hash) (payer proposer : PartyId) (fee burn_bps : ℕ) (s : StateTree)
      → let charged = min fee (balance x c id payer s) in
        let burned = fee_burned charged burn_bps in
        let s' = with_balance x laws c r id payer (balance x c id payer s - charged) s in
        charged ≢ 0
        → balance x c id proposer s' + (charged - burned) < u128_mod
        → collect_fee x c id payer proposer fee burn_bps s ≡ (
          ok (record { charged = charged; burned = burned; rewarded = charged - burned }),
          with_burn id burned (with_reward id proposer (charged - burned) s'),
        )
  unfolding collect_fee
  collect_fee-ok id payer proposer fee burn_bps s some_ fits =
      let charged = min fee (balance x c id payer s) in
      let burned = fee_burned charged burn_bps in
      let s' = with_balance x laws c r id payer (balance x c id payer s - charged) s in
      ground (
        arith,
        set_balance-eq x laws c r id payer (balance x c id payer s - charged) s,
        pay_reward-ok id proposer (charged - burned) s' fits,
        burn_part-ok id burned (with_reward id proposer (charged - burned) s'),
      )

  collect_fee-nothing :
      (id : Hash) (payer proposer : PartyId) (fee burn_bps : ℕ) (s : StateTree)
      → min fee (balance x c id payer s) ≡ 0
      → collect_fee x c id payer proposer fee burn_bps s
        ≡ (ok (record { charged = 0; burned = 0; rewarded = 0 }), s)
  unfolding collect_fee
  collect_fee-nothing id payer proposer fee burn_bps s h = ground arith

  -- A fee is the lesser of what is asked and what the payer holds, and it is split without a rest
  -- into a reward and a burned part. Among distinct parties with the payer and the proposer the sum
  -- of the balances falls by exactly the burned part, and so does the recorded supply, down to 0 at
  -- most; the reward must fit a `u128` at the proposer.
  pub collect_fee_conserves :
      (ps : List PartyId) (id : Hash) (payer proposer : PartyId) (fee burn_bps : ℕ) (m : TokenMeta)
      (s : StateTree)
      → IsDistinct ps
      → contains ps payer ≡ true
      → contains ps proposer ≡ true
      → token_meta x c id s ≡ some m
      → let charged = min fee (balance x c id payer s) in
        let burned = fee_burned charged burn_bps in
        let s' = with_balance x laws c r id payer (balance x c id payer s - charged) s in
        balance x c id proposer s' + (charged - burned) < u128_mod
        → (out : FeeOutcome) × ((collect_fee x c id payer proposer fee burn_bps s).0 ≡ ok out)
          × (out.charged ≡ min fee (balance x c id payer s))
          × (out.burned + out.rewarded ≡ out.charged)
          × (total x c ps id (collect_fee x c id payer proposer fee burn_bps s).1 + out.burned
              ≡ total x c ps id s)
          × (token_meta x c id (collect_fee x c id payer proposer fee burn_bps s).1
              ≡ some (record m { total_supply = m.total_supply - out.burned }))
  collect_fee_conserves ps id payer proposer fee burn_bps m s d hp hq known fits =
      elim (Bool-cases (min fee (balance x c id payer s) == 0)) [
        | inl nothing ↦
            let zero_ = (==_iff (min fee (balance x c id payer s)) 0).0 nothing in
            rw (collect_fee-nothing id payer proposer fee burn_bps s zero_) (
              record { charged = 0; burned = 0; rewarded = 0 },
              refl,
              sym zero_,
              refl,
              omega arith,
              known ∙ ap some (ground arith),
            )
        | inr something ↦
            let charged = min fee (balance x c id payer s) in
            let burned = fee_burned charged burn_bps in
            let s' = with_balance x laws c r id payer (balance x c id payer s - charged) s in
            let s'' = with_reward id proposer (charged - burned) s' in
            rw (collect_fee-ok id payer proposer fee burn_bps s (λ e. ground (arith, e)) fits) (
              record { charged = charged; burned = burned; rewarded = charged - burned },
              refl,
              refl,
              omega (arith, fee_burned-le charged burn_bps),
              omega (
                arith,
                balance-bound x c id payer s,
                fee_burned-le charged burn_bps,
                total-with_burn ps id burned s'',
                total-with_reward ps id proposer (charged - burned) s' fits d hq,
                total-with_balance x laws c r ps id payer (balance x c id payer s - charged) s
                    (omega (arith, balance-bound x c id payer s)) d hp,
              ),
              token_meta-with_burn id burned m s'' (
                  token_meta-with_reward id proposer (charged - burned) s'
                  ∙ (token_meta-with_balance x laws c r id id payer _ s ∙ known)),
            )
      ]
