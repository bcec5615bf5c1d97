-- ===== src/Token/Effects.antt =====
-- What `debit`, `credit`, `move_balance` and `burn_from` do, on every branch
-- (prisms/token/src/lib.rs).
use veilux_binary.Base.{
  ℕ, ◌+◌, ◌-◌, ◌<◌, ◌≤◌, ◌≡◌, refl, false, ◌&&◌, Option, none, some, lit, Result, ok, err, arith,
  u128_mod, checked_add, saturating_add,
}
use veilux_binary.Base.Order.{same, same_refl, text_ord}
use veilux_binary.Kernel.Hash.{Crates, Hash}
use veilux_binary.Kernel.Types.{PartyId}
use veilux_binary.Kernel.State.{StateTree}
use veilux_binary.Kernel.Prism.{PrismError, limit_exceeded, internal}
use veilux_binary.Token.Types.{TokenMeta, TokenSerde, TokenRoundTrips}
use veilux_binary.Token.Store.{
  balance, token_meta, put_meta, update_supply, credit, debit, move_balance, burn_from,
}
use veilux_binary.Token.Keys.{HexLaws}
use veilux_binary.Token.Balances.{
  with_balance, with_meta, set_balance-eq, put_meta-eq, balance-with_balance, balance-with_meta,
  token_meta-with_meta,
}

module _ (x : Crates) (laws : HexLaws x) (c : TokenSerde) (r : TokenRoundTrips c) where
  pub balance-with_balance_self :
      (id : Hash) (who : PartyId) (v : ℕ) (s : StateTree)
      → v < u128_mod
      → balance x c id who (with_balance x laws c r id who v s) ≡ v
  balance-with_balance_self id who v s h =
      rw (balance-with_balance x laws c r id id who who v s h) (rw (same_refl id, same_refl who))

  pub balance-with_balance_other :
      (id id' : Hash) (who who' : PartyId) (v : ℕ) (s : StateTree)
      → v < u128_mod
      → (same id' id && same who' who) ≡ false
      → balance x c id' who' (with_balance x laws c r id who v s) ≡ balance x c id' who' s
  balance-with_balance_other id id' who who' v s h n =
      rw (balance-with_balance x laws c r id id' who who' v s h) (rw n refl)

  -- The state after a change of the recorded supply.
  pub with_supply : Hash → (ℕ → ℕ) → StateTree → StateTree
  with_supply id f s = elim (token_meta x c id s) [
    | none ↦ s
    | some meta ↦ with_meta x laws c r id (record meta { total_supply = f meta.total_supply }) s
  ]

  pub update_supply-eq :
      (id : Hash) (f : ℕ → ℕ) (s : StateTree)
      → update_supply x c id f s ≡ (ok tt, with_supply id f s)
  unfolding update_supply with_supply
  update_supply-eq id f s = go (token_meta x c id s)
    where
      go :
          (o : Option TokenMeta)
          → (elim o as (λ _. Result PrismError (Unit {0}) × StateTree) [
            | none ↦ (ok tt, s)
            | some meta ↦ put_meta x c id (record meta { total_supply = f meta.total_supply }) s
          ])
            ≡ (
              ok tt,
              elim o [
                | none ↦ s
                | some meta ↦
                    with_meta x laws c r id (record meta { total_supply = f meta.total_supply }) s
              ],
            )
      go none = refl
      go (some meta) =
          put_meta-eq x laws c r id (record meta { total_supply = f meta.total_supply }) s

  pub balance-with_supply :
      (id id' : Hash) (who : PartyId) (f : ℕ → ℕ) (s : StateTree)
      → balance x c id who (with_supply id' f s) ≡ balance x c id who s
  unfolding with_supply
  balance-with_supply id id' who f s = go (token_meta x c id' s)
    where
      go :
          (o : Option TokenMeta)
          → balance x c id who (elim o [
            | none ↦ s
            | some meta ↦
                with_meta x laws c r id' (record meta { total_supply = f meta.total_supply }) s
          ])
            ≡ balance x c id who s
      go none = refl
      go (some meta) = balance-with_meta x laws c r id id' who _ s

  pub token_meta-with_supply :
      (id : Hash) (f : ℕ → ℕ) (m : TokenMeta) (s : StateTree)
      → token_meta x c id s ≡ some m
      → token_meta x c id (with_supply id f s) ≡ some (record m { total_supply = f m.total_supply })
  unfolding with_supply
  token_meta-with_supply id f m s known =
      rw (known, with_supply)
        (token_meta-with_meta x laws c r id (record m { total_supply = f m.total_supply }) s)

  -- What a successful `move_balance` has passed.
  pub move_balance-needs :
      (id : Hash) (from to : PartyId) (amount : ℕ) (s : StateTree)
      → (move_balance x c id from to amount s).0 ≡ ok tt
      → let s' = with_balance x laws c r id from (balance x c id from s - amount) s in
        (amount ≤ balance x c id from s) × (balance x c id to s' + amount < u128_mod)
  unfolding move_balance debit checked_add
  move_balance-needs id from to amount s e =
      let s' = with_balance x laws c r id from (balance x c id from s - amount) s in
      ground (
        arith,
        e,
        set_balance-eq x laws c r id from (balance x c id from s - amount) s,
        set_balance-eq x laws c r id to (balance x c id to s' + amount) s',
      )

  pub debit-ok :
      (id : Hash) (who : PartyId) (amount : ℕ) (s : StateTree)
      → amount ≤ balance x c id who s
      → debit x c id who amount s
        ≡ (ok tt, with_balance x laws c r id who (balance x c id who s - amount) s)
  unfolding debit
  debit-ok id who amount s h =
      ground (arith, set_balance-eq x laws c r id who (balance x c id who s - amount) s)

  pub debit-err :
      (id : Hash) (who : PartyId) (amount : ℕ) (s : StateTree)
      → balance x c id who s < amount
      → debit x c id who amount s ≡ (err (limit_exceeded (lit "insufficient balance")), s)
  unfolding debit
  debit-err id who amount s h = ground arith

  pub credit-ok :
      (id : Hash) (who : PartyId) (amount : ℕ) (s : StateTree)
      → balance x c id who s + amount < u128_mod
      → credit x c id who amount s ≡ (
        ok tt,
        with_supply id
            (λ supply. saturating_add supply amount)
            (with_balance x laws c r id who (balance x c id who s + amount) s),
      )
  unfolding credit checked_add
  credit-ok id who amount s h = ground (
    arith,
    set_balance-eq x laws c r id who (balance x c id who s + amount) s,
    update_supply-eq id (λ (supply : ℕ). saturating_add supply amount)
        (with_balance x laws c r id who (balance x c id who s + amount) s),
  )

  pub credit-err :
      (id : Hash) (who : PartyId) (amount : ℕ) (s : StateTree)
      → u128_mod ≤ balance x c id who s + amount
      → credit x c id who amount s ≡ (err (internal (lit "balance overflow")), s)
  unfolding credit checked_add
  credit-err id who amount s h = ground arith

  pub move_balance-ok :
      (id : Hash) (from to : PartyId) (amount : ℕ) (s : StateTree)
      → amount ≤ balance x c id from s
      → let s' = with_balance x laws c r id from (balance x c id from s - amount) s in
        balance x c id to s' + amount < u128_mod
        → move_balance x c id from to amount s
          ≡ (ok tt, with_balance x laws c r id to (balance x c id to s' + amount) s')
  unfolding move_balance checked_add
  move_balance-ok id from to amount s h k =
      let s' = with_balance x laws c r id from (balance x c id from s - amount) s in
      ground (
        arith,
        set_balance-eq x laws c r id from (balance x c id from s - amount) s,
        set_balance-eq x laws c r id to (balance x c id to s' + amount) s',
      )

  pub burn_from-ok :
      (id : Hash) (who : PartyId) (amount : ℕ) (s : StateTree)
      → amount ≤ balance x c id who s
      → burn_from x c id who amount s ≡ (
        ok tt,
        with_supply id
            (λ supply. supply - amount)
            (with_balance x laws c r id who (balance x c id who s - amount) s),
      )
  unfolding burn_from
  burn_from-ok id who amount s h = ground (
    arith,
    debit-ok id who amount s h,
    update_supply-eq id (λ (supply : ℕ). supply - amount)
        (with_balance x laws c r id who (balance x c id who s - amount) s),
  )
