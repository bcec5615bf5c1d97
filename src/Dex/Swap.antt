-- ===== src/Dex/Swap.antt =====
-- A whole trade and a whole withdrawal through the state (prisms/dex/src/lib.rs).
use native.Mathlib.Nat.{mul_comm}
use veilux_binary.Base.{
  ℕ, ◌+◌, ◌-◌, ◌*◌, ◌<◌, ◌≤◌, ◌≡◌, ◌≢◌, refl, ap, ap₂, subst, ◌∙◌, true, false, some, ok, arith,
  u128_mod, saturating_add, saturating_add-fits, Bool-cases, inl, inr,
}
use veilux_binary.Base.Order.{same, text_ord}
use veilux_binary.Kernel.Hash.{Crates, Hash}
use veilux_binary.Kernel.Types.{PartyId, Command}
use veilux_binary.Kernel.State.{StateTree, put}
use veilux_binary.Kernel.State.Laws.{put_json-eq-put, get_json-put_self}
use veilux_binary.Kernel.Prism.{or_internal, single}
use veilux_binary.Token.Store.{balance, ok_flatten}
use veilux_binary.Token.Keys.{HexLaws}
use veilux_binary.Token.Balances.{with_balance}
use veilux_binary.Token.Effects.{debit-ok, credit-ok, with_supply}
use veilux_binary.Dex.Math.{quote_out}
use veilux_binary.Dex.Quote.{quote_out_pos, quote_out_keeps_product}
use veilux_binary.Dex.Pool.{Pool, DexSerde, DexRoundTrips, swapped}
use veilux_binary.Dex.Handle.{key, faults, load, save, event, sides, traded, handle_swap, pool_of}

traded-id : (token_in : Hash) (i o : ℕ) (p : Pool) → (traded token_in i o p).id ≡ p.id
unfolding traded
traded-id token_in i o p = ground arith

traded_first :
    (token_in : Hash) (amount_in out : ℕ) (p : Pool) (ri ro : ℕ) (token_out : Hash)
    → sides token_in p ≡ some (ri, ro, token_out)
    → same token_in p.token_a ≡ true
    → (p.reserve_a ≡ ri)
      × (p.reserve_b ≡ ro)
      × ((traded token_in amount_in out p).reserve_a ≡ saturating_add ri amount_in)
      × ((traded token_in amount_in out p).reserve_b ≡ ro - out)
unfolding traded sides
traded_first token_in amount_in out p ri ro token_out side first =
    (ground arith, ground arith, ground arith, ground arith)

traded_second :
    (token_in : Hash) (amount_in out : ℕ) (p : Pool) (ri ro : ℕ) (token_out : Hash)
    → sides token_in p ≡ some (ri, ro, token_out)
    → same token_in p.token_a ≡ false
    → (p.reserve_b ≡ ri)
      × (p.reserve_a ≡ ro)
      × ((traded token_in amount_in out p).reserve_b ≡ saturating_add ri amount_in)
      × ((traded token_in amount_in out p).reserve_a ≡ ro - out)
unfolding traded sides
traded_second token_in amount_in out p ri ro token_out side second =
    (ground arith, ground arith, ground arith, ground arith)

module _ (x : Crates) (laws : HexLaws x) (c : DexSerde) (r : DexRoundTrips c) where
  with_pool : Pool → StateTree → StateTree
  with_pool p s = put (key x p.id) (r.pool.bytes p) s

  save-eq : (p : Pool) (s : StateTree) → save x c p s ≡ (ok tt, with_pool p s)
  unfolding save or_internal with_pool
  save-eq p s = ground (arith, put_json-eq-put c.pool r.pool (key x p.id) p s)

  pub load-some :
      (id : Hash) (p : Pool) (s : StateTree) → pool_of x c id s ≡ some p → load x c id s ≡ (ok p, s)
  unfolding load pool_of ok_flatten or_internal
  load-some id p s h = ground arith

  pool_of-with_pool : (p : Pool) (s : StateTree) → pool_of x c p.id (with_pool p s) ≡ some p
  unfolding pool_of with_pool ok_flatten
  pool_of-with_pool p s = ap ok_flatten (get_json-put_self c.pool r.pool (key x p.id) p s)

  -- The state after the two payments of a trade.
  paid : Hash → Hash → PartyId → ℕ → ℕ → StateTree → StateTree
  paid token_in token_out who amount_in amount_out s =
      let s' =
        with_balance x laws c.token r.token token_in who
          (balance x c.token token_in who s - amount_in) s in
      with_supply x laws c.token r.token token_out (λ supply. saturating_add supply amount_out)
        (with_balance x laws c.token r.token token_out who
          (balance x c.token token_out who s' + amount_out) s')

  handle_swap-ok :
      (cmd : Command) (pool token_in : Hash) (amount_in min_out : ℕ) (p : Pool) (ri ro : ℕ)
      (token_out : Hash) (s : StateTree)
      → pool_of x c pool s ≡ some p
      → sides token_in p ≡ some (ri, ro, token_out)
      → amount_in ≢ 0
      → let out = quote_out ri ro amount_in in
        out ≢ 0
        → min_out ≤ out
        → amount_in ≤ balance x c.token token_in cmd.submitter s
        → balance x c.token token_out cmd.submitter (
              with_balance x laws c.token r.token token_in cmd.submitter
                (balance x c.token token_in cmd.submitter s - amount_in)
                s)
            + out
          < u128_mod
        → handle_swap x c cmd pool token_in amount_in min_out s ≡ (
          ok (
              single
                (event x c cmd (swapped pool cmd.submitter token_in amount_in token_out out))
                2000),
          with_pool
              (traded token_in amount_in out p)
              (paid token_in token_out cmd.submitter amount_in out s),
        )
  unfolding handle_swap faults paid
  handle_swap-ok cmd pool token_in amount_in min_out p ri ro token_out s known side some_ paying
        enough cover fits =
      let out = quote_out ri ro amount_in in
      let s' =
        with_balance x laws c.token r.token token_in cmd.submitter
          (balance x c.token token_in cmd.submitter s - amount_in) s in
      ground (
        arith,
        load-some pool p s known,
        debit-ok x laws c.token r.token token_in cmd.submitter amount_in s cover,
        credit-ok x laws c.token r.token token_out cmd.submitter out s' fits,
        save-eq (traded token_in amount_in out p)
            (paid token_in token_out cmd.submitter amount_in out s),
      )

  traded_product :
      (token_in : Hash) (amount_in out : ℕ) (p : Pool) (ri ro : ℕ) (token_out : Hash)
      → sides token_in p ≡ some (ri, ro, token_out)
      → ri + amount_in < u128_mod
      → ri * ro ≤ (ri + amount_in) * (ro - out)
      → p.reserve_a * p.reserve_b
        ≤ (traded token_in amount_in out p).reserve_a * (traded token_in amount_in out p).reserve_b
  traded_product token_in amount_in out p ri ro token_out side fits grows =
      elim (Bool-cases (same token_in p.token_a)) [
        | inl first ↦
            let e = traded_first token_in amount_in out p ri ro token_out side first in
            products p.reserve_a p.reserve_b ri ro (ri + amount_in) (ro - out) _ _ e.0 e.1
              (e.2 ∙ saturating_add-fits ri amount_in fits) e.3 grows
        | inr second ↦
            let e = traded_second token_in amount_in out p ri ro token_out side second in
            rw (mul_comm p.reserve_a p.reserve_b) (
              rw
                (mul_comm (traded token_in amount_in out p).reserve_a
                  (traded token_in amount_in out p).reserve_b)
                (products p.reserve_b p.reserve_a ri ro (ri + amount_in) (ro - out) _ _ e.0 e.1
                  (e.2 ∙ saturating_add-fits ri amount_in fits) e.3 grows))
      ]
    where
      products :
          (a b i o m n v w : ℕ) → a ≡ i → b ≡ o → v ≡ m → w ≡ n → i * o ≤ m * n → a * b ≤ v * w
      products a b i o m n v w ai bo vm wn h =
          rw (ap₂ (λ (f g : ℕ). f * g) ai bo) (rw (ap₂ (λ (f g : ℕ). f * g) vm wn) h)

  -- A trade on a known pool, stored under its own id, that pays something and at least the least
  -- amount asked, which the trader can pay and whose pay the trader can hold, succeeds with the
  -- quoted amount, stores the pool with the one reserve raised and the other lowered, does not
  -- lower the product of the reserves and does not empty the one that pays, where 10000 times the
  -- reserve that is paid into and 9970 times the amount have a sum below 2^128.
  pub handle_swap_keeps_product :
      (cmd : Command) (pool token_in : Hash) (amount_in min_out : ℕ) (p : Pool) (ri ro : ℕ)
      (token_out : Hash) (s : StateTree)
      → pool_of x c pool s ≡ some p
      → p.id ≡ pool
      → sides token_in p ≡ some (ri, ro, token_out)
      → amount_in ≢ 0
      → let out = quote_out ri ro amount_in in
        out ≢ 0
        → min_out ≤ out
        → amount_in ≤ balance x c.token token_in cmd.submitter s
        → balance x c.token token_out cmd.submitter (
              with_balance x laws c.token r.token token_in cmd.submitter
                (balance x c.token token_in cmd.submitter s - amount_in)
                s)
            + out
          < u128_mod
        → ri * 10000 + amount_in * 9970 < u128_mod
        → let (result, s') = handle_swap x c cmd pool token_in amount_in min_out s in
          (result
            ≡ ok (
                single
                  (event x c cmd (swapped pool cmd.submitter token_in amount_in token_out out))
                  2000))
          × (pool_of x c pool s' ≡ some (traded token_in amount_in out p))
          × (p.reserve_a * p.reserve_b
              ≤ (traded token_in amount_in out p).reserve_a
                * (traded token_in amount_in out p).reserve_b)
          × (out < ro)
  handle_swap_keeps_product cmd pool token_in amount_in min_out p ri ro token_out s known id side
        some_ paying enough cover fits small =
      let out = quote_out ri ro amount_in in
      let new = traded token_in amount_in out p in
      let keeps =
        quote_out_keeps_product ri ro amount_in small (quote_out_pos ri ro amount_in paying) in
      rw
        (handle_swap-ok cmd pool token_in amount_in min_out p ri ro token_out s known side some_
          paying enough cover fits)
        (
          refl,
          stored pool new (traded-id token_in amount_in out p ∙ id) _,
          traded_product token_in amount_in out p ri ro token_out side (omega arith) keeps.1,
          keeps.0,
        )
    where
      stored :
          (key_ : Hash) (q : Pool)
          → q.id ≡ key_
          → (t : StateTree) → pool_of x c key_ (with_pool q t) ≡ some q
      stored key_ q e t =
          subst (λ k. pool_of x c k (with_pool q t) ≡ some q) e (pool_of-with_pool q t)
