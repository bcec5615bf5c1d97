-- ===== src/Token/Balances.antt =====
-- Reading balances, metadata and allowances after a write (prisms/token/src/lib.rs).
use veilux_binary.Base.{
  ℕ, ◌<◌, ◌≡◌, refl, ap, Bool, true, false, ◌&&◌, Option, none, some, Text, Result, ok, err, arith,
  if◌then◌else◌, u128_mod, to_decimal, parse_u128, parse_u128-to_decimal, parse_u128-bound,
  Option-cases, inl, inr,
}
use veilux_binary.Base.Order.{same, text_ord}
use veilux_binary.Kernel.Hash.{Crates, Hash}
use veilux_binary.Kernel.Types.{PartyId}
use veilux_binary.Kernel.State.{StateTree, StateError, put, get_json}
use veilux_binary.Kernel.State.Laws.{
  put_json-eq-put, get_json-put_self, get_json-put_other, get_json-put,
}
use veilux_binary.Kernel.Prism.{or_internal}
use veilux_binary.Token.Types.{TokenMeta, TokenSerde, TokenRoundTrips}
use veilux_binary.Token.Store.{
  read_amount, ok_flatten, meta_key, bal_key, allow_key, balance, set_balance, allowance,
  set_allowance, token_meta, put_meta,
}
use veilux_binary.Token.Keys.{HexLaws, same-bal_key, bal_key-meta_key, bal_key-allow_key}

read_amount-bound : (r : Result StateError (Option Text)) → read_amount r < u128_mod
unfolding read_amount
read_amount-bound (err e) = omega arith
read_amount-bound (ok none) = omega arith
read_amount-bound (ok (some t)) = elim (Option-cases (parse_u128 t)) [
  | inl e ↦ rw (e, read_amount) (omega arith)
  | inr (n, e) ↦ rw (e, read_amount) (parse_u128-bound t n e)
]

-- A balance is always a `u128`, whatever the state holds.
pub balance-bound :
    (x : Crates) (c : TokenSerde) (id : Hash) (who : PartyId) (s : StateTree)
    → balance x c id who s < u128_mod
unfolding balance
balance-bound x c id who s = read_amount-bound (get_json c.string (bal_key x id who) s)

pub allowance-bound :
    (x : Crates) (c : TokenSerde) (id : Hash) (owner spender : PartyId) (s : StateTree)
    → allowance x c id owner spender s < u128_mod
unfolding allowance
allowance-bound x c id owner spender s =
    read_amount-bound (get_json c.string (allow_key x id owner spender) s)

module _ (x : Crates) (laws : HexLaws x) (c : TokenSerde) (r : TokenRoundTrips c) where
  -- The states that `set_balance` and `put_meta` lead to.
  unfoldable pub with_balance : Hash → PartyId → ℕ → StateTree → StateTree
  with_balance id who v s = put (bal_key x id who) (r.string.bytes (to_decimal v)) s

  pub with_meta : Hash → TokenMeta → StateTree → StateTree
  with_meta id m s = put (meta_key x id) (r.meta.bytes m) s

  pub set_balance-eq :
      (id : Hash) (who : PartyId) (v : ℕ) (s : StateTree)
      → set_balance x c id who v s ≡ (ok tt, with_balance id who v s)
  unfolding set_balance or_internal with_balance
  set_balance-eq id who v s =
      ground (arith, put_json-eq-put c.string r.string (bal_key x id who) (to_decimal v) s)

  pub put_meta-eq :
      (id : Hash) (m : TokenMeta) (s : StateTree) → put_meta x c id m s ≡ (ok tt, with_meta id m s)
  unfolding put_meta or_internal with_meta
  put_meta-eq id m s = ground (arith, put_json-eq-put c.meta r.meta (meta_key x id) m s)

  pub balance-with_balance :
      (id id' : Hash) (who who' : PartyId) (v : ℕ) (s : StateTree)
      → v < u128_mod
      → balance x c id' who' (with_balance id who v s)
        ≡ (if same id' id && same who' who then v else balance x c id' who' s)
  unfolding balance with_balance read_amount
  balance-with_balance id id' who who' v s h =
      rw (get_json-put c.string r.string (bal_key x id who) (bal_key x id' who') (to_decimal v) s) (
        rw (same-bal_key x laws id' id who' who)
          (pick (same id' id && same who' who) (get_json c.string (bal_key x id' who') s) v h))
    where
      pick :
          (b : Bool) (old : Result StateError (Option Text)) (n : ℕ)
          → n < u128_mod
          → read_amount (if b then ok (some (to_decimal n)) else old)
            ≡ (if b then n else read_amount old)
      pick true old n k = ground (arith, parse_u128-to_decimal n k)
      pick false old n k = refl

  pub balance-with_meta :
      (id id' : Hash) (who : PartyId) (m : TokenMeta) (s : StateTree)
      → balance x c id who (with_meta id' m s) ≡ balance x c id who s
  unfolding balance with_meta
  balance-with_meta id id' who m s = ap read_amount (
      get_json-put_other c.string (meta_key x id') (bal_key x id who) (r.meta.bytes m) s
        (bal_key-meta_key x id id' who).0)

  pub token_meta-with_balance :
      (id id' : Hash) (who : PartyId) (v : ℕ) (s : StateTree)
      → token_meta x c id (with_balance id' who v s) ≡ token_meta x c id s
  unfolding token_meta with_balance
  token_meta-with_balance id id' who v s = ap ok_flatten (
      get_json-put_other c.meta (bal_key x id' who) (meta_key x id) _ s
        (bal_key-meta_key x id' id who).1)

  pub token_meta-with_meta :
      (id : Hash) (m : TokenMeta) (s : StateTree) → token_meta x c id (with_meta id m s) ≡ some m
  unfolding token_meta with_meta ok_flatten
  token_meta-with_meta id m s = ap ok_flatten (get_json-put_self c.meta r.meta (meta_key x id) m s)

  pub with_allowance : Hash → PartyId → PartyId → ℕ → StateTree → StateTree
  with_allowance id owner spender v s =
      put (allow_key x id owner spender) (r.string.bytes (to_decimal v)) s

  pub set_allowance-eq :
      (id : Hash) (owner spender : PartyId) (v : ℕ) (s : StateTree)
      → set_allowance x c id owner spender v s ≡ (ok tt, with_allowance id owner spender v s)
  unfolding set_allowance or_internal with_allowance
  set_allowance-eq id owner spender v s =
      ground
        (arith, put_json-eq-put c.string r.string (allow_key x id owner spender) (to_decimal v) s)

  pub balance-with_allowance :
      (id id' : Hash) (who owner spender : PartyId) (v : ℕ) (s : StateTree)
      → balance x c id who (with_allowance id' owner spender v s) ≡ balance x c id who s
  unfolding balance with_allowance
  balance-with_allowance id id' who owner spender v s = ap read_amount (
      get_json-put_other c.string (allow_key x id' owner spender) (bal_key x id who) _ s
        (bal_key-allow_key x id id' who owner spender).0)

  pub allowance-with_balance :
      (id id' : Hash) (who owner spender : PartyId) (v : ℕ) (s : StateTree)
      → allowance x c id owner spender (with_balance id' who v s) ≡ allowance x c id owner spender s
  unfolding allowance with_balance
  allowance-with_balance id id' who owner spender v s = ap read_amount (
      get_json-put_other c.string (bal_key x id' who) (allow_key x id owner spender) _ s
        (bal_key-allow_key x id' id who owner spender).1)

  pub allowance-with_allowance :
      (id : Hash) (owner spender : PartyId) (v : ℕ) (s : StateTree)
      → v < u128_mod
      → allowance x c id owner spender (with_allowance id owner spender v s) ≡ v
  unfolding allowance with_allowance read_amount
  allowance-with_allowance id owner spender v s h =
      rw (get_json-put_self c.string r.string (allow_key x id owner spender) (to_decimal v) s)
        (ground (arith, parse_u128-to_decimal v h))
