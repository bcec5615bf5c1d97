-- ===== src/Dex/Handle.antt =====
-- The commands of the exchange (prisms/dex/src/lib.rs), one function for each arm of `handle`.
use veilux_binary.Base.{
  ℕ, ◌-◌, min, Bool, true, false, ◌||◌, Option, none, some, [], ◌∷◌, ◌++◌, Text, lit, ok, err,
  Action, pure, gets, or_raise, raise_if, ◌>>=◌, ◌>>◌, ltb, ◌==◌, if◌then◌else◌, saturating_add,
  saturating_mul,
}
use Prim.Native.Nat.{Ordering}
use veilux_binary.Base.Order.{same, text_ord, text_cmp}
use veilux_binary.Base.Map as Shares
use veilux_binary.Base.Map.{Map}
use veilux_binary.Kernel.Hash.{Crates, Hash, commit, to_hex}
use veilux_binary.Kernel.Types.{PartyId, Command, Event, command_id}
use veilux_binary.Kernel.Serde.{to_vec_or_default}
use veilux_binary.Kernel.State.{StateTree, contains, get_json, put_json}
use veilux_binary.Kernel.Prism.{
  PrismError, PrismOutput, invalid_payload, limit_exceeded, not_found, or_internal, single,
}
use veilux_binary.Token.Store.{credit, debit, ok_flatten}
use veilux_binary.Dex.Math.{checked_div, isqrt, quote_out}
use veilux_binary.Dex.Pool.{
  Pool, DexCommand, DexEvent, DexSerde, Stop, fault, panic, create_pool, add_liquidity,
  remove_liquidity, swap, pool_created, liquidity_added, liquidity_removed, swapped,
}

unfoldable pub key : Crates → Hash → Text
key x id = lit "dex/pool/" ++ to_hex x id

-- An action that returns an error of the prism and does not panic.
unfoldable pub faults : {A : Type 0} → Action StateTree PrismError A → Action StateTree Stop A
faults m s = let (r, s') = m s in elim r [ ok a ↦ (ok a, s') | err e ↦ (err (fault e), s') ]

-- `token_a.to_hex() <= token_b.to_hex()`
unfoldable pub hex_le : Crates → Hash → Hash → Bool
hex_le x a b = elim (text_cmp (to_hex x a) (to_hex x b)) [ Ordering.gt ↦ false | _ ↦ true ]

-- The shares minted for a deposit; `none` is a panic.
unfoldable pub minted_shares : Pool → ℕ → ℕ → Option ℕ
minted_shares p amount_a amount_b =
    if p.total_shares == 0
    then isqrt (saturating_mul amount_a amount_b)
    else elim (checked_div (saturating_mul amount_a p.total_shares) p.reserve_a) [
      | none ↦ none
      | some by_a ↦ elim (checked_div (saturating_mul amount_b p.total_shares) p.reserve_b) [
        | none ↦ none
        | some by_b ↦ some (min by_a by_b)
      ]
    ]

-- `unwrap_or(0)`
unfoldable pub shares_of : PartyId → Pool → ℕ
shares_of who p = elim (Shares.get who p.shares) [ none ↦ 0 | some n ↦ n ]

-- The pool after a deposit.
unfoldable pub deposited : PartyId → ℕ → ℕ → ℕ → Pool → Pool
unfolding shares_of
deposited caller amount_a amount_b minted p = record p {
  reserve_a = saturating_add p.reserve_a amount_a;
  reserve_b = saturating_add p.reserve_b amount_b;
  total_shares = saturating_add p.total_shares minted;
  shares = Shares.insert caller (saturating_add (shares_of caller p) minted) p.shares;
}

-- The pool after a withdrawal.
unfoldable pub withdrawn : PartyId → ℕ → ℕ → ℕ → Pool → Pool
unfolding shares_of
withdrawn caller amount_a amount_b shares p = record p {
  reserve_a = p.reserve_a - amount_a;
  reserve_b = p.reserve_b - amount_b;
  total_shares = p.total_shares - shares;
  shares =
      if shares_of caller p - shares == 0
      then Shares.remove caller p.shares
      else Shares.insert caller (shares_of caller p - shares) p.shares;
}

-- The pool after a trade; `token_in` is `token_a` or the other token.
unfoldable pub traded : Hash → ℕ → ℕ → Pool → Pool
traded token_in amount_in amount_out p =
    if same token_in p.token_a
    then record p {
      reserve_a = saturating_add p.reserve_a amount_in;
      reserve_b = p.reserve_b - amount_out;
    }
    else record p {
      reserve_b = saturating_add p.reserve_b amount_in;
      reserve_a = p.reserve_a - amount_out;
    }

-- `(reserve_in, reserve_out, token_out)`
unfoldable pub sides : Hash → Pool → Option (ℕ × ℕ × Hash)
sides token_in p =
    if same token_in p.token_a
    then some (p.reserve_a, p.reserve_b, p.token_b)
    else (if same token_in p.token_b then some (p.reserve_b, p.reserve_a, p.token_a) else none)

module _ (x : Crates) (c : DexSerde) where
  unfoldable pub load : Hash → Action StateTree PrismError Pool
  load id = do
    found ← or_internal (λ s. (get_json c.pool (key x id) s, s))
    or_raise found (not_found (lit "pool " ++ to_hex x id))

  unfoldable pub save : Pool → Action StateTree PrismError (Unit {0})
  save pool = or_internal (put_json c.pool (key x pool.id) pool)

  unfoldable pub event : Command → DexEvent → Event
  event cmd payload = record {
    source_command = command_id x cmd;
    prism = lit "dex";
    visibility = cmd.visibility;
    payload = to_vec_or_default c.event payload;
  }

  unfoldable pub pool_id : Hash → Hash → Hash
  pool_id token_a token_b = commit x (lit "dex/pool-id") (to_hex x token_a ∷ to_hex x token_b ∷ [])

  -- The two tokens in the order of their hex text.
  unfoldable pub ordered : Hash → Hash → Hash × Hash
  ordered token_a token_b =
      if hex_le x token_a token_b then (token_a, token_b) else (token_b, token_a)

  unfoldable pub handle_create_pool : Command → Hash → Hash → Action StateTree Stop PrismOutput
  handle_create_pool cmd token_a token_b = do
    raise_if (same token_a token_b) (fault (invalid_payload (lit "pool needs two distinct tokens")))
    let (a, b) = ordered token_a token_b
    let id = pool_id a b
    exists ← gets (contains (key x id))
    raise_if exists (fault (invalid_payload (lit "pool already exists")))
    faults (
        save (record {
          id = id;
          token_a = a;
          token_b = b;
          reserve_a = 0;
          reserve_b = 0;
          total_shares = 0;
          shares = [];
        }))
    pure (single (event cmd (pool_created id a b)) 4000)

  unfoldable pub handle_add_liquidity : Command → Hash → ℕ → ℕ → Action StateTree Stop PrismOutput
  handle_add_liquidity cmd pool amount_a amount_b = do
    p ← faults (load pool)
    raise_if (amount_a == 0 || amount_b == 0) (fault (invalid_payload (lit "amounts must be > 0")))
    minted ← or_raise (minted_shares p amount_a amount_b) panic
    raise_if (minted == 0) (fault (invalid_payload (lit "liquidity too small to mint shares")))
    faults (debit x c.token p.token_a cmd.submitter amount_a)
    faults (debit x c.token p.token_b cmd.submitter amount_b)
    faults (save (deposited cmd.submitter amount_a amount_b minted p))
    pure (single (event cmd (liquidity_added pool cmd.submitter minted)) 3000)

  unfoldable pub handle_remove_liquidity : Command → Hash → ℕ → Action StateTree Stop PrismOutput
  handle_remove_liquidity cmd pool shares = do
    p ← faults (load pool)
    raise_if (shares == 0 || ltb (shares_of cmd.submitter p) shares)
        (fault (limit_exceeded (lit "not enough shares")))
    amount_a ← or_raise (checked_div (saturating_mul p.reserve_a shares) p.total_shares) panic
    amount_b ← or_raise (checked_div (saturating_mul p.reserve_b shares) p.total_shares) panic
    faults (credit x c.token p.token_a cmd.submitter amount_a)
    faults (credit x c.token p.token_b cmd.submitter amount_b)
    faults (save (withdrawn cmd.submitter amount_a amount_b shares p))
    pure (single (event cmd (liquidity_removed pool cmd.submitter amount_a amount_b)) 2500)

  unfoldable pub handle_swap : Command → Hash → Hash → ℕ → ℕ → Action StateTree Stop PrismOutput
  handle_swap cmd pool token_in amount_in min_out = do
    p ← faults (load pool)
    raise_if (amount_in == 0) (fault (invalid_payload (lit "amount_in must be > 0")))
    (reserve_in, reserve_out, token_out) ←
        or_raise (sides token_in p) (fault (invalid_payload (lit "token not in pool")))
    let amount_out = quote_out reserve_in reserve_out amount_in
    raise_if (amount_out == 0 || ltb amount_out min_out)
        (fault (limit_exceeded (lit "slippage: output below min_out")))
    faults (debit x c.token token_in cmd.submitter amount_in)
    faults (credit x c.token token_out cmd.submitter amount_out)
    faults (save (traded token_in amount_in amount_out p))
    pure (
        single (event cmd (swapped pool cmd.submitter token_in amount_in token_out amount_out))
          2000)

  unfoldable pub dispatch : Command → DexCommand → Action StateTree Stop PrismOutput
  dispatch cmd (create_pool token_a token_b) = handle_create_pool cmd token_a token_b
  dispatch cmd (add_liquidity pool amount_a amount_b) =
      handle_add_liquidity cmd pool amount_a amount_b
  dispatch cmd (remove_liquidity pool shares) = handle_remove_liquidity cmd pool shares
  dispatch cmd (swap pool token_in amount_in min_out) =
      handle_swap cmd pool token_in amount_in min_out

  unfoldable pub handle : Command → Action StateTree Stop PrismOutput
  handle command s = elim (c.command.from_slice command.payload) [
    | ok cmd ↦ dispatch command cmd s
    | err e ↦ (err (fault (invalid_payload e)), s)
  ]

  unfoldable pub estimate : Command → StateTree → ℕ
  estimate command state = elim (c.command.from_slice command.payload) [
    | ok (create_pool token_a token_b) ↦ 4000
    | ok (add_liquidity pool amount_a amount_b) ↦ 3000
    | ok (remove_liquidity pool shares) ↦ 2500
    | ok (swap pool token_in amount_in min_out) ↦ 2000
    | err e ↦ 1000
  ]

  unfoldable pub pool_of : Hash → StateTree → Option Pool
  pool_of id s = ok_flatten (get_json c.pool (key x id) s)
