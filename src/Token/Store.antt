-- ===== src/Token/Store.antt =====
-- Balances, allowances and metadata in the state, and the helpers that other prisms call
-- (prisms/token/src/lib.rs).
use veilux_binary.Base.{
  ℕ, ◌+◌, ◌-◌, ◌*◌, ◌/◌, ◌%◌, ◌-◌, min, true, Option, none, some, List, [], ◌∷◌, ◌++◌, Text, lit,
  Result, ok, err, Action, pure, gets, or_raise, raise_if, ◌>>=◌, ◌>>◌, ltb, ◌==◌, if◌then◌else◌,
  checked_add, saturating_add, u128_mod, to_decimal, parse_u128,
}
use veilux_binary.Kernel.Hash.{Crates, Hash, commit, to_hex}
use veilux_binary.Kernel.Types.{PartyId}
use veilux_binary.Kernel.State.{StateTree, StateError, put_json, get_json, contains}
use veilux_binary.Kernel.Prism.{PrismError, limit_exceeded, not_found, internal, or_internal}
use veilux_binary.Token.Types.{TokenMeta, TokenSerde}

-- `.ok().flatten().and_then(|s| s.parse::<u128>().ok()).unwrap_or(0)`
unfoldable pub read_amount : Result StateError (Option Text) → ℕ
read_amount (err e) = 0
read_amount (ok none) = 0
read_amount (ok (some t)) = elim (parse_u128 t) [ none ↦ 0 | some n ↦ n ]

-- `.ok().flatten()`
unfoldable pub ok_flatten : {A : Type 0} → Result StateError (Option A) → Option A
ok_flatten (err e) = none
ok_flatten (ok o) = o

module _ (x : Crates) where
  unfoldable pub native_token_id : Hash
  native_token_id = commit x (lit "veilux/native-token") []

  unfoldable pub meta_key : Hash → Text
  meta_key id = lit "token/meta/" ++ to_hex x id

  unfoldable pub bal_key : Hash → PartyId → Text
  bal_key id who = lit "token/bal/" ++ (to_hex x id ++ (lit "/" ++ who))

  unfoldable pub allow_key : Hash → PartyId → PartyId → Text
  allow_key id owner spender =
      lit "token/allow/" ++ (to_hex x id ++ (lit "/" ++ (owner ++ (lit "/" ++ spender))))

module _ (x : Crates) (c : TokenSerde) where
  unfoldable pub balance : Hash → PartyId → StateTree → ℕ
  balance id who s = read_amount (get_json c.string (bal_key x id who) s)

  unfoldable pub set_balance : Hash → PartyId → ℕ → Action StateTree PrismError (Unit {0})
  set_balance id who v = or_internal (put_json c.string (bal_key x id who) (to_decimal v))

  unfoldable pub allowance : Hash → PartyId → PartyId → StateTree → ℕ
  allowance id owner spender s = read_amount (get_json c.string (allow_key x id owner spender) s)

  unfoldable pub set_allowance :
      Hash → PartyId → PartyId → ℕ → Action StateTree PrismError (Unit {0})
  set_allowance id owner spender v =
      or_internal (put_json c.string (allow_key x id owner spender) (to_decimal v))

  unfoldable pub token_meta : Hash → StateTree → Option TokenMeta
  token_meta id s = ok_flatten (get_json c.meta (meta_key x id) s)

  unfoldable pub put_meta : Hash → TokenMeta → Action StateTree PrismError (Unit {0})
  put_meta id meta = or_internal (put_json c.meta (meta_key x id) meta)

  unfoldable pub load_meta : Hash → Action StateTree PrismError TokenMeta
  load_meta id = do
    found ← or_internal (λ s. (get_json c.meta (meta_key x id) s, s))
    or_raise found (not_found (lit "token " ++ to_hex x id))

  -- `if let Some(mut meta) = token_meta(state, id)`, with the new supply from the old.
  unfoldable pub update_supply : Hash → (ℕ → ℕ) → Action StateTree PrismError (Unit {0})
  update_supply id f s = elim (token_meta id s) [
    | none ↦ (ok tt, s)
    | some meta ↦ put_meta id (record meta { total_supply = f meta.total_supply }) s
  ]

  unfoldable pub credit : Hash → PartyId → ℕ → Action StateTree PrismError (Unit {0})
  credit id who amount = do
    bal ← gets (balance id who)
    new_bal ← or_raise (checked_add bal amount) (internal (lit "balance overflow"))
    set_balance id who new_bal
    update_supply id (λ supply. saturating_add supply amount)

  unfoldable pub debit : Hash → PartyId → ℕ → Action StateTree PrismError (Unit {0})
  debit id who amount = do
    bal ← gets (balance id who)
    raise_if (ltb bal amount) (limit_exceeded (lit "insufficient balance"))
    set_balance id who (bal - amount)

  unfoldable pub move_balance :
      Hash → PartyId → PartyId → ℕ → Action StateTree PrismError (Unit {0})
  unfolding debit
  move_balance id from to amount = do
    debit id from amount
    to_bal ← gets (balance id to)
    new_bal ← or_raise (checked_add to_bal amount) (internal (lit "balance overflow"))
    set_balance id to new_bal

  unfoldable pub burn_from : Hash → PartyId → ℕ → Action StateTree PrismError (Unit {0})
  unfolding debit
  burn_from id who amount = do debit id who amount; update_supply id (λ supply. supply - amount)

pub record FeeOutcome : Type 0 where
  pub charged : ℕ
  pub burned : ℕ
  pub rewarded : ℕ

-- The release build wraps on overflow of the product.
unfoldable pub fee_burned : ℕ → ℕ → ℕ
fee_burned charged burn_bps = charged * min burn_bps 10000 % u128_mod / 10000

module _ (x : Crates) (c : TokenSerde) where
  -- `if rewarded > 0 { .. }`
  unfoldable pub pay_reward : Hash → PartyId → ℕ → Action StateTree PrismError (Unit {0})
  pay_reward id proposer rewarded =
      if ltb 0 rewarded
      then (do
        pbal ← gets (balance x c id proposer)
        new_bal ← or_raise (checked_add pbal rewarded) (internal (lit "reward overflow"))
        set_balance x c id proposer new_bal)
      else pure tt

  -- `if burned > 0 { .. }`
  unfoldable pub burn_part : Hash → ℕ → Action StateTree PrismError (Unit {0})
  burn_part id burned =
      if ltb 0 burned then update_supply x c id (λ supply. supply - burned) else pure tt

  unfoldable pub collect_fee :
      Hash → PartyId → PartyId → ℕ → ℕ → Action StateTree PrismError FeeOutcome
  collect_fee id payer proposer fee burn_bps = do
    bal ← gets (balance x c id payer)
    let charged = min fee bal
    let burned = fee_burned charged burn_bps
    let rewarded = charged - burned
    if charged == 0 then pure (record { charged = 0; burned = 0; rewarded = 0 }) else (do
      set_balance x c id payer (bal - charged)
      pay_reward id proposer rewarded
      burn_part id burned
      pure (record { charged = charged; burned = burned; rewarded = rewarded }))

  -- `allocations.iter().map(|(_, a)| *a).sum()`, which wraps in the release build.
  unfoldable pub sum_allocations : List (PartyId × ℕ) → ℕ
  sum_allocations [] = 0
  sum_allocations ((who, amount) ∷ rest) = (amount + sum_allocations rest) % u128_mod

  unfoldable pub allocate : Hash → List (PartyId × ℕ) → Action StateTree PrismError (Unit {0})
  allocate id [] = pure tt
  allocate id ((who, amount) ∷ rest) = do
    cur ← gets (balance x c id who)
    new_bal ← or_raise (checked_add cur amount) (internal (lit "allocation overflow"))
    set_balance x c id who new_bal
    allocate id rest

  unfoldable pub seed_native_token :
      Text → Text → ℕ → PartyId → List (PartyId × ℕ) → Action StateTree PrismError Hash
  unfolding allocate sum_allocations native_token_id
  seed_native_token name symbol decimals treasury allocations = do
    let id = native_token_id x
    seeded ← gets (contains (meta_key x id))
    if seeded then pure id else (do
      put_meta x c id (record {
        token_id = id;
        name = name;
        symbol = symbol;
        decimals = decimals;
        total_supply = sum_allocations allocations;
        owner = treasury;
        mintable = true;
      })
      allocate id allocations
      pure id)
