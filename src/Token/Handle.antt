-- ===== src/Token/Handle.antt =====
-- The commands of the token prism (prisms/token/src/lib.rs), one function for each arm of `handle`.
use veilux_binary.Base.{
  ℕ, ◌-◌, Bool, not, [], ◌∷◌, Text, lit, ok, err, Action, pure, gets, or_raise, raise_if, ◌>>=◌,
  ◌>>◌, ltb, checked_add,
}
use veilux_binary.Base.Order.{same, text_ord}
use veilux_binary.Kernel.Hash.{Crates, Hash, commit}
use veilux_binary.Kernel.Types.{PartyId, Command, Event, command_id}
use veilux_binary.Kernel.Serde.{to_vec_or_default}
use veilux_binary.Kernel.State.{StateTree, contains}
use veilux_binary.Kernel.Prism.{
  Prism, PrismError, PrismOutput, invalid_payload, unauthorized, limit_exceeded, internal, single,
}
use veilux_binary.Token.Types.{
  TokenCommand, TokenEvent, TokenSerde, create, transfer, approve, transfer_from, mint, burn,
  created, transferred, approval, minted, burned,
}
use veilux_binary.Token.Store.{
  meta_key, balance, set_balance, allowance, set_allowance, load_meta, put_meta,
}

module _ (x : Crates) (c : TokenSerde) where
  unfoldable pub event : Command → TokenEvent → Event
  event cmd payload = record {
    source_command = command_id x cmd;
    prism = lit "token";
    visibility = cmd.visibility;
    payload = to_vec_or_default c.event payload;
  }

  unfoldable pub handle_create :
      Command → Text → Text → ℕ → ℕ → Bool → Action StateTree PrismError PrismOutput
  handle_create cmd name symbol decimals initial_supply mintable = do
    let token_id = commit x (lit "token/id") (cmd.submitter ∷ symbol ∷ name ∷ [])
    exists ← gets (contains (meta_key x token_id))
    raise_if exists (invalid_payload (lit "token already exists"))
    put_meta x c token_id (record {
      token_id = token_id;
      name = name;
      symbol = symbol;
      decimals = decimals;
      total_supply = initial_supply;
      owner = cmd.submitter;
      mintable = mintable;
    })
    set_balance x c token_id cmd.submitter initial_supply
    pure (single (event cmd (created token_id symbol initial_supply)) 5000)

  unfoldable pub handle_transfer :
      Command → Hash → PartyId → ℕ → Action StateTree PrismError PrismOutput
  handle_transfer cmd token_id to amount = do
    load_meta x c token_id
    from_bal ← gets (balance x c token_id cmd.submitter)
    raise_if (ltb from_bal amount) (limit_exceeded (lit "insufficient balance"))
    to_bal ← gets (balance x c token_id to)
    set_balance x c token_id cmd.submitter (from_bal - amount)
    new_bal ← or_raise (checked_add to_bal amount) (internal (lit "balance overflow"))
    set_balance x c token_id to new_bal
    pure (single (event cmd (transferred token_id cmd.submitter to amount)) 1000)

  unfoldable pub handle_approve :
      Command → Hash → PartyId → ℕ → Action StateTree PrismError PrismOutput
  handle_approve cmd token_id spender amount = do
    load_meta x c token_id
    set_allowance x c token_id cmd.submitter spender amount
    pure (single (event cmd (approval token_id cmd.submitter spender amount)) 800)

  unfoldable pub handle_transfer_from :
      Command → Hash → PartyId → PartyId → ℕ → Action StateTree PrismError PrismOutput
  handle_transfer_from cmd token_id from to amount = do
    load_meta x c token_id
    allowed ← gets (allowance x c token_id from cmd.submitter)
    raise_if (ltb allowed amount) (unauthorized (lit "allowance exceeded"))
    from_bal ← gets (balance x c token_id from)
    raise_if (ltb from_bal amount) (limit_exceeded (lit "insufficient balance"))
    to_bal ← gets (balance x c token_id to)
    set_balance x c token_id from (from_bal - amount)
    new_bal ← or_raise (checked_add to_bal amount) (internal (lit "balance overflow"))
    set_balance x c token_id to new_bal
    set_allowance x c token_id from cmd.submitter (allowed - amount)
    pure (single (event cmd (transferred token_id from to amount)) 1200)

  unfoldable pub handle_mint :
      Command → Hash → PartyId → ℕ → Action StateTree PrismError PrismOutput
  handle_mint cmd token_id to amount = do
    meta ← load_meta x c token_id
    raise_if (not meta.mintable) (unauthorized (lit "token not mintable"))
    raise_if (not (same meta.owner cmd.submitter)) (unauthorized (lit "only owner can mint"))
    to_bal ← gets (balance x c token_id to)
    new_bal ← or_raise (checked_add to_bal amount) (internal (lit "balance overflow"))
    set_balance x c token_id to new_bal
    supply ← or_raise (checked_add meta.total_supply amount) (internal (lit "supply overflow"))
    put_meta x c token_id (record meta { total_supply = supply })
    pure (single (event cmd (minted token_id to amount)) 2000)

  unfoldable pub handle_burn : Command → Hash → ℕ → Action StateTree PrismError PrismOutput
  handle_burn cmd token_id amount = do
    meta ← load_meta x c token_id
    bal ← gets (balance x c token_id cmd.submitter)
    raise_if (ltb bal amount) (limit_exceeded (lit "insufficient balance to burn"))
    set_balance x c token_id cmd.submitter (bal - amount)
    put_meta x c token_id (record meta { total_supply = meta.total_supply - amount })
    pure (single (event cmd (burned token_id cmd.submitter amount)) 1500)

  unfoldable pub dispatch : Command → TokenCommand → Action StateTree PrismError PrismOutput
  dispatch cmd (create name symbol decimals initial_supply mintable) =
      handle_create cmd name symbol decimals initial_supply mintable
  dispatch cmd (transfer token_id to amount) = handle_transfer cmd token_id to amount
  dispatch cmd (approve token_id spender amount) = handle_approve cmd token_id spender amount
  dispatch cmd (transfer_from token_id from to amount) =
      handle_transfer_from cmd token_id from to amount
  dispatch cmd (mint token_id to amount) = handle_mint cmd token_id to amount
  dispatch cmd (burn token_id amount) = handle_burn cmd token_id amount

  unfoldable pub handle : Command → Action StateTree PrismError PrismOutput
  unfolding dispatch
  handle command s = elim (c.command.from_slice command.payload) [
    | ok cmd ↦ dispatch command cmd s
    | err e ↦ (err (invalid_payload e), s)
  ]

  unfoldable pub estimate : Command → StateTree → ℕ
  estimate command state = elim (c.command.from_slice command.payload) [
    | ok (create name symbol decimals initial_supply mintable) ↦ 5000
    | ok other ↦ 1200
    | err e ↦ 1000
  ]

  unfoldable pub token_prism : Prism
  token_prism = record {
    info = record {
      name = lit "token";
      description = lit "Fungible tokens with transfer, approve, mint and burn";
      version = lit "1.0";
    };
    handle = handle;
    estimate = estimate;
  }
