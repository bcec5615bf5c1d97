-- ===== src/Multisig/Handle.antt =====
-- The commands of the multisig prism (prisms/multisig/src/lib.rs), one function for each arm.
use veilux_binary.Base.{
  ℕ, ◌+◌, ◌%◌, ◌^◌, true, not, ◌||◌, Option, List, [], ◌∷◌, ◌++◌, Text, lit, ok, err, Action,
  length, pure, gets, or_raise, raise_if, ◌>>=◌, ◌>>◌, ltb, leb, ◌==◌, if◌then◌else◌, to_decimal,
  u64_mod,
}
use veilux_binary.Base.Order.{text_ord}
use veilux_binary.Base.Map as Entries
use veilux_binary.Base.Map.{Map}
use veilux_binary.Kernel.Hash.{Crates, Hash, commit, to_hex, be_bytes}
use veilux_binary.Kernel.Types.{PartyId, Command, Event, command_id, contains}
use veilux_binary.Kernel.Serde.{to_vec_or_default}
use veilux_binary.Kernel.State.{StateTree, get_json, put_json}
use veilux_binary.Kernel.State as Tree
use veilux_binary.Kernel.Prism.{
  Prism, PrismError, PrismOutput, invalid_payload, unauthorized, not_found, or_internal, single,
}
use veilux_binary.Token.Store.{ok_flatten}
use veilux_binary.Multisig.Types.{
  MultisigAccount, PendingTx, MultisigCommand, MultisigSerde, MultisigEvent, max_owners,
  create_account, propose, confirm, revoke, account_created, was_proposed, was_confirmed,
  was_revoked, was_executed,
}

abbrev pub u32_mod : ℕ
u32_mod = 2 ^ 32

unfoldable pub acc_key : Crates → Hash → Text
acc_key x id = lit "multisig/acc/" ++ to_hex x id

unfoldable pub tx_key : Crates → Hash → ℕ → Text
tx_key x account seq = lit "multisig/tx/" ++ (to_hex x account ++ (lit "/" ++ to_decimal seq))

-- The loop that builds `unique`.
unfoldable pub push_unique : List PartyId → List PartyId → List PartyId
unfolding contains
push_unique unique [] = unique
push_unique unique (o ∷ owners) =
    push_unique (if not (contains unique o) then unique ++ (o ∷ []) else unique) owners

-- `join(",")`
unfoldable pub join : List PartyId → Text
join [] = []
join (p ∷ []) = p
join (p ∷ q ∷ rest) = p ++ (lit "," ++ join (q ∷ rest))

module _ (x : Crates) (c : MultisigSerde) where
  unfoldable pub load_account : Hash → Action StateTree PrismError MultisigAccount
  load_account id = do
    found ← or_internal (λ s. (get_json c.account (acc_key x id) s, s))
    or_raise found (not_found (lit "multisig account " ++ to_hex x id))

  unfoldable pub load_tx : Hash → ℕ → Action StateTree PrismError PendingTx
  load_tx account seq = do
    found ← or_internal (λ s. (get_json c.pending (tx_key x account seq) s, s))
    or_raise found (not_found (lit "multisig tx " ++ to_decimal seq))

  unfoldable pub event : Command → MultisigEvent → Event
  event cmd payload = record {
    source_command = command_id x cmd;
    prism = lit "multisig";
    visibility = cmd.visibility;
    payload = to_vec_or_default c.event payload;
  }

  unfoldable pub account_hash : PartyId → ℕ → List PartyId → Hash
  account_hash caller threshold unique =
      commit x (lit "multisig/acc-id") (caller ∷ be_bytes 4 threshold ∷ join unique ∷ [])

  unfoldable pub handle_create_account :
      Command → List PartyId → ℕ → Action StateTree PrismError PrismOutput
  handle_create_account cmd owners threshold = do
    let unique = push_unique [] owners
    raise_if (length unique == 0 || ltb max_owners (length unique))
        (invalid_payload (lit "owners must be 1..=64 distinct parties"))
    raise_if (threshold == 0 || ltb (length unique) threshold)
        (invalid_payload (lit "threshold must be 1..=owners"))
    let id = account_hash cmd.submitter threshold unique
    exists ← gets (Tree.contains (acc_key x id))
    raise_if exists (invalid_payload (lit "account already exists"))
    or_internal (
        put_json c.account (acc_key x id)
          (record { id = id; owners = unique; threshold = threshold; nonce = 0 }))
    pure (single (event cmd (account_created id threshold (length unique))) 4000)

  -- The release build counts the nonce without an overflow check.
  unfoldable pub handle_propose : Command → Hash → Command → Action StateTree PrismError PrismOutput
  handle_propose cmd account inner = do
    acc ← load_account account
    raise_if (not (contains acc.owners cmd.submitter)) (unauthorized (lit "not an account owner"))
    let seq = acc.nonce
    let reached = leb acc.threshold 1
    or_internal
        (put_json c.account (acc_key x account) (record acc { nonce = (acc.nonce + 1) % u64_mod }))
    or_internal (
        put_json c.pending (tx_key x account seq) (record {
          account = account;
          seq = seq;
          inner = inner;
          confirmations = Entries.insert cmd.submitter tt [];
          executed = reached;
        }))
    let proposed = event cmd (was_proposed account seq cmd.submitter)
    pure (record {
      events =
          if reached then proposed ∷ event cmd (was_executed account seq) ∷ [] else proposed ∷ [];
      derived_commands = if reached then inner ∷ [] else [];
      cost = 3000;
    })

  unfoldable pub handle_confirm : Command → Hash → ℕ → Action StateTree PrismError PrismOutput
  handle_confirm cmd account seq = do
    acc ← load_account account
    raise_if (not (contains acc.owners cmd.submitter)) (unauthorized (lit "not an account owner"))
    pending ← load_tx account seq
    raise_if pending.executed (invalid_payload (lit "tx already executed"))
    let confirmations = Entries.insert cmd.submitter tt pending.confirmations
    let count = length confirmations % u32_mod
    let reached = leb acc.threshold count
    or_internal (
        put_json c.pending (tx_key x account seq) (record pending {
          confirmations = confirmations;
          executed = if reached then true else pending.executed;
        }))
    let confirmed = event cmd (was_confirmed account seq cmd.submitter count)
    pure (record {
      events =
          if reached then confirmed ∷ event cmd (was_executed account seq) ∷ [] else confirmed ∷ [];
      derived_commands = if reached then pending.inner ∷ [] else [];
      cost = 1500;
    })

  unfoldable pub handle_revoke : Command → Hash → ℕ → Action StateTree PrismError PrismOutput
  handle_revoke cmd account seq = do
    acc ← load_account account
    raise_if (not (contains acc.owners cmd.submitter)) (unauthorized (lit "not an account owner"))
    pending ← load_tx account seq
    raise_if pending.executed (invalid_payload (lit "cannot revoke an executed tx"))
    or_internal (
        put_json c.pending (tx_key x account seq)
          (record pending { confirmations = Entries.remove cmd.submitter pending.confirmations }))
    pure (single (event cmd (was_revoked account seq cmd.submitter)) 800)

  unfoldable pub dispatch : Command → MultisigCommand → Action StateTree PrismError PrismOutput
  dispatch cmd (create_account owners threshold) = handle_create_account cmd owners threshold
  dispatch cmd (propose account inner) = handle_propose cmd account inner
  dispatch cmd (confirm account seq) = handle_confirm cmd account seq
  dispatch cmd (revoke account seq) = handle_revoke cmd account seq

  unfoldable pub handle : Command → Action StateTree PrismError PrismOutput
  handle command s = elim (c.command.from_slice command.payload) [
    | ok cmd ↦ dispatch command cmd s
    | err e ↦ (err (invalid_payload e), s)
  ]

  unfoldable pub estimate : Command → StateTree → ℕ
  estimate command state = elim (c.command.from_slice command.payload) [
    | ok (create_account owners threshold) ↦ 4000
    | ok (propose account inner) ↦ 3000
    | ok (confirm account seq) ↦ 1500
    | ok other ↦ 800
    | err e ↦ 1000
  ]

  unfoldable pub multisig_prism : Prism
  multisig_prism = record {
    info = record {
      name = lit "multisig";
      description = lit "M-of-N shared accounts: propose, confirm and execute commands";
      version = lit "1.0";
    };
    handle = handle;
    estimate = estimate;
  }

  unfoldable pub account_id : StateTree → Hash → Option MultisigAccount
  account_id s id = ok_flatten (get_json c.account (acc_key x id) s)

  unfoldable pub pending_tx : StateTree → Hash → ℕ → Option PendingTx
  pending_tx s account seq = ok_flatten (get_json c.pending (tx_key x account seq) s)
