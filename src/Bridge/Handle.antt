-- ===== src/Bridge/Handle.antt =====
-- The commands of the bridge prism (prisms/bridge/src/lib.rs), one function for each arm.
use veilux_binary.Base.{
  ℕ, ◌+◌, ◌-◌, ◌%◌, Bool, false, not, ◌||◌, Option, none, some, List, ◌++◌, Text, lit, ok, err,
  Action, length, pure, gets, or_raise, raise_if, lift, ◌>>=◌, ◌>>◌, ltb, ◌==◌, to_decimal,
  checked_add, u64_mod,
}
use veilux_binary.Base.Order.{same, text_ord}
use veilux_binary.Kernel.Hash.{Crates, Hash}
use veilux_binary.Kernel.Types.{PartyId, Command, Event, command_id}
use veilux_binary.Kernel.Serde.{to_vec_or_default}
use veilux_binary.Kernel.State.{StateTree, get_json, put_json}
use veilux_binary.Kernel.Prism.{
  Prism, PrismError, PrismOutput, invalid_payload, unauthorized, limit_exceeded, not_found,
  internal, or_internal, single,
}
use veilux_binary.Token.Store.{ok_flatten, balance, set_balance}
use veilux_binary.Bridge.Types.{
  ForeignChain, as_u16, BridgeConfig, config_key, InboundTransfer, GuardianSignature,
  outbound_digest, inbound_digest, BridgeCommand, BridgeEvent, BridgeSerde, register_chain, send,
  redeem, chain_registered, outbound_locked, inbound_redeemed,
}
use veilux_binary.Bridge.Quorum.{Signatures, verify_quorum}

unfoldable pub seq_key : ForeignChain → Text
seq_key chain = lit "bridge/seq/" ++ to_decimal (as_u16 chain)

unfoldable pub out_seq_key : ForeignChain → Text
out_seq_key chain = lit "bridge/outseq/" ++ to_decimal (as_u16 chain)

-- `unwrap_or(0)`
unfoldable pub or_zero : Option ℕ → ℕ
or_zero none = 0
or_zero (some n) = n

module _ (x : Crates) (v : Signatures) (c : BridgeSerde) where
  -- `get_balance` and `set_balance` of the source are copies of the token prism's.
  abbrev get_balance : Hash → PartyId → StateTree → ℕ
  get_balance = balance x c.token

  unfoldable pub load_config : ForeignChain → Action StateTree PrismError BridgeConfig
  load_config chain = do
    found ← or_internal (λ s. (get_json c.config (config_key chain) s, s))
    or_raise found (not_found (lit "bridge for chain " ++ to_decimal (as_u16 chain)))

  unfoldable pub event : Command → BridgeEvent → Event
  event cmd payload = record {
    source_command = command_id x cmd;
    prism = lit "bridge";
    visibility = cmd.visibility;
    payload = to_vec_or_default c.event payload;
  }

  unfoldable pub read_seq : Text → StateTree → ℕ
  read_seq key s = or_zero (ok_flatten (get_json c.number key s))

  -- `if let Ok(Some(existing)) = ..` and the check of its admin.
  unfoldable pub is_stranger : ForeignChain → PartyId → StateTree → Bool
  is_stranger chain who s = elim (ok_flatten (get_json c.config (config_key chain) s)) [
    | none ↦ false
    | some existing ↦ not (same existing.admin who)
  ]

  unfoldable pub handle_register_chain :
      Command → ForeignChain → List Text → ℕ → Action StateTree PrismError PrismOutput
  handle_register_chain cmd chain guardians quorum = do
    raise_if (quorum == 0 || ltb (length guardians) quorum)
        (invalid_payload (lit "quorum must be in 1..=guardians.len()"))
    stranger ← gets (is_stranger chain cmd.submitter)
    raise_if stranger (unauthorized (lit "only bridge admin may update"))
    or_internal (
        put_json c.config (config_key chain)
          (record { chain = chain; guardians = guardians; quorum = quorum; admin = cmd.submitter }))
    pure (single (event cmd (chain_registered chain (length guardians) quorum)) 5000)

  -- The release build counts the sequence without an overflow check.
  unfoldable pub handle_send :
      Command → ForeignChain → Text → Hash → ℕ → Action StateTree PrismError PrismOutput
  handle_send cmd chain recipient token_id amount = do
    load_config chain
    bal ← gets (get_balance token_id cmd.submitter)
    raise_if (ltb bal amount) (limit_exceeded (lit "insufficient balance to bridge"))
    set_balance x c.token token_id cmd.submitter (bal - amount)
    seq ← gets (read_seq (out_seq_key chain))
    or_internal (put_json c.number (out_seq_key chain) ((seq + 1) % u64_mod))
    let digest = outbound_digest x (record {
      sequence = seq;
      chain = chain;
      sender = cmd.submitter;
      recipient = recipient;
      token_id = token_id;
      amount = amount;
    })
    pure (single (event cmd (outbound_locked seq chain recipient token_id amount digest)) 3000)

  unfoldable pub handle_redeem :
      Command → InboundTransfer → List GuardianSignature → Action StateTree PrismError PrismOutput
  handle_redeem cmd transfer signatures = do
    config ← load_config transfer.chain
    expected ← gets (read_seq (seq_key transfer.chain))
    raise_if (not (transfer.sequence == expected)) (
        invalid_payload (
          lit "bad inbound sequence: got "
          ++ (to_decimal transfer.sequence ++ (lit ", expected " ++ to_decimal expected))))
    verified ← lift (verify_quorum v config (inbound_digest x transfer) signatures)
    bal ← gets (get_balance transfer.token_id transfer.recipient)
    new_bal ← or_raise (checked_add bal transfer.amount) (internal (lit "balance overflow"))
    set_balance x c.token transfer.token_id transfer.recipient new_bal
    or_internal (put_json c.number (seq_key transfer.chain) ((expected + 1) % u64_mod))
    pure (
        single
          (event cmd (
            inbound_redeemed transfer.chain transfer.sequence transfer.recipient transfer.token_id
              transfer.amount verified))
          8000)

  unfoldable pub dispatch : Command → BridgeCommand → Action StateTree PrismError PrismOutput
  dispatch cmd (register_chain chain guardians quorum) =
      handle_register_chain cmd chain guardians quorum
  dispatch cmd (send chain recipient token_id amount) =
      handle_send cmd chain recipient token_id amount
  dispatch cmd (redeem transfer signatures) = handle_redeem cmd transfer signatures

  unfoldable pub handle : Command → Action StateTree PrismError PrismOutput
  handle command s = elim (c.command.from_slice command.payload) [
    | ok cmd ↦ dispatch command cmd s
    | err e ↦ (err (invalid_payload e), s)
  ]

  unfoldable pub estimate : Command → StateTree → ℕ
  estimate command state = elim (c.command.from_slice command.payload) [
    | ok (register_chain chain guardians quorum) ↦ 5000
    | ok (send chain recipient token_id amount) ↦ 3000
    | ok (redeem transfer signatures) ↦ 8000
    | err e ↦ 1000
  ]

  unfoldable pub bridge_prism : Prism
  bridge_prism = record {
    info = record {
      name = lit "bridge";
      description = lit "Guardian-attested cross-chain transfers (Cosmos, Solana, EVM)";
      version = lit "1.0";
    };
    handle = handle;
    estimate = estimate;
  }
