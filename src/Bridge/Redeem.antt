-- ===== src/Bridge/Redeem.antt =====
-- The value that a redeemed transfer brings (prisms/bridge/src/lib.rs).
use veilux_binary.Base.{
  ℕ, ◌+◌, ◌%◌, ◌≤◌, ◌<◌, ◌≡◌, refl, ap, sym, ◌∙◌, ◌⊎◌, false, ◌&&◌, List, ◌++◌, Text, lit, Result,
  ok, err, Result-cases, arith, Bool-cases, inl, inr, ltb, ◌==◌, if◌then◌else◌, checked_add,
  u64_mod, u128_mod, to_decimal,
}
use veilux_binary.Base.Order.{same, same_eq, text_ord, text_cmp}
use veilux_binary.Kernel.Hash.{Crates, Hash}
use veilux_binary.Kernel.Types.{PartyId, Command}
use veilux_binary.Kernel.State.{StateTree, put, get_json}
use veilux_binary.Kernel.State.Laws.{get_json-put, get_json-put_other}
use veilux_binary.Kernel.Prism.{
  PrismError, PrismOutput, invalid_payload, internal, or_internal, single,
}
use veilux_binary.Kernel.Prism.Laws.{or_internal-put_json}
use veilux_binary.Token.Store.{ok_flatten, balance, bal_key, read_amount}
use veilux_binary.Token.Keys.{HexLaws}
use veilux_binary.Token.Balances.{with_balance, set_balance-eq, balance-with_balance}
use veilux_binary.Bridge.Types.{
  ForeignChain, as_u16, cosmos, solana, ethereum, custom, BridgeConfig, config_key, InboundTransfer,
  GuardianSignature, inbound_digest, BridgeSerde, BridgeRoundTrips, inbound_redeemed,
}
use veilux_binary.Bridge.Quorum.{Signatures, verify_quorum, verify_quorum-IsAttested, IsAttested}
use veilux_binary.Bridge.Handle.{seq_key, or_zero, load_config, read_seq, event, handle_redeem}

-- The keys of the bridge are not those of balances, of sequences not those of configurations.
seq_key-bal_key :
    (x : Crates) (id : Hash) (who : PartyId) (chain : ForeignChain)
    → same (bal_key x id who) (seq_key chain) ≡ false
unfolding bal_key seq_key lit text_cmp
seq_key-bal_key x id who chain = refl

bal_key-seq_key :
    (x : Crates) (id : Hash) (who : PartyId) (chain : ForeignChain)
    → same (seq_key chain) (bal_key x id who) ≡ false
unfolding bal_key seq_key lit text_cmp
bal_key-seq_key x id who chain = refl

config_key-others :
    (x : Crates) (id : Hash) (who : PartyId) (chain other : ForeignChain)
    → (same (config_key chain) (bal_key x id who) ≡ false)
      × (same (config_key chain) (seq_key other) ≡ false)
unfolding bal_key seq_key config_key lit text_cmp
config_key-others x id who chain other = (refl, refl)

same-seq_key : (a b : ForeignChain) → same (seq_key a) (seq_key b) ≡ (as_u16 a == as_u16 b)
unfolding seq_key as_u16 lit text_cmp to_decimal
same-seq_key cosmos cosmos = refl
same-seq_key cosmos solana = refl
same-seq_key cosmos ethereum = refl
same-seq_key cosmos custom = refl
same-seq_key solana cosmos = refl
same-seq_key solana solana = refl
same-seq_key solana ethereum = refl
same-seq_key solana custom = refl
same-seq_key ethereum cosmos = refl
same-seq_key ethereum solana = refl
same-seq_key ethereum ethereum = refl
same-seq_key ethereum custom = refl
same-seq_key custom cosmos = refl
same-seq_key custom solana = refl
same-seq_key custom ethereum = refl
same-seq_key custom custom = refl

module _ (x : Crates) (laws : HexLaws x) (v : Signatures) (c : BridgeSerde)
    (r : BridgeRoundTrips c) where
  unfoldable pub config_of : ForeignChain → StateTree → Result PrismError BridgeConfig
  config_of chain s = (load_config x v c chain s).0

  -- The state after the redemption of a transfer.
  unfoldable pub redeemed : InboundTransfer → StateTree → StateTree
  redeemed t s = put (seq_key t.chain) (r.number.bytes ((t.sequence + 1) % u64_mod)) (
      with_balance x laws c.token r.token t.token_id t.recipient
        (balance x c.token t.token_id t.recipient s + t.amount) s)

  abbrev bad_sequence : InboundTransfer → StateTree → PrismError
  bad_sequence t s = invalid_payload (
      lit "bad inbound sequence: got "
      ++ (to_decimal t.sequence
          ++ (lit ", expected " ++ to_decimal (read_seq x v c (seq_key t.chain) s))))

  load_config-state :
      (chain : ForeignChain) (s : StateTree) → load_config x v c chain s ≡ (config_of chain s, s)
  unfolding load_config config_of or_internal
  load_config-state chain s = ground arith

  -- A redemption that is accepted, and how it ends.
  pub record IsRedeemed (cmd : Command) (t : InboundTransfer) (sigs : List GuardianSignature)
      (s : StateTree) : Type 0 where
    pub config : BridgeConfig
    pub verified : ℕ
    pub configured : config_of t.chain s ≡ ok config
    pub next : t.sequence ≡ read_seq x v c (seq_key t.chain) s
    pub signed : verify_quorum v config (inbound_digest x t) sigs ≡ ok verified
    pub fits : balance x c.token t.token_id t.recipient s + t.amount < u128_mod
    pub ends : handle_redeem x v c cmd t sigs s ≡ (
      ok (
          single
            (event x v c cmd
              (inbound_redeemed t.chain t.sequence t.recipient t.token_id t.amount verified))
            8000),
      redeemed t s,
    )

  pub handle_redeem-cases :
      (cmd : Command) (t : InboundTransfer) (sigs : List GuardianSignature) (s : StateTree)
      → IsRedeemed cmd t sigs s
        ⊎ ((e : PrismError) × (handle_redeem x v c cmd t sigs s ≡ (err e, s)))
  unfolding handle_redeem redeemed checked_add
  handle_redeem-cases cmd t sigs s =
      let chain = t.chain in
      let bal = balance x c.token t.token_id t.recipient s in
      elim (Result-cases (config_of chain s)) [
        | inr (e, q) ↦ inr (e, ground (arith, load_config-state chain s))
        | inl (config, q) ↦ elim (Bool-cases (t.sequence == read_seq x v c (seq_key chain) s)) [
          | inr n ↦ inr (bad_sequence t s, ground (arith, load_config-state chain s))
          | inl y ↦ elim (Result-cases (verify_quorum v config (inbound_digest x t) sigs)) [
            | inr (e, a) ↦ inr (e, ground (arith, load_config-state chain s))
            | inl (n, a) ↦ elim (Bool-cases (ltb (bal + t.amount) u128_mod)) [
              | inr z ↦
                  inr (internal (lit "balance overflow"), ground (arith, load_config-state chain s))
              | inl z ↦ inl (record {
                config = config;
                verified = n;
                configured = q;
                next = ground arith;
                signed = a;
                fits = ground arith;
                ends = ground (
                  arith,
                  load_config-state chain s,
                  set_balance-eq x laws c.token r.token t.token_id t.recipient (bal + t.amount) s,
                  or_internal-put_json c.number r.number (seq_key chain)
                      ((t.sequence + 1) % u64_mod)
                      (with_balance x laws c.token r.token t.token_id t.recipient (bal + t.amount)
                        s),
                );
              })
            ]
          ]
        ]
      ]

  balance-put_seq :
      (chain : ForeignChain) (bytes : Text) (s : StateTree) (id : Hash) (who : PartyId)
      → balance x c.token id who (put (seq_key chain) bytes s) ≡ balance x c.token id who s
  unfolding balance
  balance-put_seq chain bytes s id who = ap read_amount (
      get_json-put_other c.token.string (seq_key chain) (bal_key x id who) bytes s
        (seq_key-bal_key x id who chain))

  seq-with_balance :
      (chain : ForeignChain) (id : Hash) (who : PartyId) (n : ℕ) (s : StateTree)
      → get_json c.number (seq_key chain) (with_balance x laws c.token r.token id who n s)
        ≡ get_json c.number (seq_key chain) s
  unfolding with_balance
  seq-with_balance chain id who n s =
      get_json-put_other c.number (bal_key x id who) (seq_key chain) _ s
        (bal_key-seq_key x id who chain)

  balance-redeemed :
      (t : InboundTransfer) (s : StateTree) (id : Hash) (who : PartyId)
      → balance x c.token t.token_id t.recipient s + t.amount < u128_mod
      → balance x c.token id who (redeemed t s) ≡ (
          if same id t.token_id && same who t.recipient
          then balance x c.token id who s + t.amount
          else balance x c.token id who s)
  unfolding redeemed
  balance-redeemed t s id who fits =
      let new_bal = balance x c.token t.token_id t.recipient s + t.amount in
      let paid = with_balance x laws c.token r.token t.token_id t.recipient new_bal s in
      balance-put_seq t.chain (r.number.bytes ((t.sequence + 1) % u64_mod)) paid id who
      ∙ ground (
        arith,
        balance-with_balance x laws c.token r.token t.token_id id t.recipient who new_bal s fits,
        same_eq id t.token_id,
        same_eq who t.recipient,
      )

  pub read_seq-redeemed :
      (t : InboundTransfer) (s : StateTree) (chain : ForeignChain)
      → read_seq x v c (seq_key chain) (redeemed t s) ≡ (
          if as_u16 chain == as_u16 t.chain
          then (t.sequence + 1) % u64_mod
          else read_seq x v c (seq_key chain) s)
  unfolding redeemed read_seq ok_flatten or_zero
  read_seq-redeemed t s chain =
      let paid =
        with_balance x laws c.token r.token t.token_id t.recipient
          (balance x c.token t.token_id t.recipient s + t.amount) s in
      ground (
        arith,
        get_json-put c.number r.number (seq_key t.chain) (seq_key chain)
            ((t.sequence + 1) % u64_mod) paid,
        same-seq_key chain t.chain,
        seq-with_balance chain t.token_id t.recipient
            (balance x c.token t.token_id t.recipient s + t.amount) s,
      )

  -- A redemption is accepted only with a quorum of distinct guardians of the chain who signed the
  -- transfer; it then pays the recipient exactly the amount, changes no other balance, and moves
  -- the chain's sequence from the transfer's to the next. Else it changes nothing.
  pub handle_redeem_pays :
      (cmd : Command) (t : InboundTransfer) (sigs : List GuardianSignature) (s s' : StateTree)
      (out : Result PrismError PrismOutput)
      → handle_redeem x v c cmd t sigs s ≡ (out, s')
      → ((config : BridgeConfig) × (n : ℕ) × (keys : List Text) × (config_of t.chain s ≡ ok config)
          × (config.quorum ≤ n)
          × IsAttested v config.guardians (inbound_digest x t) sigs n keys
          × (t.sequence ≡ read_seq x v c (seq_key t.chain) s)
          × ((chain : ForeignChain)
              → read_seq x v c (seq_key chain) s' ≡ (
                  if as_u16 chain == as_u16 t.chain
                  then (t.sequence + 1) % u64_mod
                  else read_seq x v c (seq_key chain) s))
          × ((id : Hash) (who : PartyId)
              → balance x c.token id who s' ≡ (
                  if same id t.token_id && same who t.recipient
                  then balance x c.token id who s + t.amount
                  else balance x c.token id who s)))
        ⊎ (((e : PrismError) × (out ≡ err e)) × (s' ≡ s))
  handle_redeem_pays cmd t sigs s s' out h = elim (handle_redeem-cases cmd t sigs s) [
    | inr (e, q) ↦ inr ((e, ap (λ p. p.0) (sym h ∙ q)), ap (λ p. p.1) (sym h ∙ q))
    | inl a ↦
        let seen =
          verify_quorum-IsAttested v a.config (inbound_digest x t) sigs a.verified a.signed in
        let after : s' ≡ redeemed t s = ap (λ p. p.1) (sym h ∙ a.ends) in
        inl (
          a.config,
          a.verified,
          seen.1.0,
          a.configured,
          seen.0,
          seen.1.1,
          a.next,
          λ chain. rw (after) (read_seq-redeemed t s chain),
          λ id who. rw (after) (balance-redeemed t s id who a.fits),
        )
  ]
