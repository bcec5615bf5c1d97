-- ===== src/Multisig/Accounts.antt =====
-- The creation of accounts and of pending transactions (prisms/multisig/src/lib.rs).
use veilux_binary.Base.{
  ℕ, ◌+◌, ◌%◌, ◌≤◌, ◌≡◌, refl, ap, sym, ◌∙◌, Bool, true, false, not, ◌||◌, some, List, [], ◌∷◌,
  ◌++◌, lit, Result, ok, err, length, arith, Bool-cases, inl, inr, ltb, leb, ◌==◌, if◌then◌else◌,
  u64_mod,
}
use veilux_binary.Base.Order.{text_ord}
use veilux_binary.Base.Map as Entries
use veilux_binary.Kernel.Hash.{Crates, Hash}
use veilux_binary.Kernel.Types.{PartyId, Command, contains, IsDistinct}
use veilux_binary.Kernel.Types.Distinct.{append-IsDistinct}
use veilux_binary.Kernel.State.{StateTree, put}
use veilux_binary.Kernel.State as Tree
use veilux_binary.Kernel.State.Laws.{get_json-put_self}
use veilux_binary.Kernel.Prism.{PrismOutput, single, invalid_payload}
use veilux_binary.Kernel.Prism.Laws.{or_internal-put_json}
use veilux_binary.Token.Store.{ok_flatten}
use veilux_binary.Multisig.Types.{
  MultisigAccount, PendingTx, MultisigSerde, MultisigRoundTrips, max_owners, account_created,
  was_proposed, was_executed,
}
use veilux_binary.Multisig.Handle.{
  acc_key, tx_key, push_unique, account_hash, event, handle_create_account, handle_propose,
  account_id, pending_tx,
}
use veilux_binary.Multisig.Votes.{
  IsPending, with_tx, load_account-some, pending_tx-with_tx, account_id-with_tx,
}

-- An account that `create` stores: its owners are distinct, at least one and at most 64, and the
-- threshold can be reached and is not zero.
pub record IsAccount (acc : MultisigAccount) : Type 0 where
  pub distinct : IsDistinct acc.owners
  pub few : length acc.owners ≤ max_owners
  pub positive : 1 ≤ acc.threshold
  pub reachable : acc.threshold ≤ length acc.owners

pushed-IsDistinct :
    (unique : List PartyId) (o : PartyId)
    → IsDistinct unique
    → IsDistinct (if not (contains unique o) then unique ++ (o ∷ []) else unique)
pushed-IsDistinct unique o d = elim (Bool-cases (contains unique o)) [
  | inl y ↦ rw (y) d
  | inr n ↦ rw (n) (append-IsDistinct unique o d n)
]

-- Three guards that let a result through.
guards_passed :
    {A E : Type 0} (b b' b'' : Bool) (e e' e'' : E) (out out' : A) (s t s' : StateTree)
    → Path
        (Result E A × StateTree)
        (if b
          then (err e, s)
          else if b'
          then (err e', s)
          else if b''
          then (err e'', s)
          else (ok out, t))
        (ok out', s')
    → (b ≡ false) × (b' ≡ false) × (b'' ≡ false) × (s' ≡ t)
guards_passed true b' b'' e e' e'' out out' s t s' h = absurd (cc)
guards_passed false true b'' e e' e'' out out' s t s' h = absurd (cc)
guards_passed false false true e e' e'' out out' s t s' h = absurd (cc)
guards_passed false false false e e' e'' out out' s t s' h =
    (refl, refl, refl, sym (ap (λ p. p.1) h))

pub push_unique-IsDistinct :
    (unique owners : List PartyId) → IsDistinct unique → IsDistinct (push_unique unique owners)
unfolding push_unique
push_unique-IsDistinct unique [] d = d
push_unique-IsDistinct unique (o ∷ owners) d =
    push_unique-IsDistinct (if not (contains unique o) then unique ++ (o ∷ []) else unique) owners
      (pushed-IsDistinct unique o d)

module _ (x : Crates) (c : MultisigSerde) (r : MultisigRoundTrips c) where
  abbrev pub with_account : Hash → MultisigAccount → StateTree → StateTree
  with_account id acc s = put (acc_key x id) (r.account.bytes acc) s

  pub account_id-with_account :
      (id : Hash) (acc : MultisigAccount) (s : StateTree)
      → account_id x c (with_account id acc s) id ≡ some acc
  unfolding account_id ok_flatten
  account_id-with_account id acc s =
      ap ok_flatten (get_json-put_self c.account r.account (acc_key x id) acc s)

  abbrev pub new_account : PartyId → List PartyId → ℕ → MultisigAccount
  new_account who owners threshold = record {
    id = account_hash x c who threshold (push_unique [] owners);
    owners = push_unique [] owners;
    threshold = threshold;
    nonce = 0;
  }

  handle_create_account-eq :
      (cmd : Command) (owners : List PartyId) (threshold : ℕ) (s : StateTree)
      → let acc = new_account cmd.submitter owners threshold in
        handle_create_account x c cmd owners threshold s ≡ (
          if length acc.owners == 0 || ltb max_owners (length acc.owners)
          then (err (invalid_payload (lit "owners must be 1..=64 distinct parties")), s)
          else if threshold == 0 || ltb (length acc.owners) threshold
          then (err (invalid_payload (lit "threshold must be 1..=owners")), s)
          else if Tree.contains (acc_key x acc.id) s
          then (err (invalid_payload (lit "account already exists")), s)
          else (
            ok (single (event x c cmd (account_created acc.id threshold (length acc.owners))) 4000),
            with_account acc.id acc s,
          ))
  unfolding handle_create_account
  handle_create_account-eq cmd owners threshold s =
      let acc = new_account cmd.submitter owners threshold in
      ground (arith, or_internal-put_json c.account r.account (acc_key x acc.id) acc s)

  -- An account whose creation is accepted is stored under its id, which was free, with the owners
  -- it was given without repetitions: they are distinct, at least one and at most 64, and the
  -- threshold is at least one and at most their number.
  pub handle_create_account-IsAccount :
      (cmd : Command) (owners : List PartyId) (threshold : ℕ) (s : StateTree) (out : PrismOutput)
      (s' : StateTree)
      → handle_create_account x c cmd owners threshold s ≡ (ok out, s')
      → let acc = new_account cmd.submitter owners threshold in
        (account_id x c s' acc.id ≡ some acc)
        × IsAccount acc
        × (Tree.contains (acc_key x acc.id) s ≡ false)
  handle_create_account-IsAccount cmd owners threshold s out s' h =
      let acc = new_account cmd.submitter owners threshold in
      let none_of = invalid_payload (lit "owners must be 1..=64 distinct parties") in
      let badly = invalid_payload (lit "threshold must be 1..=owners") in
      let again = invalid_payload (lit "account already exists") in
      let made =
        single (event x c cmd (account_created acc.id threshold (length acc.owners))) 4000 in
      let passed =
        guards_passed (length acc.owners == 0 || ltb max_owners (length acc.owners))
          (threshold == 0 || ltb (length acc.owners) threshold) (Tree.contains (acc_key x acc.id) s)
          none_of badly again made out s _ s'
          (sym (handle_create_account-eq cmd owners threshold s) ∙ h) in
      (
        rw (passed.3) (account_id-with_account acc.id acc s),
        record {
          distinct = push_unique-IsDistinct [] owners tt;
          few = ground (arith, passed.0);
          positive = ground (arith, passed.1);
          reachable = ground (arith, passed.1);
        },
        passed.2,
      )

  -- The state after a proposal, the stored transaction and the account with the next nonce.
  abbrev pub proposed_tx : Hash → MultisigAccount → PartyId → Command → PendingTx
  proposed_tx id acc who inner = record {
    account = id;
    seq = acc.nonce;
    inner = inner;
    confirmations = Entries.insert who tt [];
    executed = leb acc.threshold 1;
  }

  abbrev pub proposed : Hash → MultisigAccount → PartyId → Command → StateTree → StateTree
  proposed id acc who inner s =
      with_tx x c r id acc.nonce (proposed_tx id acc who inner)
        (with_account id (record acc { nonce = (acc.nonce + 1) % u64_mod }) s)

  pub handle_propose-eq :
      (cmd : Command) (id : Hash) (inner : Command) (acc : MultisigAccount) (s : StateTree)
      → account_id x c s id ≡ some acc
      → contains acc.owners cmd.submitter ≡ true
      → handle_propose x c cmd id inner s ≡ (
        ok (record {
          events =
              if leb acc.threshold 1
              then event x c cmd (was_proposed id acc.nonce cmd.submitter)
                ∷ event x c cmd (was_executed id acc.nonce)
                ∷ []
              else event x c cmd (was_proposed id acc.nonce cmd.submitter) ∷ [];
          derived_commands = if leb acc.threshold 1 then inner ∷ [] else [];
          cost = 3000;
        }),
        proposed id acc cmd.submitter inner s,
      )
  unfolding handle_propose
  handle_propose-eq cmd id inner acc s k o = ground (
    arith,
    load_account-some x c r id acc s k,
    or_internal-put_json c.account r.account (acc_key x id)
        (record acc { nonce = (acc.nonce + 1) % u64_mod }) s,
    or_internal-put_json c.pending r.pending (tx_key x id acc.nonce)
        (proposed_tx id acc cmd.submitter inner)
        (with_account id (record acc { nonce = (acc.nonce + 1) % u64_mod }) s),
  )

  first-IsPending :
      (acc : MultisigAccount) (id : Hash) (who : PartyId) (inner : Command)
      → contains acc.owners who ≡ true
      → IsPending acc (proposed_tx id acc who inner)
  unfolding Entries.insert
  first-IsPending acc id who inner o = record {
    sorted = (tt, tt);
    owned = (o, tt);
    agreed = λ e. ground arith;
  }

  -- A proposal by an owner stores a pending transaction whose one confirmation is the owner's,
  -- executed at once only if one confirmation is enough, and moves the account to its next nonce.
  pub handle_propose-IsPending :
      (cmd : Command) (id : Hash) (inner : Command) (acc : MultisigAccount) (s : StateTree)
      → account_id x c s id ≡ some acc
      → contains acc.owners cmd.submitter ≡ true
      → let s' = (handle_propose x c cmd id inner s).1 in
        (account_id x c s' id ≡ some (record acc { nonce = (acc.nonce + 1) % u64_mod }))
        × ((t : PendingTx) × (pending_tx x c s' id acc.nonce ≡ some t)
            × IsPending acc t
            × (t.inner ≡ inner)
            × (length t.confirmations ≡ 1))
  unfolding Entries.insert
  handle_propose-IsPending cmd id inner acc s k o =
      let stored = with_account id (record acc { nonce = (acc.nonce + 1) % u64_mod }) s in
      let t = proposed_tx id acc cmd.submitter inner in
      rw (handle_propose-eq cmd id inner acc s k o) (
        account_id-with_tx x c r id id acc.nonce t stored ∙ account_id-with_account id _ s,
        (
          t,
          pending_tx-with_tx x c r id acc.nonce t stored,
          first-IsPending acc (id) cmd.submitter inner o,
          refl,
          refl,
        ),
      )
