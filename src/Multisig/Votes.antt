-- ===== src/Multisig/Votes.antt =====
-- What owners do to a pending transaction (prisms/multisig/src/lib.rs).
use veilux_binary.Base.{
  ℕ, ◌%◌, ◌≤◌, ◌≡◌, refl, ap, Bool, true, false, not, some, [], ◌∷◌, lit, ok, err, length, All,
  arith, leb, if◌then◌else◌,
}
use veilux_binary.Base.Order.{same, text_ord, text_cmp}
use veilux_binary.Base.Map as Entries
use veilux_binary.Base.Map.{Map, IsSorted, insert-IsSorted, remove-IsSorted}
use veilux_binary.Kernel.Hash.{Crates, Hash}
use veilux_binary.Kernel.Types.{PartyId, Command, contains}
use veilux_binary.Kernel.State.{StateTree, put}
use veilux_binary.Kernel.State.Laws.{get_json-put_self, get_json-put_other}
use veilux_binary.Kernel.Prism.{invalid_payload, unauthorized, or_internal, single}
use veilux_binary.Kernel.Prism.Laws.{or_internal-put_json}
use veilux_binary.Token.Store.{ok_flatten}
use veilux_binary.Multisig.Types.{
  MultisigAccount, PendingTx, MultisigSerde, MultisigRoundTrips, Names, was_confirmed, was_executed,
  was_revoked,
}
use veilux_binary.Multisig.Handle.{
  acc_key, tx_key, load_account, load_tx, event, handle_confirm, handle_revoke, account_id,
  pending_tx, u32_mod,
}

-- The names of the set are owners of the account.
abbrev pub IsOwned : MultisigAccount → Names → Type 0
IsOwned acc = All (λ e. contains acc.owners e.0 ≡ true)

insert-IsOwned :
    (acc : MultisigAccount) (who : PartyId) (names : Names)
    → contains acc.owners who ≡ true
    → IsOwned acc names
    → IsOwned acc (Entries.insert who tt names)
unfolding Entries.insert
insert-IsOwned acc who [] h o = (h, tt)
insert-IsOwned acc who ((k, v) ∷ names) h o = ground (arith, insert-IsOwned acc who names h o.1)

remove-IsOwned :
    (acc : MultisigAccount) (who : PartyId) (names : Names)
    → IsOwned acc names
    → IsOwned acc (Entries.remove who names)
unfolding Entries.remove
remove-IsOwned acc who [] o = tt
remove-IsOwned acc who ((k, v) ∷ names) o = ground (arith, remove-IsOwned acc who names o.1)

-- A pending transaction of the account: its confirmations are distinct owners, and it is executed
-- only with as many of them as the threshold.
pub record IsPending (acc : MultisigAccount) (t : PendingTx) : Type 0 where
  pub sorted : IsSorted t.confirmations
  pub owned : IsOwned acc t.confirmations
  pub agreed : t.executed ≡ true → acc.threshold ≤ length t.confirmations

-- The set and the flag after a confirmation, and the set after a revocation.
abbrev pub joined : PendingTx → PartyId → Names
joined t who = Entries.insert who tt t.confirmations

abbrev pub reached : MultisigAccount → PendingTx → PartyId → Bool
reached acc t who = leb acc.threshold (length (joined t who) % u32_mod)

abbrev pub confirmed_tx : MultisigAccount → PendingTx → PartyId → PendingTx
confirmed_tx acc t who = record t {
  confirmations = joined t who;
  executed = if reached acc t who then true else t.executed;
}

abbrev pub revoked_tx : PendingTx → PartyId → PendingTx
revoked_tx t who = record t { confirmations = Entries.remove who t.confirmations }

pub confirmed_tx-IsPending :
    (acc : MultisigAccount) (t : PendingTx) (who : PartyId)
    → contains acc.owners who ≡ true
    → t.executed ≡ false
    → IsPending acc t
    → IsPending acc (confirmed_tx acc t who)
confirmed_tx-IsPending acc t who o e p = record {
  sorted = insert-IsSorted who tt t.confirmations p.sorted;
  owned = insert-IsOwned acc who t.confirmations o p.owned;
  agreed = λ f. ground arith;
}

pub revoked_tx-IsPending :
    (acc : MultisigAccount) (t : PendingTx) (who : PartyId)
    → t.executed ≡ false
    → IsPending acc t
    → IsPending acc (revoked_tx t who)
revoked_tx-IsPending acc t who e p = record {
  sorted = remove-IsSorted who t.confirmations p.sorted;
  owned = remove-IsOwned acc who t.confirmations p.owned;
  agreed = λ f. absurd (ground arith);
}

acc_key-tx_key :
    (x : Crates) (id id' : Hash) (seq : ℕ) → same (acc_key x id) (tx_key x id' seq) ≡ false
unfolding acc_key tx_key lit text_cmp
acc_key-tx_key x id id' seq = refl

module _ (x : Crates) (c : MultisigSerde) (r : MultisigRoundTrips c) where
  abbrev pub with_tx : Hash → ℕ → PendingTx → StateTree → StateTree
  with_tx id seq t s = put (tx_key x id seq) (r.pending.bytes t) s

  pub load_account-some :
      (id : Hash) (acc : MultisigAccount) (s : StateTree)
      → account_id x c s id ≡ some acc
      → load_account x c id s ≡ (ok acc, s)
  unfolding load_account account_id ok_flatten or_internal
  load_account-some id acc s h = ground arith

  load_tx-some :
      (id : Hash) (seq : ℕ) (t : PendingTx) (s : StateTree)
      → pending_tx x c s id seq ≡ some t
      → load_tx x c id seq s ≡ (ok t, s)
  unfolding load_tx pending_tx ok_flatten or_internal
  load_tx-some id seq t s h = ground arith

  pub pending_tx-with_tx :
      (id : Hash) (seq : ℕ) (t : PendingTx) (s : StateTree)
      → pending_tx x c (with_tx id seq t s) id seq ≡ some t
  unfolding pending_tx ok_flatten
  pending_tx-with_tx id seq t s =
      ap ok_flatten (get_json-put_self c.pending r.pending (tx_key x id seq) t s)

  pub account_id-with_tx :
      (id id' : Hash) (seq : ℕ) (t : PendingTx) (s : StateTree)
      → account_id x c (with_tx id' seq t s) id ≡ account_id x c s id
  unfolding account_id
  account_id-with_tx id id' seq t s = ap ok_flatten (
      get_json-put_other c.account (tx_key x id' seq) (acc_key x id) _ s
        (acc_key-tx_key x id id' seq))

  module _ (cmd : Command) (id : Hash) (seq : ℕ) (acc : MultisigAccount) (t : PendingTx)
      (s : StateTree) (known : account_id x c s id ≡ some acc)
      (stored : pending_tx x c s id seq ≡ some t) where
    -- A confirmation of a pending transaction, on every branch.
    pub handle_confirm-eq : handle_confirm x c cmd id seq s ≡ (
        if not (contains acc.owners cmd.submitter)
        then (err (unauthorized (lit "not an account owner")), s)
        else if t.executed
        then (err (invalid_payload (lit "tx already executed")), s)
        else (
          ok (record {
            events =
                if reached acc t cmd.submitter
                then event x c cmd
                    (was_confirmed id seq cmd.submitter (length (joined t cmd.submitter) % u32_mod))
                  ∷ event x c cmd (was_executed id seq)
                  ∷ []
                else event x c cmd
                    (was_confirmed id seq cmd.submitter (length (joined t cmd.submitter) % u32_mod))
                  ∷ [];
            derived_commands = if reached acc t cmd.submitter then t.inner ∷ [] else [];
            cost = 1500;
          }),
          with_tx id seq (confirmed_tx acc t cmd.submitter) s,
        ))
    unfolding handle_confirm
    handle_confirm-eq = ground (
      arith,
      load_account-some id acc s known,
      load_tx-some id seq t s stored,
      or_internal-put_json c.pending r.pending (tx_key x id seq) (confirmed_tx acc t cmd.submitter)
          s,
    )

    pub handle_revoke-eq : handle_revoke x c cmd id seq s ≡ (
        if not (contains acc.owners cmd.submitter)
        then (err (unauthorized (lit "not an account owner")), s)
        else if t.executed
        then (err (invalid_payload (lit "cannot revoke an executed tx")), s)
        else (
          ok (single (event x c cmd (was_revoked id seq cmd.submitter)) 800),
          with_tx id seq (revoked_tx t cmd.submitter) s,
        ))
    unfolding handle_revoke
    handle_revoke-eq = ground (
      arith,
      load_account-some id acc s known,
      load_tx-some id seq t s stored,
      or_internal-put_json c.pending r.pending (tx_key x id seq) (revoked_tx t cmd.submitter) s,
    )
