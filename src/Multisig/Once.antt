-- ===== src/Multisig/Once.antt =====
-- A pending transaction under any votes (prisms/multisig/src/lib.rs).
use veilux_binary.Base.{
  ℕ, ◌≡◌, refl, ap, sym, ◌∙◌, ◌⊎◌, inl, inr, Bool, true, false, not, some, List, [], ◌∷◌, ◌++◌,
  Result, ok, err, arith, Bool-cases, if◌then◌else◌,
}
use veilux_binary.Kernel.Hash.{Crates, Hash}
use veilux_binary.Kernel.Types.{PartyId, Command, contains}
use veilux_binary.Kernel.State.{StateTree}
use veilux_binary.Kernel.Prism.{PrismError, PrismOutput, single}
use veilux_binary.Multisig.Types.{MultisigAccount, PendingTx, MultisigSerde, MultisigRoundTrips}
use veilux_binary.Multisig.Handle.{handle_confirm, handle_revoke, account_id, pending_tx}
use veilux_binary.Multisig.Votes.{
  IsPending, with_tx, reached, confirmed_tx, revoked_tx, confirmed_tx-IsPending,
  revoked_tx-IsPending, handle_confirm-eq, handle_revoke-eq, pending_tx-with_tx, account_id-with_tx,
}

-- A party's command that confirms the transaction, or one that revokes.
pub data Vote : Type 0 where
  yes_from no_from : Command → Vote

abbrev pub derived : Result PrismError PrismOutput → List Command
derived (ok out) = out.derived_commands
derived (err e) = []

module _ (x : Crates) (c : MultisigSerde) (id : Hash) (seq : ℕ) where
  unfoldable pub vote : Vote → StateTree → Result PrismError PrismOutput × StateTree
  vote (yes_from cmd) = handle_confirm x c cmd id seq
  vote (no_from cmd) = handle_revoke x c cmd id seq

  -- The votes in order: all commands that they derive, and the last state.
  unfoldable pub run_votes : List Vote → StateTree → List Command × StateTree
  unfolding vote
  run_votes [] s = ([], s)
  run_votes (v ∷ vs) s =
      let step = vote v s in let rest = run_votes vs step.1 in (derived step.0 ++ rest.0, rest.1)

-- How the pending transaction `t` became `t'` while `ds` was derived: nothing was dispatched, or
-- the inner command was, once, and the transaction became executed.
abbrev pub Dispatched : PendingTx → PendingTx → List Command → Type 0
Dispatched t t' ds =
    ((t'.executed ≡ t.executed) × (ds ≡ []))
    ⊎ ((t.executed ≡ false) × (t'.executed ≡ true) × (ds ≡ t.inner ∷ []))

-- What is stored after it.
pub record After (x : Crates) (c : MultisigSerde) (id : Hash) (seq : ℕ) (acc : MultisigAccount)
    (t : PendingTx) (ds : List Command) (s : StateTree) : Type 0 where
  pub now : PendingTx
  pub known : account_id x c s id ≡ some acc
  pub stored : pending_tx x c s id seq ≡ some now
  pub valid : IsPending acc now
  pub same_inner : now.inner ≡ t.inner
  pub how : Dispatched t now ds

Dispatched-trans :
    (t u v : PendingTx) (ds es : List Command)
    → u.inner ≡ t.inner
    → Dispatched t u ds
    → Dispatched u v es
    → Dispatched t v (ds ++ es)
Dispatched-trans t u v ds es i (inl (a, b)) (inl (p, q)) = inl (p ∙ a, rw (b) q)
Dispatched-trans t u v ds es i (inl (a, b)) (inr (p, q, h)) =
    inr (sym a ∙ p, q, rw (b, h) (ap (λ k. k ∷ []) i))
Dispatched-trans t u v ds es i (inr (a, b, h)) (inl (p, q)) = inr (a, p ∙ b, rw (h, q) refl)
Dispatched-trans t u v ds es i (inr (a, b, h)) (inr (p, q, k)) = absurd (ground arith)

module _ (x : Crates) (c : MultisigSerde) (r : MultisigRoundTrips c) (id : Hash) (seq : ℕ)
    (acc : MultisigAccount) where
  unchanged :
      (t : PendingTx) (s : StateTree)
      → account_id x c s id ≡ some acc
      → pending_tx x c s id seq ≡ some t
      → IsPending acc t
      → After x c id seq acc t [] s
  unchanged t s k h p = record {
    now = t;
    known = k;
    stored = h;
    valid = p;
    same_inner = refl;
    how = inl (refl, refl);
  }

  confirm-Dispatched :
      (t : PendingTx) (who : PartyId)
      → t.executed ≡ false
      → Dispatched t (confirmed_tx acc t who) (if reached acc t who then t.inner ∷ [] else [])
  confirm-Dispatched t who e = elim (Bool-cases (reached acc t who)) [
    | inl y ↦ inr (e, ground arith, ground arith)
    | inr n ↦ inl (ground arith, ground arith)
  ]

  written :
      (t t' : PendingTx) (ds : List Command) (s : StateTree)
      → account_id x c s id ≡ some acc
      → t'.inner ≡ t.inner
      → IsPending acc t'
      → Dispatched t t' ds
      → After x c id seq acc t ds (with_tx x c r id seq t' s)
  written t t' ds s k i p d = record {
    now = t';
    known = account_id-with_tx x c r id id seq t' s ∙ k;
    stored = pending_tx-with_tx x c r id seq t' s;
    valid = p;
    same_inner = i;
    how = d;
  }

  -- The step that ended in `m`.
  abbrev Stepped : PendingTx → Result PrismError PrismOutput × StateTree → Type 0
  Stepped t m = After x c id seq acc t (derived m.0) m.1

  -- A step that is refused for a stranger and for an executed transaction, and else stores `t'`.
  step-After :
      (owner done : Bool) (m : Result PrismError PrismOutput × StateTree) (t t' : PendingTx)
      (e f : PrismError) (out : PrismOutput) (s : StateTree)
      → m ≡ (
          if not owner
          then (err e, s)
          else if done
          then (err f, s)
          else (ok out, with_tx x c r id seq t' s))
      → After x c id seq acc t [] s
      → (owner ≡ true
          → done ≡ false
          → After x c id seq acc t out.derived_commands (with_tx x c r id seq t' s))
      → Stepped t m
  step-After false done m t t' e f out s q a b = rw (q) a
  step-After true true m t t' e f out s q a b = rw (q) a
  step-After true false m t t' e f out s q a b = rw (q) (b refl refl)

  vote-After :
      (v : Vote) (t : PendingTx) (s : StateTree)
      → account_id x c s id ≡ some acc
      → pending_tx x c s id seq ≡ some t
      → IsPending acc t
      → Stepped t (vote x c id seq v s)
  unfolding vote single
  vote-After (yes_from cmd) t s k h p =
      let who = cmd.submitter in
      step-After (contains acc.owners who) t.executed _ t (confirmed_tx acc t who) _ _ _ s
        (handle_confirm-eq x c r cmd id seq acc t s k h) (unchanged t s k h p)
        λ y f.
          written t (confirmed_tx acc t who) _ s k refl (confirmed_tx-IsPending acc t who y f p)
            (confirm-Dispatched t who f)
  vote-After (no_from cmd) t s k h p =
      let who = cmd.submitter in
      step-After (contains acc.owners who) t.executed _ t (revoked_tx t who) _ _ _ s
        (handle_revoke-eq x c r cmd id seq acc t s k h) (unchanged t s k h p)
        λ y f.
          written t (revoked_tx t who) _ s k refl (revoked_tx-IsPending acc t who f p)
            (inl (refl, refl))

  -- Whatever parties vote, and in whatever order, on a pending transaction of an account whose
  -- confirmations are distinct owners: afterwards they still are, and either nothing was
  -- dispatched and the transaction is executed only if it was before, or it was not executed
  -- before and its inner command was dispatched once, with at least as many distinct owners
  -- confirming as the threshold asks.
  pub run_votes-After :
      (vs : List Vote) (t : PendingTx) (s : StateTree)
      → account_id x c s id ≡ some acc
      → pending_tx x c s id seq ≡ some t
      → IsPending acc t
      → After x c id seq acc t (run_votes x c id seq vs s).0 (run_votes x c id seq vs s).1
  unfolding run_votes
  run_votes-After [] t s k h p = unchanged t s k h p
  run_votes-After (v ∷ vs) t s k h p =
      let a = vote-After v t s k h p in
      let b = run_votes-After vs a.now (vote x c id seq v s).1 a.known a.stored a.valid in
      record {
        now = b.now;
        known = b.known;
        stored = b.stored;
        valid = b.valid;
        same_inner = b.same_inner ∙ a.same_inner;
        how = Dispatched-trans t a.now b.now _ _ a.same_inner a.how b.how;
      }
