-- ===== src/Bridge/Replay.antt =====
-- No transfer is redeemed twice (prisms/bridge/src/lib.rs).
use veilux_binary.Base.{
  ℕ, ◌+◌, ◌%◌, ◌≡◌, refl, ap, sym, ◌∙◌, inl, inr, subst, Bool, true, false, List, [], ◌∷◌, Result,
  ok, err, arith, ◌==◌, if◌then◌else◌, u64_mod,
}
use veilux_binary.Kernel.Hash.{Crates}
use veilux_binary.Kernel.Types.{Command}
use veilux_binary.Kernel.State.{StateTree}
use veilux_binary.Kernel.Prism.{PrismError, PrismOutput}
use veilux_binary.Token.Keys.{HexLaws}
use veilux_binary.Bridge.Types.{
  ForeignChain, as_u16, InboundTransfer, GuardianSignature, BridgeSerde, BridgeRoundTrips,
}
use veilux_binary.Bridge.Quorum.{Signatures}
use veilux_binary.Bridge.Handle.{seq_key, read_seq, handle_redeem}
use veilux_binary.Bridge.Redeem.{redeemed, handle_redeem-cases, read_seq-redeemed}

-- A redemption that somebody submits.
pub record Request : Type 0 where
  pub command : Command
  pub transfer : InboundTransfer
  pub signatures : List GuardianSignature

-- The sequences from `n` on, one after the other.
abbrev pub Counts : ℕ → List ℕ → Type 0
Counts n [] = Unit
Counts n (k ∷ ks) = (k ≡ n) × Counts ((n + 1) % u64_mod) ks

-- The sequence, if the request for the chain was accepted, in front of those that follow.
abbrev pub note : Bool → Result PrismError PrismOutput → ℕ → List ℕ → List ℕ
note true (ok out) n ns = n ∷ ns
note true (err e) n ns = ns
note false r n ns = ns

module _ (x : Crates) (v : Signatures) (c : BridgeSerde) where
  -- The requests in order: the sequences of those for the chain that were accepted.
  unfoldable pub accepted : ForeignChain → List Request → StateTree → List ℕ
  accepted chain [] s = []
  accepted chain (q ∷ qs) s =
      let step = handle_redeem x v c q.command q.transfer q.signatures s in
      note (as_u16 chain == as_u16 q.transfer.chain) step.0 q.transfer.sequence
        (accepted chain qs step.1)

note_err : (b : Bool) (e : PrismError) (k : ℕ) (ns : List ℕ) → note b (err e) k ns ≡ ns
note_err true e k ns = refl
note_err false e k ns = refl

note-Counts :
    (b : Bool) (out : PrismOutput) (k n m : ℕ) (ns : List ℕ)
    → m ≡ (if b then (k + 1) % u64_mod else n)
    → (b ≡ true → k ≡ n)
    → Counts m ns
    → Counts n (note b (ok out) k ns)
note-Counts true out k n m ns e f h =
    (f refl, subst (λ j. Counts j ns) (e ∙ ap (λ j. (j + 1) % u64_mod) (f refl)) h)
note-Counts false out k n m ns e f h = subst (λ j. Counts j ns) e h

module _ (x : Crates) (laws : HexLaws x) (v : Signatures) (c : BridgeSerde)
    (r : BridgeRoundTrips c) where
  same_chain : (a b : ForeignChain) → (as_u16 a == as_u16 b) ≡ true → seq_key a ≡ seq_key b
  unfolding seq_key
  same_chain a b h = let e : as_u16 a ≡ as_u16 b = ground arith in rw (e) refl

  -- Whatever redemptions are submitted, for whatever chains and in whatever order: those accepted
  -- for a chain have the sequences from the chain's next one on, each once and without a gap.
  pub accepted-Counts :
      (chain : ForeignChain) (qs : List Request) (s : StateTree)
      → Counts (read_seq x v c (seq_key chain) s) (accepted x v c chain qs s)
  unfolding accepted
  accepted-Counts chain [] s = tt
  accepted-Counts chain (q ∷ qs) s =
      let t = q.transfer in
      let here = as_u16 chain == as_u16 t.chain in
      elim (handle_redeem-cases x laws v c r q.command t q.signatures s) [
        | inr (e, ends) ↦ rw (ends) (
            rw (note_err here e t.sequence (accepted x v c chain qs s))
              (accepted-Counts chain qs s))
        | inl a ↦ rw (a.ends) (
            note-Counts here _ t.sequence (read_seq x v c (seq_key chain) s)
              (read_seq x v c (seq_key chain) (redeemed x laws v c r t s)) _
              (read_seq-redeemed x laws v c r t s chain)
              (λ y. a.next ∙ ap (λ k. read_seq x v c k s) (sym (same_chain chain t.chain y)))
              (accepted-Counts chain qs (redeemed x laws v c r t s)))
      ]
