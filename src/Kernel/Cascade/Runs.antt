-- ===== src/Kernel/Cascade/Runs.antt =====
-- Runs of a queue of commands, and the run of one command (kernel/src/cascade.rs).
use veilux_binary.Base.{
  ℕ, suc, ◌+◌, ◌%◌, ◌≤◌, ◌<◌, ◌≡◌, refl, ap, sym, ◌∙◌, subst, none, some, List, [], ◌∷◌, ◌++◌,
  append_assoc, Result, ok, err, Option-cases, inl, inr, arith, u64_mod,
}
use veilux_binary.Base.Order.{text_ord}
use veilux_binary.Base.Map.{get}
use veilux_binary.Kernel.Types.{Command}
use veilux_binary.Kernel.State.{StateTree}
use veilux_binary.Kernel.Prism.{Prism, PrismError, PrismOutput}
use veilux_binary.Kernel.Cascade.{
  Cascade, CascadeReceipt, CascadeError, unknown_prism, depth_exceeded, from_prism, handle,
  run_command, max_cascade_depth,
}

-- Commands that are derived in so many steps from the first.
abbrev pub at_depth : ℕ → List Command → List (ℕ × Command)
at_depth d [] = []
at_depth d (cmd ∷ cmds) = (d, cmd) ∷ at_depth d cmds

at_depth-append :
    (d : ℕ) (xs ys : List Command) → at_depth d (xs ++ ys) ≡ at_depth d xs ++ at_depth d ys
at_depth-append d [] ys = refl
at_depth-append d (x ∷ xs) ys = ap (λ q. (d, x) ∷ q) (at_depth-append d xs ys)

pub deeper : (d : ℕ) → d + 1 ≡ suc d
deeper d = omega arith

-- The receipt after one more output, of a command at the depth `d`.
abbrev pub receipt_with : PrismOutput → ℕ → CascadeReceipt → CascadeReceipt
receipt_with out d r = record {
  events = r.events ++ out.events;
  total_cost = (r.total_cost + out.cost) % u64_mod;
  depth = suc d;
}

wrap : Result PrismError PrismOutput × StateTree → Result CascadeError PrismOutput × StateTree
wrap (ok out, s) = (ok out, s)
wrap (err e, s) = (err (from_prism e), s)

wrap-ok :
    (m : Result PrismError PrismOutput × StateTree) (out : PrismOutput) (s' : StateTree)
    → wrap m ≡ (ok out, s')
    → m ≡ (ok out, s')
unfolding wrap
wrap-ok (ok o, u) out s' h = cc
wrap-ok (err e, u) out s' h = absurd (cc)

wrap-err :
    (m : Result PrismError PrismOutput × StateTree) (e : CascadeError) (s' : StateTree)
    → wrap m ≡ (err e, s')
    → (pe : PrismError) × (m ≡ (err pe, s')) × (from_prism pe ≡ e)
unfolding wrap
wrap-err (ok o, u) e s' h = absurd (cc)
wrap-err (err pe, u) e s' h =
    let same : ◌≡◌ {A = Result PrismError PrismOutput × StateTree} (err pe, u) (err pe, s') = cc in
    (pe, same, cc)

module _ (c : Cascade) where
  -- A queue of commands with their depths, run one after the other: each by the prism that it names
  -- and from the state that the one before left. What a command derives goes to the back of the
  -- queue, one deeper. The run ends with the queue, or with an error at the first command that is
  -- too deep, names no installed prism, or is refused by its prism.
  pub data Runs
      : List (ℕ × Command)
        → StateTree
        → CascadeReceipt
        → Result CascadeError CascadeReceipt × StateTree
        → Type 0 where
    empty : (s : StateTree) (r : CascadeReceipt) → Runs [] s r (ok r, s)
    next :
        (d : ℕ) (cmd : Command) (queue : List (ℕ × Command)) (s s' : StateTree) (r : CascadeReceipt)
        (prism : Prism) (out : PrismOutput) (end : Result CascadeError CascadeReceipt × StateTree)
        → d < max_cascade_depth
        → get cmd.prism c.prisms ≡ some prism
        → prism.handle cmd s ≡ (ok out, s')
        → Runs (queue ++ at_depth (suc d) out.derived_commands) s' (receipt_with out d r) end
        → Runs ((d, cmd) ∷ queue) s r end
    refused :
        (d : ℕ) (cmd : Command) (queue : List (ℕ × Command)) (s s' : StateTree) (r : CascadeReceipt)
        (prism : Prism) (e : PrismError)
        → d < max_cascade_depth
        → get cmd.prism c.prisms ≡ some prism
        → prism.handle cmd s ≡ (err e, s')
        → Runs ((d, cmd) ∷ queue) s r (err (from_prism e), s')
    unknown :
        (d : ℕ) (cmd : Command) (queue : List (ℕ × Command)) (s : StateTree) (r : CascadeReceipt)
        → d < max_cascade_depth
        → get cmd.prism c.prisms ≡ none
        → Runs ((d, cmd) ∷ queue) s r (err (unknown_prism cmd.prism), s)
    too_deep :
        (d : ℕ) (cmd : Command) (queue : List (ℕ × Command)) (s : StateTree) (r : CascadeReceipt)
        → max_cascade_depth ≤ d
        → Runs ((d, cmd) ∷ queue) s r (err (depth_exceeded max_cascade_depth), s)

  handle-wrap :
      (prism : Prism) (cmd : Command) (s : StateTree)
      → handle prism cmd s ≡ wrap (prism.handle cmd s)
  unfolding handle wrap
  handle-wrap prism cmd s = go (prism.handle cmd s)
    where
      go :
          (m : Result PrismError PrismOutput × StateTree)
          → ◌≡◌ {A = Result CascadeError PrismOutput × StateTree}
              (elim m.0 as (λ _. Result CascadeError PrismOutput × StateTree) [
                | ok out ↦ (ok out, m.1)
                | err e ↦ (err (from_prism e), m.1)
              ])
              (wrap m)
      go (ok out, u) = refl
      go (err e, u) = refl

  -- A command that ran, by its prism.
  pub record Ran (cmd : Command) (s s' : StateTree) (out : PrismOutput) : Type 0 where
    pub prism : Prism
    pub known : get cmd.prism c.prisms ≡ some prism
    pub ran : prism.handle cmd s ≡ (ok out, s')

  pub run_command-Ran :
      (cmd : Command) (s s' : StateTree) (out : PrismOutput)
      → run_command c cmd s ≡ (ok out, s')
      → Ran cmd s s' out
  unfolding run_command
  run_command-Ran cmd s s' out h = elim (Option-cases (get cmd.prism c.prisms)) [
    | inl absent ↦ absurd (ground arith)
    | inr (prism, known) ↦
        let h' : handle prism cmd s ≡ (ok out, s') = ground arith in
        let ran = wrap-ok (prism.handle cmd s) out s' (sym (handle-wrap prism cmd s) ∙ h') in
        record { prism = prism; known = known; ran = ran }
  ]

  pub run_command-Runs :
      (d : ℕ) (cmd : Command) (queue : List (ℕ × Command)) (s s' : StateTree) (r : CascadeReceipt)
      (e : CascadeError)
      → d < max_cascade_depth
      → run_command c cmd s ≡ (err e, s')
      → Runs ((d, cmd) ∷ queue) s r (err e, s')
  unfolding run_command
  run_command-Runs d cmd queue s s' r e low h = elim (Option-cases (get cmd.prism c.prisms)) [
    | inl absent ↦
        let same_e : unknown_prism cmd.prism ≡ e = ground arith in
        let same_s : s ≡ s' = ground arith in
        subst (λ u. Runs ((d, cmd) ∷ queue) s r (err e, u)) same_s
          (subst (λ x. Runs ((d, cmd) ∷ queue) s r (err x, s)) same_e
            (unknown d cmd queue s r low absent))
    | inr (prism, known) ↦
        let h' : handle prism cmd s ≡ (err e, s') = ground arith in
        let (pe, ran, same_e) =
          wrap-err (prism.handle cmd s) e s' (sym (handle-wrap prism cmd s) ∙ h') in
        subst (λ x. Runs ((d, cmd) ∷ queue) s r (err x, s')) same_e
          (refused d cmd queue s s' r prism pe low known ran)
  ]

  pub back_of_queue :
      (d : ℕ) (cmds later derived : List Command)
      → (at_depth d cmds ++ at_depth (suc d) later) ++ at_depth (suc d) derived
        ≡ at_depth d cmds ++ at_depth (suc d) (later ++ derived)
  back_of_queue d cmds later derived =
      append_assoc (at_depth d cmds) (at_depth (suc d) later) (at_depth (suc d) derived)
      ∙ ap (λ q. at_depth d cmds ++ q) (sym (at_depth-append (suc d) later derived))
