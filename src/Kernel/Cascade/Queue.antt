-- ===== src/Kernel/Cascade/Queue.antt =====
-- The cascade as a queue (kernel/src/cascade.rs).
use veilux_binary.Base.{
  ℕ, zero, suc, ◌+◌, ◌<◌, ◌≡◌, refl, sym, subst, List, [], ◌∷◌, ◌++◌, append-nil, Result, ok, err,
  bind_cases, arith,
}
use veilux_binary.Base.Order.{text_ord}
use veilux_binary.Kernel.Types.{Command}
use veilux_binary.Kernel.State.{StateTree}
use veilux_binary.Kernel.Cascade.{
  Cascade, CascadeReceipt, CascadeError, run_command, add_output, run_frontier, run_rounds, apply,
  max_cascade_depth,
}
use veilux_binary.Kernel.Cascade.Runs.{
  Runs, empty, next, too_deep, at_depth, receipt_with, deeper, run_command-Ran, run_command-Runs,
  back_of_queue,
}

module _ (c : Cascade) where
  -- What a round makes of a queue: the end of its run, or a queue whose run ends alike.
  abbrev Onward :
      ℕ
      → List (ℕ × Command)
      → StateTree
      → CascadeReceipt
      → Result CascadeError (CascadeReceipt × List Command) × StateTree
      → Type 0
  Onward d queue s r (ok (r', later), s') =
      (end : Result CascadeError CascadeReceipt × StateTree)
      → Runs c (at_depth (suc d) later) s' (record r' { depth = suc d }) end
      → Runs c queue s r end
  Onward d queue s r (err e, s') = Runs c queue s r (err e, s')

  Onward-back :
      (d : ℕ) (queue queue' : List (ℕ × Command)) (s s' : StateTree) (r r' : CascadeReceipt)
      → ((end : Result CascadeError CascadeReceipt × StateTree)
          → Runs c queue' s' r' end
          → Runs c queue s r end)
      → (m : Result CascadeError (CascadeReceipt × List Command) × StateTree)
      → Onward d queue' s' r' m
      → Onward d queue s r m
  Onward-back d queue queue' s s' r r' back (ok (r2, later), s2) on =
      λ end run. back end (on end run)
  Onward-back d queue queue' s s' r r' back (err e, s2) on = back (err e, s2) on

  run_frontier-Onward :
      (d : ℕ)
      → d < max_cascade_depth
      → (cmds : List Command) (r : CascadeReceipt) (later : List Command) (reached : ℕ)
        (s : StateTree)
      → (cmds ≡ [] → reached ≡ suc d)
      → Onward d
          (at_depth d cmds ++ at_depth (suc d) later)
          s
          (record r { depth = reached })
          (run_frontier c cmds (r, later) s)
  unfolding run_frontier add_output
  run_frontier-Onward d low [] r later reached s start = λ end run.
      subst (λ n. Runs c (at_depth (suc d) later) s (record r { depth = n }) end) (sym (start refl))
        run
  run_frontier-Onward d low (cmd ∷ cmds) r later reached s start =
      let queue = at_depth d (cmd ∷ cmds) ++ at_depth (suc d) later in
      bind_cases (Onward d queue s (record r { depth = reached })) (run_command c cmd)
        (λ o. run_frontier c cmds (add_output o r, later ++ o.derived_commands)) s
        (λ e s' ran.
          run_command-Runs c d cmd (at_depth d cmds ++ at_depth (suc d) later) s s'
            (record r { depth = reached }) e low ran)
        λ out s' ran.
          let known = run_command-Ran c cmd s s' out ran in
          Onward-back d queue (at_depth d cmds ++ at_depth (suc d) (later ++ out.derived_commands))
            s s' (record r { depth = reached }) (receipt_with out d r)
            (λ end run.
              next d cmd (at_depth d cmds ++ at_depth (suc d) later) s s'
                (record r { depth = reached }) known.prism out end low known.known known.ran
                (rw (back_of_queue c d cmds later out.derived_commands) run))
            (run_frontier c cmds (add_output out r, later ++ out.derived_commands) s')
            (run_frontier-Onward d low cmds (add_output out r) (later ++ out.derived_commands)
              (suc d) s' (λ e. refl))

  run_rounds-Runs :
      (rounds : ℕ) (cmds : List Command) (r : CascadeReceipt) (depth : ℕ) (s : StateTree)
      → depth + rounds ≡ max_cascade_depth
      → Runs c
          (at_depth depth cmds)
          s
          (record r { depth = depth })
          (run_rounds c rounds cmds r depth s)
  unfolding run_rounds
  run_rounds-Runs rounds [] r depth s h = empty s (record r { depth = depth })
  run_rounds-Runs zero (cmd ∷ cmds) r depth s h =
      too_deep depth cmd (at_depth depth cmds) s (record r { depth = depth }) (omega arith)
  run_rounds-Runs (suc rounds) (cmd ∷ cmds) r depth s h =
      let queue = at_depth depth (cmd ∷ cmds) in
      let start = record r { depth = depth } in
      let round =
        subst (λ q. Onward depth q s start (run_frontier c (cmd ∷ cmds) (r, []) s))
          (append-nil queue)
          (run_frontier-Onward depth (omega arith) (cmd ∷ cmds) r [] depth s (λ e. absurd (cc))) in
      bind_cases (λ m. Runs c queue s start m) (run_frontier c (cmd ∷ cmds) (r, []))
        (λ a. run_rounds c rounds a.1 a.0 (depth + 1)) s
        (λ e s' ran. subst (Onward depth queue s start) ran round)
        λ a s' ran.
          subst (Onward depth queue s start) ran round (run_rounds c rounds a.1 a.0 (depth + 1) s')
            (subst
              (λ n.
                Runs c (at_depth n a.1) s' (record a.0 { depth = n })
                  (run_rounds c rounds a.1 a.0 (depth + 1) s'))
              (deeper depth) (run_rounds-Runs rounds a.1 a.0 (depth + 1) s' (omega arith)))

  -- A command, accepted or not, runs as a queue: its cascade runs the command and then, first in
  -- first out, what is derived, each command by the installed prism that it names. An accepted one
  -- has run all of them, with their events in that order, the sum of their costs (mod 2^64) and a
  -- depth one more than that of the last; another ends with the error of the first that is eight
  -- deep, names no installed prism or is refused, in the state left there.
  pub apply-Runs :
      (command : Command) (s : StateTree)
      → Runs c
          ((0, command) ∷ [])
          s
          (record { events = []; total_cost = 0; depth = 0 })
          (apply c command s)
  unfolding apply
  apply-Runs command s =
      run_rounds-Runs 8 (command ∷ []) (record { events = []; total_cost = 0; depth = 0 }) 0 s refl
