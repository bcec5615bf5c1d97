-- ===== src/Kernel/Cascade/Laws.antt =====
-- Running a command: the depth and the unknown prism
-- (kernel/src/cascade.rs).
use veilux_binary.Base.{
  ℕ, zero, suc, ◌+◌, ◌≤◌, ◌≡◌, none, List, [], ◌∷◌, Result, ok, err, arith, subst, bind_cases,
}
use veilux_binary.Base.Order.{text_ord}
use veilux_binary.Base.Map.{get}
use veilux_binary.Kernel.Types.{Command}
use veilux_binary.Kernel.State.{StateTree}
use veilux_binary.Kernel.Cascade.{
  Cascade, CascadeReceipt, CascadeError, unknown_prism, max_cascade_depth, run_frontier, run_rounds,
  apply,
}

shift : (depth rounds : ℕ) → depth + 1 + rounds ≡ depth + suc rounds
shift depth rounds = omega arith

-- How a run ended: in a depth within the rounds, or in an error.
abbrev pub Within : ℕ → Result CascadeError CascadeReceipt → Type 0
Within n (ok receipt) = receipt.depth ≤ n
Within n (err e) = Unit

run_rounds-depth :
    (c : Cascade) (rounds : ℕ) (frontier : List Command) (receipt : CascadeReceipt) (depth : ℕ)
    (s : StateTree)
    → Within (depth + rounds) (run_rounds c rounds frontier receipt depth s).0
unfolding run_rounds
run_rounds-depth c rounds [] receipt depth s = omega arith
run_rounds-depth c zero (cmd ∷ cmds) receipt depth s = tt
run_rounds-depth c (suc rounds) (cmd ∷ cmds) receipt depth s =
    bind_cases (λ r. Within (depth + suc rounds) r.0) (run_frontier c (cmd ∷ cmds) (receipt, []))
      (λ a. run_rounds c rounds a.1 a.0 (depth + 1)) s (λ e s' eq. tt)
      λ a s' eq.
        subst (λ n. Within n (run_rounds c rounds a.1 a.0 (depth + 1) s').0) (shift depth rounds)
          (run_rounds-depth c rounds a.1 a.0 (depth + 1) s')

-- A command that succeeds has run through at most eight rounds.
pub apply-depth :
    (c : Cascade) (command : Command) (s : StateTree)
    → Within max_cascade_depth (apply c command s).0
unfolding apply
apply-depth c command s =
    run_rounds-depth c 8 (command ∷ []) (record { events = []; total_cost = 0; depth = 0 }) 0 s

-- A command for a prism that is not installed fails, names the prism and changes nothing.
pub apply-unknown :
    (c : Cascade) (command : Command) (s : StateTree)
    → get command.prism c.prisms ≡ none
    → apply c command s ≡ (err (unknown_prism command.prism), s)
unfolding apply
apply-unknown c command s h = ground arith
