-- ===== src/Contract/Vm/Gas.antt =====
-- The gas and the stack of a run: every run ends (prisms/contract/src/vm.rs).
use veilux_binary.Base.{
  ℕ, zero, suc, ◌+◌, ◌≡◌, ◌≤◌, ◌<◌, refl, Option, none, some, List, Result, ok, err, Action,
  bind_cases, arith, u64_mod, length, get_elem?,
}
use veilux_binary.Base.Map.{Map}
use veilux_binary.Contract.Vm.{
  Vm, VmError, Op, Halt, ExecContext, ExecResult, Signal, max_stack, opcode, opcode_gas, charge,
  execute, tick, after, run_loop, run, new_vm, finish, failed, unfinished, advance, moved, over,
}
use veilux_binary.Contract.Vm.Steps.{IsAt, execute-Keeps, opcode_gas-range}

-- How a run ends: with a result or an error of the machine, never for want of fuel.
abbrev pub Ends : ℕ → Result Halt ExecResult × Vm → Type 0
Ends limit (ok r, s) = (r.gas_used ≤ limit) × (length s.stack ≤ max_stack)
Ends limit (err (failed e), s) = Unit
Ends limit (err unfinished, s) = ⊥

module _ (code : List ℕ) (limit : ℕ) (ctx : ExecContext) where
  -- An instruction that succeeds has taken gas, within the limit.
  abbrev Ticks : ℕ → Result VmError Signal × Vm → Type 0
  Ticks g (err e, s) = Unit
  Ticks g (ok a, s) = (g < s.gas) × (s.gas ≤ limit) × (length s.stack ≤ max_stack)

  executed-Ticks :
      (g h : ℕ) (r : Result VmError Signal × Vm) → IsAt h r.1 → g < h → h ≤ limit → Ticks g r
  executed-Ticks g h (err e, s) at_ more within = tt
  executed-Ticks g h (ok a, s) at_ more within = (omega (arith, at_.0), omega (arith, at_.0), at_.1)

  charge-ok :
      (op : Op) (s s' : Vm) (u : Unit {0})
      → limit + 5000 < u64_mod
      → s.gas ≤ limit
      → charge limit (opcode_gas op) s ≡ (ok u, s')
      → (s.gas < s'.gas) × (s'.gas ≤ limit) × (s'.stack ≡ s.stack)
  unfolding charge
  charge-ok op s s' u fits within e =
      let range = opcode_gas-range op in
      (ground (arith, range), ground (arith, range), ground arith)

  tick-Ticks :
      (byte : ℕ) (s : Vm)
      → limit + 5000 < u64_mod
      → s.gas ≤ limit
      → length s.stack ≤ max_stack
      → Ticks s.gas (tick code limit ctx byte s)
  unfolding tick
  tick-Ticks byte s fits within deep =
      bind_cases (Ticks s.gas) (charge limit (opcode_gas (opcode byte)))
        (λ u. execute code ctx (opcode byte)) s (λ e s' eq. tt)
        λ u s' eq.
          let (more, less, stack) = charge-ok (opcode byte) s s' u fits within eq in
          executed-Ticks s.gas s'.gas (execute code ctx (opcode byte) s')
            (execute-Keeps s'.gas code ctx (opcode byte) s' (refl, rw stack deep)) more less

  after-Ends :
      (again : Action Vm Halt ExecResult) (g : ℕ)
      → ((s : Vm) → g < s.gas → s.gas ≤ limit → length s.stack ≤ max_stack → Ends limit (again s))
      → (r : Result VmError Signal × Vm) → Ticks g r
      → Ends limit (after again r)
  unfolding after finish
  after-Ends again g ih (err e, s) t = tt
  after-Ends again g ih (ok advance, s) t = ih (record s { pc = s.pc + 1 }) t.0 t.1 t.2
  after-Ends again g ih (ok moved, s) t = ih s t.0 t.1 t.2
  after-Ends again g ih (ok (over v), s) t = (t.1, t.2)

  round-Ends :
      (again : Action Vm Halt ExecResult) (s : Vm)
      → ((s' : Vm)
          → s.gas < s'.gas
          → s'.gas ≤ limit
          → length s'.stack ≤ max_stack
          → Ends limit (again s'))
      → ((byte : ℕ) → Ticks s.gas (tick code limit ctx byte s))
      → s.gas ≤ limit
      → length s.stack ≤ max_stack
      → (o : Option ℕ)
      → Ends limit (elim o as (λ _. Result Halt ExecResult × Vm) [
        | none ↦ (ok (finish none s), s)
        | some byte ↦ after again (tick code limit ctx byte s)
      ])
  unfolding finish
  round-Ends again s ih ticks within deep none = (within, deep)
  round-Ends again s ih ticks within deep (some byte) =
      after-Ends again s.gas ih (tick code limit ctx byte s) (ticks byte)

  run_loop-Ends :
      (fuel : ℕ) (s : Vm)
      → limit + 5000 < u64_mod
      → s.gas ≤ limit
      → length s.stack ≤ max_stack
      → limit < fuel + s.gas
      → Ends limit (run_loop code limit ctx fuel s)
  unfolding run_loop
  run_loop-Ends zero s fits within deep enough = absurd (omega arith)
  run_loop-Ends (suc fuel) s fits within deep enough =
      round-Ends (run_loop code limit ctx fuel) s
        (λ s' more less deep'. run_loop-Ends fuel s' fits less deep' (omega arith))
        (λ byte. tick-Ticks byte s fits within deep) within deep (get_elem? code s.pc)

  -- Every run ends, whatever the code: with an error of the machine, or with a result whose gas is
  -- within the limit and a stack within its limit; no fuel runs out. The limit is more than 5000
  -- below 2^64, so that no charge wraps.
  pub run-Ends :
      (storage : Map ℕ ℕ)
      → limit + 5000 < u64_mod
      → Ends limit (run code limit ctx (new_vm storage))
  unfolding run new_vm
  run-Ends storage fits =
      run_loop-Ends (limit + 2) (new_vm storage) fits (omega arith) (omega arith) (omega arith)
