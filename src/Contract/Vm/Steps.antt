-- ===== src/Contract/Vm/Steps.antt =====
-- What an instruction does to the gas and the stack (prisms/contract/src/vm.rs).
use Prim.Native.Nat.{bit_and, bit_or}
use veilux_binary.Base.{
  ℕ, ◌+◌, ◌-◌, ◌*◌, ◌/◌, ◌%◌, ◌≡◌, ◌≤◌, none, some, List, Action, ◌>>◌, pure, Keeps, Keeps-bind,
  arith, ltb, ◌==◌, u64_mod, length, get_elem?,
}
use veilux_binary.Contract.Vm.{
  Vm, VmError, Op, ExecContext, max_stack, opcode_gas, push, pop, pop2, top, unary, binary, checked,
  swap_top, as_u64, jump_to, push8, sstore, jumpi, execute, advance, moved, op_stop, op_add, op_sub,
  op_mul, op_div, op_mod, op_lt, op_gt, op_eq, op_iszero, op_and, op_or, op_not, op_pop, op_dup,
  op_swap, op_push8, op_sload, op_sstore, op_jump, op_jumpi, op_jumpdest, op_caller, op_callvalue,
  op_arg, op_log, op_return, op_revert, op_other,
}

-- The gas is the given one, and the stack is within its limit.
abbrev pub IsAt : ℕ → Vm → Type 0
IsAt g s = (s.gas ≡ g) × (length s.stack ≤ max_stack)

module _ (g : ℕ) where
  push-Keeps : (v : ℕ) → Keeps (IsAt g) (push v)
  unfolding push
  push-Keeps v s h = ground arith

  pop-Keeps : Keeps (IsAt g) pop
  unfolding pop
  pop-Keeps s h = ground arith

  top-Keeps : Keeps (IsAt g) top
  unfolding top
  top-Keeps s h = ground arith

  swap_top-Keeps : Keeps (IsAt g) swap_top
  unfolding swap_top
  swap_top-Keeps s h = ground arith

  jump_to-Keeps :
      (code : List ℕ) (ctx : ExecContext) (dest : ℕ) → Keeps (IsAt g) (jump_to code ctx dest)
  unfolding jump_to
  jump_to-Keeps code ctx dest s h = ground arith

  pop2-Keeps : Keeps (IsAt g) pop2
  unfolding pop2 pop
  pop2-Keeps s h = ground arith

  binary-Keeps : (f : ℕ → ℕ → ℕ) → Keeps (IsAt g) (binary f)
  unfolding binary pop2 pop push
  binary-Keeps f s h = ground arith

  unary-Keeps : (f : ℕ → ℕ) → Keeps (IsAt g) (unary f)
  unfolding unary pop push
  unary-Keeps f s h = ground arith

  checked-Keeps : (f : ℕ → ℕ → ℕ) → Keeps (IsAt g) (checked f)
  unfolding checked pop2 pop push
  checked-Keeps f s h = ground arith

  push8-Keeps : (code : List ℕ) (ctx : ExecContext) → Keeps (IsAt g) (push8 code ctx)
  unfolding push8 push
  push8-Keeps code ctx s h = ground arith

  sstore-Keeps : (code : List ℕ) (ctx : ExecContext) → Keeps (IsAt g) (sstore code ctx)
  unfolding sstore pop
  sstore-Keeps code ctx s h = ground arith

  jumpi-Keeps : (code : List ℕ) (ctx : ExecContext) → Keeps (IsAt g) (jumpi code ctx)
  unfolding jumpi pop jump_to
  jumpi-Keeps code ctx s h = ground arith

  then-Keeps :
      {A B : Type 0} (m : Action Vm VmError A) (b : B)
      → Keeps (IsAt g) m
      → Keeps (IsAt g) (m >> pure b)
  then-Keeps m b k = Keeps-bind (IsAt g) m (λ a. pure b) k (λ a s h. h)

  -- No instruction changes the gas or leaves the stack above its limit.
  pub execute-Keeps :
      (code : List ℕ) (ctx : ExecContext) (op : Op) → Keeps (IsAt g) (execute code ctx op)
  unfolding execute pop push top jump_to
  execute-Keeps code ctx op_stop s h = h
  execute-Keeps code ctx op_add s h =
      then-Keeps (binary (λ a b. (a + b) % u64_mod)) advance
        (binary-Keeps (λ a b. (a + b) % u64_mod)) s h
  execute-Keeps code ctx op_sub s h =
      then-Keeps (binary (λ a b. (a + u64_mod - b) % u64_mod)) advance
        (binary-Keeps (λ a b. (a + u64_mod - b) % u64_mod)) s h
  execute-Keeps code ctx op_mul s h =
      then-Keeps (binary (λ a b. a * b % u64_mod)) advance (binary-Keeps (λ a b. a * b % u64_mod)) s
        h
  execute-Keeps code ctx op_div s h = then-Keeps (checked ◌/◌) advance (checked-Keeps ◌/◌) s h
  execute-Keeps code ctx op_mod s h = then-Keeps (checked ◌%◌) advance (checked-Keeps ◌%◌) s h
  execute-Keeps code ctx op_lt s h =
      then-Keeps (binary (λ a b. as_u64 (ltb a b))) advance (binary-Keeps (λ a b. as_u64 (ltb a b)))
        s h
  execute-Keeps code ctx op_gt s h =
      then-Keeps (binary (λ a b. as_u64 (ltb b a))) advance (binary-Keeps (λ a b. as_u64 (ltb b a)))
        s h
  execute-Keeps code ctx op_eq s h =
      then-Keeps (binary (λ a b. as_u64 (a == b))) advance (binary-Keeps (λ a b. as_u64 (a == b))) s
        h
  execute-Keeps code ctx op_iszero s h =
      then-Keeps (unary (λ a. as_u64 (a == 0))) advance (unary-Keeps (λ a. as_u64 (a == 0))) s h
  execute-Keeps code ctx op_and s h = then-Keeps (binary bit_and) advance (binary-Keeps bit_and) s h
  execute-Keeps code ctx op_or s h = then-Keeps (binary bit_or) advance (binary-Keeps bit_or) s h
  execute-Keeps code ctx op_not s h =
      then-Keeps (unary (λ a. u64_mod - 1 - a)) advance (unary-Keeps (λ a. u64_mod - 1 - a)) s h
  execute-Keeps code ctx op_pop s h = then-Keeps pop advance pop-Keeps s h
  execute-Keeps code ctx op_dup s h = ground arith
  execute-Keeps code ctx op_swap s h = then-Keeps swap_top advance swap_top-Keeps s h
  execute-Keeps code ctx op_push8 s h = then-Keeps (push8 code ctx) moved (push8-Keeps code ctx) s h
  execute-Keeps code ctx op_sload s h = ground arith
  execute-Keeps code ctx op_sstore s h =
      then-Keeps (sstore code ctx) advance (sstore-Keeps code ctx) s h
  execute-Keeps code ctx op_jump s h = ground arith
  execute-Keeps code ctx op_jumpi s h = jumpi-Keeps code ctx s h
  execute-Keeps code ctx op_jumpdest s h = ground arith
  execute-Keeps code ctx op_caller s h =
      then-Keeps (push ctx.caller_hash) advance (push-Keeps ctx.caller_hash) s h
  execute-Keeps code ctx op_callvalue s h =
      then-Keeps (push ctx.call_value) advance (push-Keeps ctx.call_value) s h
  execute-Keeps code ctx op_arg s h =
      then-Keeps (unary (λ i. elim (get_elem? ctx.args i) as (λ _. ℕ) [ none ↦ 0 | some v ↦ v ]))
        advance
        (unary-Keeps (λ i. elim (get_elem? ctx.args i) as (λ _. ℕ) [ none ↦ 0 | some v ↦ v ])) s h
  execute-Keeps code ctx op_log s h = ground arith
  execute-Keeps code ctx op_return s h = ground arith
  execute-Keeps code ctx op_revert s h = ground arith
  execute-Keeps code ctx (op_other byte) s h = h

pub opcode_gas-range : (op : Op) → (1 ≤ opcode_gas op) × (opcode_gas op ≤ 5000)
unfolding opcode_gas
opcode_gas-range op_stop = (omega arith, omega arith)
opcode_gas-range op_add = (omega arith, omega arith)
opcode_gas-range op_sub = (omega arith, omega arith)
opcode_gas-range op_mul = (omega arith, omega arith)
opcode_gas-range op_div = (omega arith, omega arith)
opcode_gas-range op_mod = (omega arith, omega arith)
opcode_gas-range op_lt = (omega arith, omega arith)
opcode_gas-range op_gt = (omega arith, omega arith)
opcode_gas-range op_eq = (omega arith, omega arith)
opcode_gas-range op_iszero = (omega arith, omega arith)
opcode_gas-range op_and = (omega arith, omega arith)
opcode_gas-range op_or = (omega arith, omega arith)
opcode_gas-range op_not = (omega arith, omega arith)
opcode_gas-range op_pop = (omega arith, omega arith)
opcode_gas-range op_dup = (omega arith, omega arith)
opcode_gas-range op_swap = (omega arith, omega arith)
opcode_gas-range op_push8 = (omega arith, omega arith)
opcode_gas-range op_sload = (omega arith, omega arith)
opcode_gas-range op_sstore = (omega arith, omega arith)
opcode_gas-range op_jump = (omega arith, omega arith)
opcode_gas-range op_jumpi = (omega arith, omega arith)
opcode_gas-range op_jumpdest = (omega arith, omega arith)
opcode_gas-range op_caller = (omega arith, omega arith)
opcode_gas-range op_callvalue = (omega arith, omega arith)
opcode_gas-range op_arg = (omega arith, omega arith)
opcode_gas-range op_log = (omega arith, omega arith)
opcode_gas-range op_return = (omega arith, omega arith)
opcode_gas-range op_revert = (omega arith, omega arith)
opcode_gas-range (op_other byte) = (omega arith, omega arith)
