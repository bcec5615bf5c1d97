-- ===== src/Contract/Vm.antt =====
-- PhotonVM, the stack machine of contracts (prisms/contract/src/vm.rs). The top of the stack is the
-- head of the list; the code, the gas limit and the context of a run are arguments.
pub mod Steps
pub mod Gas
use Prim.Native.Nat.{bit_and, bit_or}
use veilux_binary.Base.{
  ℕ, zero, suc, ◌+◌, ◌-◌, ◌*◌, ◌/◌, ◌%◌, Bool, true, false, not, Option, none, some, List, [], ◌∷◌,
  ◌++◌, Text, lit, Result, ok, err, Action, pure, raise, gets, or_raise, raise_if, ◌>>=◌, ◌>>◌, ltb,
  leb, ◌==◌, if◌then◌else◌, u64_mod, length, get_elem?,
}
use veilux_binary.Base.Order.{nat_ord}
use veilux_binary.Base.Map as Entries
use veilux_binary.Base.Map.{Map}

pub data VmError : Type 0 where
  stack_underflow stack_overflow div_by_zero pc_out_of_bounds truncated_operand : VmError
  -- needed, had
  out_of_gas : ℕ → ℕ → VmError
  invalid_opcode invalid_jump : ℕ → VmError
  with_revert : Text → VmError

-- The opcodes; any other byte is `op_other`.
pub data Op : Type 0 where
  op_stop op_add op_sub op_mul op_div op_mod op_lt op_gt op_eq op_iszero op_and op_or op_not op_pop
        op_dup op_swap op_push8 op_sload op_sstore op_jump op_jumpi op_jumpdest op_caller
        op_callvalue op_arg op_log op_return op_revert :
      Op
  op_other : ℕ → Op

abbrev assoc : List (ℕ × Op) → ℕ → Op
assoc [] byte = op_other byte
assoc ((n, op) ∷ table) byte = if byte == n then op else assoc table byte

unfoldable pub opcode : ℕ → Op
opcode = assoc (
    (0x00, op_stop)
    ∷ (0x01, op_add)
    ∷ (0x02, op_sub)
    ∷ (0x03, op_mul)
    ∷ (0x04, op_div)
    ∷ (0x05, op_mod)
    ∷ (0x10, op_lt)
    ∷ (0x11, op_gt)
    ∷ (0x12, op_eq)
    ∷ (0x13, op_iszero)
    ∷ (0x16, op_and)
    ∷ (0x17, op_or)
    ∷ (0x19, op_not)
    ∷ (0x50, op_pop)
    ∷ (0x51, op_dup)
    ∷ (0x52, op_swap)
    ∷ (0x60, op_push8)
    ∷ (0x54, op_sload)
    ∷ (0x55, op_sstore)
    ∷ (0x56, op_jump)
    ∷ (0x57, op_jumpi)
    ∷ (0x5b, op_jumpdest)
    ∷ (0x33, op_caller)
    ∷ (0x34, op_callvalue)
    ∷ (0x35, op_arg)
    ∷ (0xa0, op_log)
    ∷ (0xf3, op_return)
    ∷ (0xfd, op_revert)
    ∷ [])

unfoldable pub opcode_gas : Op → ℕ
opcode_gas op_stop = 1
opcode_gas op_jumpdest = 1
opcode_gas op_sload = 200
opcode_gas op_sstore = 5000
opcode_gas op_push8 = 3
opcode_gas op_dup = 3
opcode_gas op_swap = 3
opcode_gas op_pop = 3
opcode_gas op_jump = 8
opcode_gas op_jumpi = 8
opcode_gas op_log = 375
opcode_gas op = 5

abbrev pub max_stack : ℕ
max_stack = 1024

pub record ExecContext : Type 0 where
  pub caller_hash : ℕ
  pub call_value : ℕ
  pub args : List ℕ

pub record ExecResult : Type 0 where
  pub return_value : Option ℕ
  pub gas_used : ℕ
  pub logs : List ℕ
  pub reverted : Bool

-- The part of `Vm` that a run changes.
pub record Vm : Type 0 where
  pub stack : List ℕ
  pub pc : ℕ
  pub gas : ℕ
  pub storage : Map ℕ ℕ
  pub logs : List ℕ

unfoldable pub new_vm : Map ℕ ℕ → Vm
new_vm storage = record { stack = []; pc = 0; gas = 0; storage = storage; logs = [] }

unfoldable pub charge : ℕ → ℕ → Action Vm VmError (Unit {0})
charge gas_limit amount s =
    let gas = (s.gas + amount) % u64_mod in
    (if ltb gas_limit gas then err (out_of_gas gas gas_limit) else ok tt, record s { gas = gas })

unfoldable pub push : ℕ → Action Vm VmError (Unit {0})
push v s =
    if leb max_stack (length s.stack)
    then (err stack_overflow, s)
    else (ok tt, record s { stack = v ∷ s.stack })

unfoldable pub pop : Action Vm VmError ℕ
pop s = elim s.stack [
  | [] ↦ (err stack_underflow, s)
  | v ∷ rest ↦ (ok v, record s { stack = rest })
]

-- Pops `b`, then `a`.
unfoldable pub pop2 : Action Vm VmError (ℕ × ℕ)
unfolding pop
pop2 = do b ← pop; a ← pop; pure (a, b)

-- A test as 0 or 1.
abbrev pub as_u64 : Bool → ℕ
as_u64 true = 1
as_u64 false = 0

-- The operators that pop two words and push one; `a` is the lower.
unfoldable pub binary : (ℕ → ℕ → ℕ) → Action Vm VmError (Unit {0})
binary f = do (a, b) ← pop2; push (f a b)

unfoldable pub unary : (ℕ → ℕ) → Action Vm VmError (Unit {0})
unary f = do a ← pop; push (f a)

-- `DIV` and `MOD`
unfoldable pub checked : (ℕ → ℕ → ℕ) → Action Vm VmError (Unit {0})
checked f = do (a, b) ← pop2; raise_if (b == 0) div_by_zero; push (f a b)

unfoldable pub swap_top : Action Vm VmError (Unit {0})
swap_top s = elim s.stack [
  | [] ↦ (err stack_underflow, s)
  | a ∷ rest ↦ elim rest [
    | [] ↦ (err stack_underflow, s)
    | b ∷ deeper ↦ (ok tt, record s { stack = b ∷ a ∷ deeper })
  ]
]

-- `self.stack.last()`
unfoldable pub top : Action Vm VmError ℕ
top s = elim s.stack [ [] ↦ (err stack_underflow, s) | v ∷ rest ↦ (ok v, s) ]

-- `code[start..start + n]` as a big-endian number, after what was read.
unfoldable pub read_be : ℕ → ℕ → ℕ → List ℕ → ℕ
read_be zero skip acc code = acc
read_be (suc n) skip acc code =
    let byte = elim (get_elem? code skip) as (λ _. ℕ) [ none ↦ 0 | some b ↦ b ] in
    read_be n (skip + 1) (acc * 256 + byte) code

unfoldable pub is_jumpdest : List ℕ → ℕ → Bool
is_jumpdest code dest = elim (get_elem? code dest) [ none ↦ false | some b ↦ b == 0x5b ]

-- How an instruction ends: the counter advances, it was set, or the run is over.
pub data Signal : Type 0 where
  advance moved : Signal
  over : Option ℕ → Signal

module _ (code : List ℕ) (ctx : ExecContext) where
  unfoldable pub jump_to : ℕ → Action Vm VmError (Unit {0})
  jump_to dest s =
      if not (is_jumpdest code dest)
      then (err (invalid_jump dest), s)
      else (ok tt, record s { pc = dest })

  unfoldable pub push8 : Action Vm VmError (Unit {0})
  push8 = do
    start ← gets (λ s. s.pc + 1)
    raise_if (ltb (length code) (start + 8)) truncated_operand
    push (read_be 8 start 0 code)
    λ s. (ok tt, record s { pc = start + 8 })

  unfoldable pub sstore : Action Vm VmError (Unit {0})
  sstore = do
    key ← pop
    val ← pop
    λ s. (ok tt, record s { storage = Entries.insert key val s.storage })

  unfoldable pub jumpi : Action Vm VmError Signal
  jumpi = do
    dest ← pop
    test ← pop
    if not (test == 0) then (do jump_to dest; pure moved) else pure advance

  -- The arms of the `match op` in `run`.
  unfoldable pub execute : Op → Action Vm VmError Signal
  execute op_stop = pure (over none)
  execute op_add = binary (λ a b. (a + b) % u64_mod) >> pure advance
  execute op_sub = binary (λ a b. (a + u64_mod - b) % u64_mod) >> pure advance
  execute op_mul = binary (λ a b. a * b % u64_mod) >> pure advance
  execute op_div = checked ◌/◌ >> pure advance
  execute op_mod = checked ◌%◌ >> pure advance
  execute op_lt = binary (λ a b. as_u64 (ltb a b)) >> pure advance
  execute op_gt = binary (λ a b. as_u64 (ltb b a)) >> pure advance
  execute op_eq = binary (λ a b. as_u64 (a == b)) >> pure advance
  execute op_iszero = unary (λ a. as_u64 (a == 0)) >> pure advance
  execute op_and = binary bit_and >> pure advance
  execute op_or = binary bit_or >> pure advance
  execute op_not = unary (λ a. u64_mod - 1 - a) >> pure advance
  execute op_pop = pop >> pure advance
  execute op_dup = (do v ← top; push v) >> pure advance
  execute op_swap = swap_top >> pure advance
  execute op_push8 = push8 >> pure moved
  execute op_sload =
      (do
        key ← pop
        v ← gets (λ s. elim (Entries.get key s.storage) as (λ _. ℕ) [ none ↦ 0 | some w ↦ w ])
        push v)
      >> pure advance
  execute op_sstore = sstore >> pure advance
  execute op_jump = (do dest ← pop; jump_to dest) >> pure moved
  execute op_jumpi = jumpi
  execute op_jumpdest = pure advance
  execute op_caller = push ctx.caller_hash >> pure advance
  execute op_callvalue = push ctx.call_value >> pure advance
  execute op_arg =
      unary (λ i. elim (get_elem? ctx.args i) as (λ _. ℕ) [ none ↦ 0 | some v ↦ v ]) >> pure advance
  execute op_log =
      (do v ← pop; λ s. (ok tt, record s { logs = s.logs ++ (v ∷ []) })) >> pure advance
  execute op_return = do v ← pop; pure (over (some v))
  execute op_revert = raise (with_revert (lit "REVERT opcode"))
  execute (op_other byte) = raise (invalid_opcode byte)

unfoldable pub finish : Option ℕ → Vm → ExecResult
finish return_value s = record {
  return_value = return_value;
  gas_used = s.gas;
  logs = s.logs;
  reverted = false;
}

-- How a run ends: with an error of the machine, or without fuel, which the source does not have.
pub data Halt : Type 0 where
  failed : VmError → Halt
  unfinished : Halt

-- What the loop does with an instruction that is done.
unfoldable pub after :
    Action Vm Halt ExecResult → Result VmError Signal × Vm → Result Halt ExecResult × Vm
after again (err e, s) = (err (failed e), s)
after again (ok advance, s) = again (record s { pc = s.pc + 1 })
after again (ok moved, s) = again s
after again (ok (over v), s) = (ok (finish v s), s)

module _ (code : List ℕ) (gas_limit : ℕ) (ctx : ExecContext) where
  -- One instruction, with its charge.
  unfoldable pub tick : ℕ → Action Vm VmError Signal
  tick byte = do charge gas_limit (opcode_gas (opcode byte)); execute code ctx (opcode byte)

  -- The `loop` of `run`, on fuel.
  unfoldable pub run_loop : ℕ → Action Vm Halt ExecResult
  unfolding after
  run_loop zero s = (err unfinished, s)
  run_loop (suc fuel) s = elim (get_elem? code s.pc) [
    | none ↦ (ok (finish none s), s)
    | some byte ↦ after (run_loop fuel) (tick byte s)
  ]

  -- Each round takes a unit of gas at least.
  unfoldable pub run : Action Vm Halt ExecResult
  run = run_loop (gas_limit + 2)
