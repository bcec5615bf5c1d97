-- ===== src/Contract/Calls.antt =====
-- What a call of a contract may change (prisms/contract/src/lib.rs).
use veilux_binary.Base.{
  ℕ, ◌≡◌, ◌≤◌, refl, ◌∙◌, min, false, some, List, Text, Result, ok, err, arith,
}
use veilux_binary.Base.Order.{same, text_ord}
use veilux_binary.Kernel.Hash.{Crates, Hash}
use veilux_binary.Kernel.Types.{Command}
use veilux_binary.Kernel.State.{StateTree, get, put, get_json}
use veilux_binary.Kernel.State.Laws.{get-put}
use veilux_binary.Kernel.Prism.{PrismError, PrismOutput, single}
use veilux_binary.Kernel.Prism.Laws.{or_internal-put_json, or_internal-get_json}
use veilux_binary.Contract.Types.{ContractMeta, ContractSerde, ContractRoundTrips, called}
use veilux_binary.Contract.Vm.{Vm, Halt, ExecResult, run, new_vm, failed, unfinished}
use veilux_binary.Contract.Vm.Gas.{Ends, run-Ends}
use veilux_binary.Contract.Handle.{
  code_key, store_key, gas_cap, load_storage, context, event, settle_call, handle_call,
}

-- An output within the cap, and a state that differs at most in one entry.
abbrev pub IsConfined : Text → StateTree → Result PrismError PrismOutput × StateTree → Type 0
IsConfined key s (ok out, t) =
    (out.cost ≤ gas_cap) × ((k : Text) → same k key ≡ false → get k t ≡ get k s)
IsConfined key s (err e, t) = ⊥

module _ (x : Crates) (c : ContractSerde) (r : ContractRoundTrips c) (seed : ℕ) where
  settle_call-ok :
      (cmd : Command) (address : Hash) (capped : ℕ) (exec : ExecResult) (vm : Vm) (s : StateTree)
      → settle_call x c seed cmd address capped (ok exec, vm) s ≡ (
        ok (
            single
              (event x c seed cmd (called address exec.return_value exec.gas_used exec.logs false))
              exec.gas_used),
        put (store_key x address) ((r.storage seed).bytes vm.storage) s,
      )
  unfolding settle_call
  settle_call-ok cmd address capped exec vm s = ground (
    arith,
    or_internal-put_json (c.storage seed) (r.storage seed) (store_key x address) vm.storage s,
  )

  settle_call-IsConfined :
      (cmd : Command) (address : Hash) (capped : ℕ) (outcome : Result Halt ExecResult × Vm)
      (s : StateTree)
      → capped ≤ gas_cap
      → Ends capped outcome
      → IsConfined (store_key x address) s (settle_call x c seed cmd address capped outcome s)
  unfolding settle_call single
  settle_call-IsConfined cmd address capped (ok exec, vm) s le e =
      rw (settle_call-ok cmd address capped exec vm s)
        (omega (arith, e.0), λ k n. get-put (store_key x address) k _ s ∙ rw n refl)
  settle_call-IsConfined cmd address capped (err (failed e), vm) s le h = (omega arith, λ k n. refl)
  settle_call-IsConfined cmd address capped (err unfinished, vm) s le h = absurd h

  -- The machine run of a call.
  abbrev called_run :
      Command → Hash → List ℕ → ℕ → ℕ → ContractMeta → StateTree → Result Halt ExecResult × Vm
  called_run cmd address args value gas_limit meta s =
      run meta.code (min gas_limit gas_cap) (context x c seed cmd args value)
        (new_vm (load_storage x c seed address s))

  handle_call-settles :
      (cmd : Command) (address : Hash) (args : List ℕ) (value gas_limit : ℕ) (meta : ContractMeta)
      (s : StateTree)
      → get_json c.meta (code_key x address) s ≡ ok (some meta)
      → handle_call x c seed cmd address args value gas_limit s
        ≡ settle_call x c seed cmd address
            (min gas_limit gas_cap)
            (called_run cmd address args value gas_limit meta s)
            s
  unfolding handle_call
  handle_call-settles cmd address args value gas_limit meta s e =
      ground (arith, or_internal-get_json c.meta (code_key x address) (some meta) s e)

  -- A call of a contract that is there succeeds, whatever its code does and however it fails, and
  -- costs at most the cap; of the whole state only the storage of that contract may change.
  pub handle_call-IsConfined :
      (cmd : Command) (address : Hash) (args : List ℕ) (value gas_limit : ℕ) (meta : ContractMeta)
      (s : StateTree)
      → get_json c.meta (code_key x address) s ≡ ok (some meta)
      → IsConfined (store_key x address) s (handle_call x c seed cmd address args value gas_limit s)
  handle_call-IsConfined cmd address args value gas_limit meta s e =
      rw (handle_call-settles cmd address args value gas_limit meta s e) (
        settle_call-IsConfined cmd address (min gas_limit gas_cap)
          (called_run cmd address args value gas_limit meta s) s (omega arith)
          (run-Ends meta.code (min gas_limit gas_cap) (context x c seed cmd args value)
            (load_storage x c seed address s) (omega arith)))
