-- ===== src/Contract/Handle.antt =====
-- The commands of the contract prism (prisms/contract/src/lib.rs).
use veilux_binary.Base.{
  ℕ, ◌+◌, ◌*◌, min, true, false, Option, none, some, List, [], ◌∷◌, ◌++◌, Text, lit, Result, ok,
  err, Action, pure, gets, or_raise, raise_if, ◌>>=◌, ◌>>◌, ltb, length, to_decimal,
}
use veilux_binary.Base.Map.{Map}
use veilux_binary.Kernel.Hash.{Crates, Hash, commit, to_hex, le_bytes}
use veilux_binary.Kernel.Types.{Command, Event, command_id, id_hash}
use veilux_binary.Kernel.Serde.{to_vec_or_default}
use veilux_binary.Kernel.State.{StateTree, StateError, get_json, put_json}
use veilux_binary.Kernel.Prism.{
  Prism, PrismError, PrismOutput, invalid_payload, limit_exceeded, not_found, or_internal, single,
}
use veilux_binary.Contract.Types.{
  ContractCommand, ContractEvent, ContractSerde, deploy, call, deployed, called,
}
use veilux_binary.Contract.Vm.{Vm, Halt, ExecContext, ExecResult, new_vm, run, read_be}

abbrev pub max_code_size : ℕ
max_code_size = 49_152

-- The cap of a call's gas.
abbrev pub gas_cap : ℕ
gas_cap = 10_000_000

unfoldable pub code_key : Crates → Hash → Text
code_key x addr = lit "contract/code/" ++ to_hex x addr

unfoldable pub store_key : Crates → Hash → Text
store_key x addr = lit "contract/store/" ++ to_hex x addr

-- `.ok().flatten().unwrap_or_default()`
abbrev or_empty : Result StateError (Option (Map ℕ ℕ)) → Map ℕ ℕ
or_empty (ok (some m)) = m
or_empty (ok none) = []
or_empty (err e) = []

-- `seed` is the random seed of the `HashMap` that holds the storage during a call.
module _ (x : Crates) (c : ContractSerde) (seed : ℕ) where
  unfoldable pub load_storage : Hash → StateTree → Map ℕ ℕ
  load_storage addr s = or_empty (get_json (c.storage seed) (store_key x addr) s)

  unfoldable pub event : Command → ContractEvent → Event
  event cmd payload = record {
    source_command = command_id x cmd;
    prism = lit "contract";
    visibility = cmd.visibility;
    payload = to_vec_or_default c.event payload;
  }

  unfoldable pub handle_deploy : Command → List ℕ → Action StateTree PrismError PrismOutput
  handle_deploy cmd code = do
    raise_if (ltb max_code_size (length code)) (
        limit_exceeded (
          lit "code size "
          ++ (to_decimal (length code) ++ (lit " exceeds max " ++ to_decimal max_code_size))))
    let address =
        commit x (lit "contract/address") (cmd.submitter ∷ le_bytes 8 cmd.nonce ∷ code ∷ [])
    or_internal (
        put_json c.meta (code_key x address) (record {
          address = address;
          deployer = cmd.submitter;
          code = code;
          code_size = length code;
        }))
    pure (single (event cmd (deployed address (length code))) (32_000 + length code * 200))

  -- The context of a call; the caller is the first eight bytes of the hash of its name.
  unfoldable pub context : Command → List ℕ → ℕ → ExecContext
  context cmd args value = record {
    caller_hash = read_be 8 0 0 (id_hash x cmd.submitter);
    call_value = value;
    args = args;
  }

  -- The `match result`.
  unfoldable pub settle_call :
      Command → Hash → ℕ → Result Halt ExecResult × Vm → Action StateTree PrismError PrismOutput
  settle_call cmd address capped (ok exec, vm) = do
    or_internal (put_json (c.storage seed) (store_key x address) vm.storage)
    pure (
        single (event cmd (called address exec.return_value exec.gas_used exec.logs false))
          exec.gas_used)
  settle_call cmd address capped (err halt, vm) =
      pure (single (event cmd (called address none capped [] true)) 500)

  unfoldable pub handle_call :
      Command → Hash → List ℕ → ℕ → ℕ → Action StateTree PrismError PrismOutput
  handle_call cmd address args value gas_limit = do
    found ← or_internal (λ s. (get_json c.meta (code_key x address) s, s))
    meta ← or_raise found (not_found (lit "contract " ++ to_hex x address))
    storage ← gets (load_storage address)
    let capped = min gas_limit gas_cap
    settle_call cmd address capped (run meta.code capped (context cmd args value) (new_vm storage))

  unfoldable pub dispatch : Command → ContractCommand → Action StateTree PrismError PrismOutput
  dispatch cmd (deploy code) = handle_deploy cmd code
  dispatch cmd (call address args value gas_limit) = handle_call cmd address args value gas_limit

  unfoldable pub handle : Command → Action StateTree PrismError PrismOutput
  handle command s = elim (c.command.from_slice command.payload) [
    | ok cmd ↦ dispatch command cmd s
    | err e ↦ (err (invalid_payload e), s)
  ]

  unfoldable pub estimate : Command → StateTree → ℕ
  estimate command state = elim (c.command.from_slice command.payload) [
    | ok (deploy code) ↦ 32_000 + length code * 200
    | ok (call address args value gas_limit) ↦ min gas_limit 100_000
    | err e ↦ 1000
  ]

  unfoldable pub contract_prism : Prism
  contract_prism = record {
    info = record {
      name = lit "contract";
      description = lit "PhotonVM: deterministic stack-based smart contract execution";
      version = lit "1.0";
    };
    handle = handle;
    estimate = estimate;
  }
