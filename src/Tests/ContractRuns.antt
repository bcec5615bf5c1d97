-- ===== src/Tests/ContractRuns.antt =====
-- The theorems on the contract prism at a loop that never stops by itself.
use veilux_binary.Base.{ℕ, ◌≡◌, refl, some, List, [], ◌∷◌, Text, lit, ok, arith}
use veilux_binary.Base.Map as Entries
use veilux_binary.Base.Map.{Map}
use veilux_binary.Base.Order.{text_cmp}
use veilux_binary.Kernel.Hash.{Hash, to_hex}
use veilux_binary.Kernel.State.{StateTree, put, get_json, new}
use veilux_binary.Kernel.State as Tree
use veilux_binary.Contract.Vm.{ExecContext, new_vm, run}
use veilux_binary.Contract.Vm.Gas.{Ends, run-Ends}
use veilux_binary.Contract.Types.{ContractMeta, ContractSerde, ContractRoundTrips}
use veilux_binary.Contract.Handle.{code_key, store_key, handle_call}
use veilux_binary.Contract.Calls.{IsConfined, handle_call-IsConfined}
use veilux_binary.Tests.Codec.{Code, pair, list, text, number, serde, round_trips}
use veilux_binary.Tests.World.{crates, silent, alice, order}

-- Push 0, jump there.
abbrev forever : List ℕ
forever = 0x5b ∷ 0x60 ∷ 0 ∷ 0 ∷ 0 ∷ 0 ∷ 0 ∷ 0 ∷ 0 ∷ 0 ∷ 0x56 ∷ []

abbrev ctx : ExecContext
ctx = record { caller_hash = 5; call_value = 2; args = 3 ∷ [] }

run-Ends_example : Ends 100 (run forever 100 ctx (new_vm []))
run-Ends_example = run-Ends forever 100 ctx [] (omega arith)

abbrev place : Hash
place = 6 ∷ []

abbrev deployed_meta : ContractMeta
deployed_meta = record { address = place; deployer = alice; code = forever; code_size = 11 }

abbrev meta_code : Code (Text × (Text × (List ℕ × ℕ)))
meta_code = pair text (pair text (pair (list number) number))

abbrev to_meta : Text × (Text × (List ℕ × ℕ)) → ContractMeta
to_meta (a, (b, (c, d))) = record { address = a; deployer = b; code = c; code_size = d }

abbrev of_meta : ContractMeta → Text × (Text × (List ℕ × ℕ))
of_meta m = (m.address, (m.deployer, (m.code, m.code_size)))

abbrev contracts : ContractSerde
contracts = record {
  meta = serde meta_code to_meta of_meta (λ m. refl);
  storage = λ seed. serde (list (pair number number)) (λ m. m) (λ m. m) (λ m. refl);
  command = silent;
  event = silent;
}

abbrev contracts_read : ContractRoundTrips contracts
contracts_read = record {
  meta = round_trips meta_code to_meta of_meta (λ m. refl);
  storage = λ seed. round_trips (list (pair number number)) (λ m. m) (λ m. m) (λ m. refl);
}

abbrev chain : StateTree
chain = put (code_key crates place) ((contracts_read.meta).bytes deployed_meta) new

chain-meta : get_json contracts.meta (code_key crates place) chain ≡ ok (some deployed_meta)
unfolding get_json code_key Tree.get Tree.put Entries.get Entries.insert to_hex text_cmp new lit
chain-meta = refl

handle_call-IsConfined_example :
    IsConfined
      (store_key crates place)
      chain
      (handle_call crates contracts 0 (order alice) place (3 ∷ []) 2 500 chain)
handle_call-IsConfined_example =
    handle_call-IsConfined crates contracts contracts_read 0 (order alice) place (3 ∷ []) 2 500
      deployed_meta chain chain-meta
