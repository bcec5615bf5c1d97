-- ===== src/Kernel/Cascade.antt =====
-- The pipeline that runs a command and the commands derived from it (kernel/src/cascade.rs).
pub mod Laws
pub mod Queue
pub mod Runs
use veilux_binary.Base.{
  ℕ, zero, suc, ◌+◌, ◌%◌, Bool, Option, none, some, List, [], ◌∷◌, ◌++◌, Text, Result, ok, err,
  Action, pure, raise, gets, or_raise, ◌>>=◌, ◌>>◌, if◌then◌else◌, u64_mod,
}
use veilux_binary.Base.Order.{text_ord}
use veilux_binary.Base.Map.{Map, get, insert, contains_key}
use veilux_binary.Kernel.Types.{Command, Event}
use veilux_binary.Kernel.State.{StateTree}
use veilux_binary.Kernel.Prism.{Prism, PrismError, PrismInfo, PrismOutput}

abbrev pub max_cascade_depth : ℕ
max_cascade_depth = 8

pub data CascadeError : Type 0 where
  unknown_prism : Text → CascadeError
  depth_exceeded : ℕ → CascadeError
  from_prism : PrismError → CascadeError

pub record CascadeReceipt : Type 0 where
  pub events : List Event
  pub total_cost : ℕ
  pub depth : ℕ

pub record Cascade : Type 0 where
  pub prisms : Map Text Prism
  pub order : List Text

unfoldable pub new : Cascade
new = record { prisms = []; order = [] }

unfoldable pub has : Cascade → Text → Bool
has c name = contains_key name c.prisms

unfoldable pub install : Prism → Cascade → Cascade
install prism c = record {
  prisms = insert prism.info.name prism c.prisms;
  order =
      if contains_key prism.info.name c.prisms then c.order else c.order ++ (prism.info.name ∷ []);
}

-- `order.iter().filter_map(|n| prisms.get(n)).map(|p| p.info())`
unfoldable pub infos : List Text → Map Text Prism → List PrismInfo
infos [] prisms = []
infos (n ∷ ns) prisms = elim (get n prisms) [
  | none ↦ infos ns prisms
  | some p ↦ p.info ∷ infos ns prisms
]

unfoldable pub installed : Cascade → List PrismInfo
unfolding infos
installed c = infos c.order c.prisms

unfoldable pub estimate : Cascade → Command → StateTree → Result CascadeError ℕ
estimate c command state = elim (get command.prism c.prisms) [
  | none ↦ err (unknown_prism command.prism)
  | some prism ↦ ok (prism.estimate command state)
]

-- `prism.handle(&cmd, state)?`, with the `From` conversion of the error.
unfoldable pub handle : Prism → Command → Action StateTree CascadeError PrismOutput
handle prism cmd s =
    let (r, s') = prism.handle cmd s in
    elim r [ ok out ↦ (ok out, s') | err e ↦ (err (from_prism e), s') ]

-- The body of the `for` loop: the output of one command.
unfoldable pub run_command : Cascade → Command → Action StateTree CascadeError PrismOutput
unfolding handle
run_command c cmd = do
  prism ← or_raise (get cmd.prism c.prisms) (unknown_prism cmd.prism)
  handle prism cmd

-- The release build wraps on overflow of `total_cost`.
unfoldable pub add_output : PrismOutput → CascadeReceipt → CascadeReceipt
add_output out r = record r {
  events = r.events ++ out.events;
  total_cost = (r.total_cost + out.cost) % u64_mod;
}

-- `for cmd in frontier.drain(..)`, with the receipt and the next frontier so far.
unfoldable pub run_frontier :
    Cascade
    → List Command
    → CascadeReceipt × List Command
    → Action StateTree CascadeError (CascadeReceipt × List Command)
run_frontier c [] acc = pure acc
run_frontier c (cmd ∷ cmds) (receipt, next) = do
  out ← run_command c cmd
  run_frontier c cmds (add_output out receipt, next ++ out.derived_commands)

-- `while !frontier.is_empty()`, by the rounds that are left below the limit.
unfoldable pub run_rounds :
    Cascade → ℕ → List Command → CascadeReceipt → ℕ → Action StateTree CascadeError CascadeReceipt
run_rounds c rounds [] receipt depth = pure (record receipt { depth = depth })
run_rounds c zero (cmd ∷ cmds) receipt depth = raise (depth_exceeded max_cascade_depth)
run_rounds c (suc rounds) (cmd ∷ cmds) receipt depth = do
  (receipt', next) ← run_frontier c (cmd ∷ cmds) (receipt, [])
  run_rounds c rounds next receipt' (depth + 1)

unfoldable pub apply : Cascade → Command → Action StateTree CascadeError CascadeReceipt
unfolding run_rounds run_frontier run_command
apply c command =
    run_rounds c max_cascade_depth (command ∷ [])
      (record { events = []; total_cost = 0; depth = 0 }) 0
