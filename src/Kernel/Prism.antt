-- ===== src/Kernel/Prism.antt =====
-- The extension trait and its errors (kernel/src/prism.rs).
pub mod Laws
use veilux_binary.Base.{ℕ, List, [], ◌∷◌, Text, ok, err, Action}
use veilux_binary.Kernel.Types.{Command, Event}
use veilux_binary.Kernel.State.{StateTree, StateError, state_error_text}

-- Each with its message.
pub data PrismError : Type 0 where
  invalid_payload unauthorized limit_exceeded not_found internal : Text → PrismError

pub record PrismInfo : Type 0 where
  pub name : Text
  pub description : Text
  pub version : Text

pub record PrismOutput : Type 0 where
  pub events : List Event
  pub derived_commands : List Command
  pub cost : ℕ

unfoldable pub single : Event → ℕ → PrismOutput
single event cost = record { events = event ∷ []; derived_commands = []; cost = cost }

-- `trait Prism`; `handle` writes the state through a `&mut` argument.
pub record Prism : Type 0 where
  pub info : PrismInfo
  pub handle : Command → Action StateTree PrismError PrismOutput
  pub estimate : Command → StateTree → ℕ

-- The default of `Prism::estimate`.
unfoldable pub default_estimate : Command → StateTree → ℕ
default_estimate command state = 1000

-- `map_err(|e| PrismError::Internal(e.to_string()))`
unfoldable pub or_internal :
    {A : Type 0} → Action StateTree StateError A → Action StateTree PrismError A
or_internal m s =
    let (r, s') = m s in
    elim r [ ok a ↦ (ok a, s') | err e ↦ (err (internal (state_error_text e)), s') ]
