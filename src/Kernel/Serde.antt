-- ===== src/Kernel/Serde.antt =====
-- `serde_json`, a third-party crate: how values of one type become bytes and come back.
use veilux_binary.Base.{Text, Result, ok, err, [], ◌≡◌}

pub record Serde (T : Type 0) : Type 0 where
  -- `serde_json::to_vec`, with the message of its error
  pub to_vec : T → Result Text Text
  -- `serde_json::from_slice`
  pub from_slice : Text → Result Text T

-- What the code relies on where it stores a value and reads it again: the value is written without
-- an error, and what was written reads back as it.
pub record RoundTrips {T : Type 0} (c : Serde T) : Type 0 where
  pub bytes : T → Text
  pub writes : (v : T) → c.to_vec v ≡ ok (bytes v)
  pub reads : (v : T) → c.from_slice (bytes v) ≡ ok v

-- `to_vec(..).unwrap_or_default()`
unfoldable pub to_vec_or_default : {T : Type 0} → Serde T → T → Text
to_vec_or_default c v = elim (c.to_vec v) [ ok b ↦ b | err e ↦ [] ]
