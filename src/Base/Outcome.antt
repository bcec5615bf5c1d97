-- ===== src/Base/Outcome.antt =====
-- Rust's `Result`, and code that reads and writes a state and may return early with an error: what
-- was written before the error stays written, as through a `&mut` argument.
use mathlib.Core.Path.{◌≡◌, refl, subst}
use mathlib.Core.Logic.{◌⊎◌, inl, inr}
use mathlib.Core.Bool.{Bool}
use mathlib.Core.Option.{Option, none, some}
use veilux_binary.Base.Tests.{if◌then◌else◌}

pub data Result (E A : Type 0) : Type 0 where
  ok : A → Result E A
  err : E → Result E A

-- `and_then`, or `?` in code without a state
abbrev pub and_then : {E A B : Type 0} → Result E A → (A → Result E B) → Result E B
and_then (ok a) f = f a
and_then (err e) f = err e

pub Result-cases :
    {E A : Type 0} (r : Result E A) → ((a : A) × (r ≡ ok a)) ⊎ ((e : E) × (r ≡ err e))
Result-cases (ok a) = inl (a, refl)
Result-cases (err e) = inr (e, refl)

abbrev pub Action : Type 0 → Type 0 → Type 0 → Type 0
Action S E A = S → Result E A × S

module _ {S E A : Type 0} where
  abbrev pub pure : A → Action S E A
  pure a s = (ok a, s)

  abbrev pub raise : E → Action S E A
  raise e s = (err e, s)

  abbrev pub gets : (S → A) → Action S E A
  gets f s = (ok (f s), s)

  -- `result?`
  abbrev pub lift : Result E A → Action S E A
  lift r s = (r, s)

  -- `option.ok_or(e)?`
  abbrev pub or_raise : Option A → E → Action S E A
  or_raise none e s = (err e, s)
  or_raise (some a) e s = (ok a, s)

infixl 5 ◌>>=◌ ◌>>◌
abbrev pub ◌>>=◌ : {S E A B : Type 0} → Action S E A → (A → Action S E B) → Action S E B
◌>>=◌ m f s = let (r, s') = m s in elim r [ ok a ↦ f a s' | err e ↦ (err e, s') ]

abbrev pub ◌>>◌ : {S E A B : Type 0} → Action S E A → Action S E B → Action S E B
m >> k = m >>= λ _. k

-- `if test { return Err(e) }`
abbrev pub raise_if : {S E : Type 0} → Bool → E → Action S E (Unit {0})
raise_if c e s = (if c then err e else ok tt, s)

-- What holds of `m >>= f`: of an error of `m`, and of `f` from where `m` ended.
pub bind_cases :
    {S E A B : Type 0} (Q : Result E B × S → Type 0) (m : Action S E A) (f : A → Action S E B)
    (s : S)
    → ((e : E) (s' : S) → m s ≡ (err e, s') → Q (err e, s'))
    → ((a : A) (s' : S) → m s ≡ (ok a, s') → Q (f a s'))
    → Q ((m >>= f) s)
bind_cases {S} {E} {A} {B} Q m f s on_err on_ok = go (m s) refl
  where
    go : (r : Result E A × S) → m s ≡ r → Q (elim r.0 [ ok a ↦ f a r.1 | err e ↦ (err e, r.1) ])
    go (ok a, s') e = on_ok a s' e
    go (err e', s') e = on_err e' s' e

-- `m` keeps `P`, however it ends.
abbrev pub Keeps : {S E A : Type 0} → (S → Type 0) → Action S E A → Type 0
Keeps {S} P m = (s : S) → P s → P (m s).1

pub Keeps-bind :
    {S E A B : Type 0} (P : S → Type 0) (m : Action S E A) (f : A → Action S E B)
    → Keeps P m
    → ((a : A) → Keeps P (f a))
    → Keeps P (m >>= f)
Keeps-bind P m f km kf s h =
    bind_cases (λ r. P r.1) m f s (λ e s' eq. subst (λ (r : Result _ _ × _). P r.1) eq (km s h))
      (λ a s' eq. kf a s' (subst (λ (r : Result _ _ × _). P r.1) eq (km s h)))
