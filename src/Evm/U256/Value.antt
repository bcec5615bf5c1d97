-- ===== src/Evm/U256/Value.antt =====
-- The number that a word stands for (evm/src/u256.rs).
use veilux_binary.Base.{ℕ, ◌+◌, ◌*◌, ◌≡◌, ◌<◌, refl, [], ◌∷◌, All, length, arith, u64_mod}
use veilux_binary.Evm.U256.{U256}

abbrev pub value : U256 → ℕ
value [] = 0
value (w ∷ ws) = w + u64_mod * value ws

-- What the limb behind the word stands for.
abbrev pub scale : U256 → ℕ
scale [] = 1
scale (w ∷ ws) = u64_mod * scale ws

abbrev pub Limbs : U256 → Type 0
Limbs = All (λ w. w < u64_mod)

pub record IsU256 (a : U256) : Type 0 where
  pub four : length a ≡ 4
  pub limbs : Limbs a

pub value-lt : (a : U256) → Limbs a → value a < scale a
value-lt [] h = omega arith
value-lt (w ∷ ws) h = omega (arith, value-lt ws h.1, h.0)

pub scale-length : (a b : U256) → length a ≡ length b → scale a ≡ scale b
scale-length [] [] e = refl
scale-length [] (b ∷ bs) e = absurd (omega arith)
scale-length (a ∷ as_) [] e = absurd (omega arith)
scale-length (a ∷ as_) (b ∷ bs) e = omega (arith, scale-length as_ bs (omega arith))
