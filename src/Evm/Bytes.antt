-- ===== src/Evm/Bytes.antt =====
-- Bytes, the most significant first (evm/src/rlp.rs and evm/src/u256.rs).
use mathlib.Core.List.{reverse-cons}
use veilux_binary.Base.{
  ℕ, zero, suc, ◌+◌, ◌-◌, ◌*◌, ◌/◌, ◌%◌, ◌≡◌, ◌≤◌, ◌<◌, refl, ◌∙◌, sym, [], ◌∷◌, ◌++◌, Text, arith,
  u64_mod, length, length-append, reverse,
}
use veilux_binary.Kernel.Hash.{le_bytes, be_bytes}
use veilux_binary.Kernel.Hash.Framing.{length-le_bytes}

-- `v = (v << 8) | b` over the bytes, in 64 bits.
unfoldable pub be_value : ℕ → Text → ℕ
be_value acc [] = acc
be_value acc (b ∷ bs) = be_value ((acc * 256 + b) % u64_mod) bs

abbrev pub take : ℕ → Text → Text
take zero bs = []
take (suc n) [] = []
take (suc n) (b ∷ bs) = b ∷ take n bs

abbrev pub drop : ℕ → Text → Text
drop zero bs = bs
drop (suc n) [] = []
drop (suc n) (b ∷ bs) = drop n bs

pub length-take : (n : ℕ) (t : Text) → n ≤ length t → length (take n t) ≡ n
length-take zero t h = refl
length-take (suc n) [] h = absurd (omega arith)
length-take (suc n) (b ∷ t) h = omega (arith, length-take n t (omega arith))

pub length-drop : (n : ℕ) (t : Text) → length (drop n t) ≡ length t - n
length-drop zero t = omega arith
length-drop (suc n) [] = omega arith
length-drop (suc n) (b ∷ t) = omega (arith, length-drop n t)

be_value-append :
    (acc : ℕ) (xs : Text) (b : ℕ)
    → be_value acc (xs ++ (b ∷ [])) ≡ (be_value acc xs * 256 + b) % u64_mod
unfolding be_value
be_value-append acc [] b = refl
be_value-append acc (x ∷ xs) b = be_value-append ((acc * 256 + x) % u64_mod) xs b

abbrev pub Digits : ℕ → ℕ → Type 0
Digits zero n = n ≡ 0
Digits (suc k) n = Digits k (n / 256)

pub be_value-be_bytes : (k n : ℕ) → Digits k n → n < u64_mod → be_value 0 (be_bytes k n) ≡ n
unfolding be_bytes le_bytes
be_value-be_bytes zero n d h = unfold be_value in sym d
be_value-be_bytes (suc k) n d h = rw (reverse-cons (n % 256) (le_bytes k (n / 256))) (
    be_value-append 0 (be_bytes k (n / 256)) (n % 256)
    ∙ omega (arith, be_value-be_bytes k (n / 256) d (omega arith)))

pub length-reverse_lem : (bs : Text) → length (reverse bs) ≡ length bs
length-reverse_lem [] = refl
length-reverse_lem (b ∷ bs) =
    rw (reverse-cons b bs)
      (omega (arith, length-append {0} (reverse bs) (b ∷ []), length-reverse_lem bs))

pub length-be_bytes : (k n : ℕ) → length (be_bytes k n) ≡ k
unfolding be_bytes
length-be_bytes k n = length-reverse_lem (le_bytes k n) ∙ length-le_bytes k n
