-- ===== src/Kernel/Hash/Framing.antt =====
-- The bytes that `Hash::commit` feeds to BLAKE3 determine the domain and the parts
-- (kernel/src/crypto.rs).
use veilux_binary.Base.{
  ℕ, zero, suc, ◌/◌, ◌%◌, ◌<◌, List, [], ◌∷◌, ◌++◌, Text, length, All, ◌≡◌, ◌≢◌, refl, ap, ap₂,
  arith, u64_mod, append_injective, separator_injective,
}
use veilux_binary.Kernel.Hash.{le_bytes, frame, commit_input}

digits_eq : (m n : ℕ) → m % 256 ≡ n % 256 → m / 256 ≡ n / 256 → m ≡ n
digits_eq m n h k = omega arith

-- `n` has at most `k` digits to the base 256.
abbrev Fits : ℕ → ℕ → Type 0
Fits zero n = n ≡ 0
Fits (suc k) n = Fits k (n / 256)

le_bytes-injective : (k m n : ℕ) → Fits k m → Fits k n → le_bytes k m ≡ le_bytes k n → m ≡ n
unfolding le_bytes
le_bytes-injective zero m n hm hn e = omega arith
le_bytes-injective (suc k) m n hm hn e =
    digits_eq m n (cc) (le_bytes-injective k (m / 256) (n / 256) hm hn (cc))

pub length-le_bytes : (k n : ℕ) → length (le_bytes k n) ≡ k
unfolding le_bytes
length-le_bytes zero n = refl
length-le_bytes (suc k) n = ap suc (length-le_bytes k (n / 256))

pub le_bytes8-injective :
    (m n : ℕ) → m < u64_mod → n < u64_mod → le_bytes 8 m ≡ le_bytes 8 n → m ≡ n
le_bytes8-injective m n hm hn = le_bytes-injective 8 m n (omega arith) (omega arith)

-- A part whose length is a `u64`.
abbrev pub IsPart : Text → Type 0
IsPart p = length p < u64_mod

part-Fits : (p : Text) → IsPart p → Fits 8 (length p)
part-Fits p h = omega arith

frame-injective :
    (ps qs : List Text) → All IsPart ps → All IsPart qs → frame ps ≡ frame qs → ps ≡ qs
unfolding frame
frame-injective [] [] hp hq e = refl
frame-injective [] (q ∷ qs) hp hq e = unfold le_bytes in cc
frame-injective (p ∷ ps) [] hp hq e = unfold le_bytes in cc
frame-injective (p ∷ ps) (q ∷ qs) hp hq e =
    let heads =
      append_injective (le_bytes 8 (length p)) (le_bytes 8 (length q)) (p ++ frame ps)
        (q ++ frame qs) (omega (arith, length-le_bytes 8 (length p), length-le_bytes 8 (length q)))
        e in
    let lengths =
      le_bytes-injective 8 (length p) (length q) (part-Fits p hp.0) (part-Fits q hq.0) heads.0 in
    let parts = append_injective p q (frame ps) (frame qs) lengths heads.1 in
    ap₂ ◌∷◌ parts.0 (frame-injective ps qs hp.1 hq.1 parts.1)

-- A byte that may stand in a domain: UTF-8 never has the byte 0xff.
abbrev pub IsDomain : Text → Type 0
IsDomain = All (λ c. c ≢ 0xff)

-- Two commitments are hashes of the same bytes only if they have the same domain and the same
-- parts, where no domain has the byte 0xff and every length is a `u64`.
pub commit_input-injective :
    (d d' : Text) (ps qs : List Text)
    → IsDomain d
    → IsDomain d'
    → All IsPart ps
    → All IsPart qs
    → commit_input d ps ≡ commit_input d' qs
    → (d ≡ d') × (ps ≡ qs)
unfolding commit_input
commit_input-injective d d' ps qs hd hd' hp hq e =
    let split = separator_injective 0xff d d' (frame ps) (frame qs) hd hd' e in
    (split.0, frame-injective ps qs hp hq split.1)
