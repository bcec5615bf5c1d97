-- ===== src/Evm/Rlp/Header.antt =====
-- The length in front of a payload, written and read (evm/src/rlp.rs).
use veilux_binary.Base.{
  ℕ, ◌+◌, ◌%◌, ◌≡◌, ◌≤◌, ◌<◌, refl, ap, ◌∙◌, sym, [], ◌∷◌, ◌++◌, Text, ok, arith, u64_mod, length,
  length-append, append_assoc,
}
use veilux_binary.Kernel.Hash.{le_bytes, be_bytes}
use veilux_binary.Kernel.Hash.Framing.{length-le_bytes}
use veilux_binary.Evm.Bytes.{be_value, take, drop, be_value-be_bytes, length-reverse_lem}
use veilux_binary.Evm.Rlp.{
  slice, long_slice, be_to_usize, prefix_of, skip_zeros, encode_length, short_str, long_str,
  short_list, long_list,
}

pub be_value-skip_zeros : (bs : Text) → be_value 0 (skip_zeros bs) ≡ be_value 0 bs
unfolding be_value skip_zeros
be_value-skip_zeros [] = refl
be_value-skip_zeros (b ∷ bs) = ground (arith, be_value-skip_zeros bs)

pub skip_zeros-le : (bs : Text) → length (skip_zeros bs) ≤ length bs
unfolding skip_zeros
skip_zeros-le [] = omega arith
skip_zeros-le (b ∷ bs) = ground (arith, skip_zeros-le bs)

-- The bytes of a length, without leading zeros.
abbrev pub trimmed : ℕ → Text
trimmed len = skip_zeros (be_bytes 8 len)

pub trimmed-value : (len : ℕ) → len < u64_mod → be_value 0 (trimmed len) ≡ len
trimmed-value len h = be_value-skip_zeros (be_bytes 8 len) ∙ be_value-be_bytes 8 len (omega arith) h

pub trimmed-length :
    (len : ℕ) → len < u64_mod → 0 < len → (1 ≤ length (trimmed len)) × (length (trimmed len) ≤ 8)
trimmed-length len h pos = (filled (trimmed len) (trimmed-value len h), short)
  where
    filled : (bs : Text) → be_value 0 bs ≡ len → 1 ≤ length bs
    filled [] e = absurd (unfold be_value in omega arith)
    filled (b ∷ bs) e = omega arith

    short : length (trimmed len) ≤ 8
    short =
        unfold be_bytes in
        omega (
          arith,
          skip_zeros-le (be_bytes 8 len),
          length-reverse_lem (le_bytes 8 len),
          length-le_bytes 8 len,
        )

pub be_to_usize-trimmed : (len : ℕ) → len < u64_mod → 0 < len → be_to_usize (trimmed len) ≡ ok len
unfolding be_to_usize
be_to_usize-trimmed len h pos =
    let range = trimmed-length len h pos in ground (arith, range, trimmed-value len h)

pub drop-append : (pre t : Text) → drop (length pre) (pre ++ t) ≡ t
drop-append [] t = refl
drop-append (b ∷ pre) t = drop-append pre t

pub take-append : (body t : Text) → take (length body) (body ++ t) ≡ body
take-append [] t = refl
take-append (b ∷ body) t = ap (λ r. b ∷ r) (take-append body t)

pub drop-parts :
    (pre body rest : Text) → drop (length pre + length body) (pre ++ (body ++ rest)) ≡ rest
drop-parts pre body rest =
    rw (sym (length-append {0} pre body), sym (append_assoc pre body rest))
      (drop-append (pre ++ body) rest)

pub slice-parts :
    (pre body rest : Text)
    → length pre + length body < u64_mod
    → slice (length pre) (length body) (pre ++ (body ++ rest)) ≡ ok (body, rest)
unfolding slice
slice-parts pre body rest h = ground (
  arith,
  length-append {0} pre (body ++ rest),
  length-append {0} body rest,
  drop-parts pre body rest,
  drop-append pre (body ++ rest),
  take-append body rest,
)

pub encode_length-short : (len off : ℕ) → len < 56 → encode_length len off ≡ (off + len) % 256 ∷ []
unfolding encode_length
encode_length-short len off h = ground arith

pub encode_length-long :
    (len off : ℕ)
    → 56 ≤ len
    → encode_length len off ≡ (off + 55 + length (trimmed len)) % 256 ∷ trimmed len
unfolding encode_length
encode_length-long len off h = ground arith

pub prefix_of-short_str : (n : ℕ) → n < 56 → prefix_of ((0x80 + n) % 256) ≡ short_str n
unfolding prefix_of
prefix_of-short_str n h = ground arith

pub prefix_of-short_list : (n : ℕ) → n < 56 → prefix_of ((0xc0 + n) % 256) ≡ short_list n
unfolding prefix_of
prefix_of-short_list n h = ground arith

pub prefix_of-long_str : (n : ℕ) → 1 ≤ n → n ≤ 8 → prefix_of ((0x80 + 55 + n) % 256) ≡ long_str n
unfolding prefix_of
prefix_of-long_str n h k = ground arith

pub prefix_of-long_list : (n : ℕ) → 1 ≤ n → n ≤ 8 → prefix_of ((0xc0 + 55 + n) % 256) ≡ long_list n
unfolding prefix_of
prefix_of-long_list n h k = ground arith

-- A payload behind its length in bytes.
pub long_slice-parts :
    (first : ℕ) (body rest : Text)
    → 56 ≤ length body
    → length body + 9 < u64_mod
    → long_slice
        (length (trimmed (length body)))
        (first ∷ (trimmed (length body) ++ (body ++ rest)))
      ≡ ok (body, rest)
unfolding long_slice
long_slice-parts first body rest h fits =
    let range = trimmed-length (length body) (omega arith) (omega arith) in
    rw
      (
        slice-parts (first ∷ []) (trimmed (length body)) (body ++ rest) (omega (arith, range.1)),
        be_to_usize-trimmed (length body) (omega arith) (omega arith),
      )
      (slice-parts (first ∷ trimmed (length body)) body rest (omega (arith, range.1)))
