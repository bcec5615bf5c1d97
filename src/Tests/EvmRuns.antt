-- ===== src/Tests/EvmRuns.antt =====
-- The theorems on the Ethereum layer at concrete items and words.
use veilux_binary.Base.{
  ◌<◌, ◌+◌, ◌*◌, ◌%◌, ◌^◌, ◌≡◌, ◌≢◌, refl, [], ◌∷◌, ok, err, arith, u64_mod, if◌then◌else◌, length,
}
use veilux_binary.Evm.Rlp.{
  Rlp, str, list, nil, cons, encode, encode_list, encode_str, encode_length, decode, unfinished,
}
use veilux_binary.Evm.Rlp.RoundTrip.{decode-encode}
use veilux_binary.Evm.Rlp.Total.{decode_ends}
use veilux_binary.Evm.U256.{U256, overflowing_add, wrapping_mul, to_big_endian, from_big_endian}
use veilux_binary.Evm.U256.Value.{value, IsU256}
use veilux_binary.Evm.U256.Sum.{overflowing_add-value}
use veilux_binary.Evm.U256.Product.{wrapping_mul-value}
use veilux_binary.Evm.U256.Bytes.{from_big_endian-to_big_endian}

abbrev word : U256
word = 7 ∷ 18446744073709551615 ∷ 0 ∷ 9223372036854775808 ∷ []

word-IsU256 : IsU256 word
word-IsU256 = record {
  four = refl;
  limbs = (omega arith, (omega arith, (omega arith, (omega arith, tt))));
}

overflowing_add-value_example :
    let (res, carry) = overflowing_add word word in
    IsU256 res × (value res + (if carry then 2 ^ 256 else 0) ≡ value word + value word)
overflowing_add-value_example = overflowing_add-value word word word-IsU256 word-IsU256

wrapping_mul-value_example :
    IsU256 (wrapping_mul word word)
    × (value (wrapping_mul word word) ≡ value word * value word % 2 ^ 256)
wrapping_mul-value_example = wrapping_mul-value word word word-IsU256 word-IsU256

from_big_endian-to_big_endian_example : from_big_endian (to_big_endian word) ≡ word
from_big_endian-to_big_endian_example = from_big_endian-to_big_endian word word-IsU256

decode_ends_example : decode (0xc8 ∷ 0x83 ∷ 1 ∷ []) ≢ err unfinished
decode_ends_example = decode_ends (0xc8 ∷ 0x83 ∷ 1 ∷ [])

-- A list of a text of two bytes and an empty list.
abbrev item : Rlp
item = list (cons (str (1 ∷ 200 ∷ [])) (cons (list nil) nil))

item-short : length (encode item) + 9 < u64_mod
unfolding encode encode_list encode_str encode_length
item-short = omega arith

decode-encode_example : decode (encode item) ≡ ok item
decode-encode_example = decode-encode item item-short
