-- ===== src/Evm/Rlp.antt =====
-- RLP, the encoding of Ethereum's transactions (evm/src/rlp.rs).
pub mod Total
pub mod Header
pub mod RoundTrip
use veilux_binary.Base.{
  ℕ, zero, suc, ◌+◌, ◌-◌, ◌*◌, ◌%◌, Bool, true, false, not, ◌&&◌, ◌||◌, List, [], ◌∷◌, ◌++◌, Text,
  Result, ok, err, ltb, leb, ◌==◌, if◌then◌else◌, u64_mod, length, and_then,
}
use veilux_binary.Kernel.Hash.{be_bytes}
use veilux_binary.Evm.Bytes.{be_value, take, drop}

pub data RlpError : Type 0 where
  eof expected_string expected_list trailing non_canonical : RlpError

-- How decoding stops: with an error, or without fuel, which the source does not have.
pub data Fault : Type 0 where
  fails : RlpError → Fault
  unfinished : Fault

mutual
  pub data Rlp : Type 0 where
    str : Text → Rlp
    list : Rlps → Rlp

  pub data Rlps : Type 0 where
    nil : Rlps
    cons : Rlp → Rlps → Rlps

unfoldable pub as_bytes : Rlp → Result RlpError Text
as_bytes (str b) = ok b
as_bytes (list items) = err expected_string

unfoldable pub as_list : Rlp → Result RlpError Rlps
as_list (list items) = ok items
as_list (str b) = err expected_list

unfoldable pub as_u64 : Rlp → Result RlpError ℕ
as_u64 r =
    and_then (as_bytes r) (λ b. if ltb 8 (length b) then err non_canonical else ok (be_value 0 b))

unfoldable pub be_to_usize : Text → Result Fault ℕ
be_to_usize bytes =
    if length bytes == 0 || ltb 8 (length bytes)
    then err (fails non_canonical)
    else ok (be_value 0 bytes)

-- `start.checked_add(len)`, `input.get(start..end)` and `input[end..]`
unfoldable pub slice : ℕ → ℕ → Text → Result Fault (Text × Text)
slice start len input =
    if ltb (start + len) u64_mod && leb (start + len) (length input)
    then ok (take len (drop start input), drop (start + len) input)
    else err (fails eof)

-- The payload behind a length that is itself `n` bytes long.
unfoldable pub long_slice : ℕ → Text → Result Fault (Text × Text)
long_slice n input =
    and_then (slice 1 n input) (λ p. and_then (be_to_usize p.0) (λ len. slice (suc n) len input))

-- What the first byte says.
pub data Prefix : Type 0 where
  single short_str long_str short_list long_list : ℕ → Prefix

unfoldable pub prefix_of : ℕ → Prefix
prefix_of first =
    if leb first 0x7f
    then single first
    else (if leb first 0xb7
        then short_str (first - 0x80)
        else (if leb first 0xbf
            then long_str (first - 0xb7)
            else (if leb first 0xf7 then short_list (first - 0xc0) else long_list (first - 0xf7))))

abbrev pub as_str : Text × Text → Result Fault (Rlp × Text)
as_str p = ok (str p.0, p.1)

unfoldable mutual
  pub decode_item : ℕ → Text → Result Fault (Rlp × Text)
  decode_item zero input = err unfinished
  decode_item (suc fuel) [] = err (fails eof)
  decode_item (suc fuel) (first ∷ rest) = elim (prefix_of first) [
    | single b ↦ ok (str (b ∷ []), rest)
    | short_str n ↦ and_then (slice 1 n (first ∷ rest)) as_str
    | long_str n ↦ and_then (long_slice n (first ∷ rest)) as_str
    | short_list n ↦
        and_then (slice 1 n (first ∷ rest))
          (λ p. and_then (decode_list_body fuel p.0) (λ items. ok (list items, p.1)))
    | long_list n ↦
        and_then (long_slice n (first ∷ rest))
          (λ p. and_then (decode_list_body fuel p.0) (λ items. ok (list items, p.1)))
  ]

  -- `while !body.is_empty()`
  pub decode_list_body : ℕ → Text → Result Fault Rlps
  decode_list_body zero body = err unfinished
  decode_list_body (suc fuel) [] = ok nil
  decode_list_body (suc fuel) (b ∷ body) =
      and_then (decode_item fuel (b ∷ body))
        (λ p. and_then (decode_list_body fuel p.1) (λ items. ok (cons p.0 items)))

-- Each call takes a byte or goes into a shorter body.
unfoldable pub decode : Text → Result Fault Rlp
decode input =
    and_then (decode_item (2 * length input + 2) input)
      (λ p. if not (length p.1 == 0) then err (fails trailing) else ok p.0)

-- `skip_while(|&b| b == 0)`
unfoldable pub skip_zeros : Text → Text
skip_zeros [] = []
skip_zeros (b ∷ bs) = if b == 0 then skip_zeros bs else b ∷ bs

unfoldable pub encode_length : ℕ → ℕ → Text
unfolding skip_zeros
encode_length len offset =
    if ltb len 56
    then (offset + len) % 256 ∷ []
    else (let trimmed = skip_zeros (be_bytes 8 len) in
        (offset + 55 + length trimmed) % 256 ∷ trimmed)

-- A single byte below 0x80 stands for itself.
abbrev pub is_plain : Text → Bool
is_plain (b ∷ []) = leb b 0x7f
is_plain bytes = false

unfoldable pub encode_str : Text → Text
encode_str bytes = if is_plain bytes then bytes else encode_length (length bytes) 0x80 ++ bytes

abbrev pub concat : List Text → Text
concat [] = []
concat (item ∷ items) = item ++ concat items

unfoldable pub encode_list : List Text → Text
encode_list items = encode_length (length (concat items)) 0xc0 ++ concat items

unfoldable mutual
  -- An item, encoded with the two functions as the callers do.
  pub encode : Rlp → Text
  encode (str b) = encode_str b
  encode (list items) = encode_list (encode_all items)

  pub encode_all : Rlps → List Text
  encode_all nil = []
  encode_all (cons r rs) = encode r ∷ encode_all rs
