-- ===== src/Evm/Rlp/RoundTrip.antt =====
-- What is encoded decodes to itself (evm/src/rlp.rs).
use veilux_binary.Base.{
  ℕ, zero, suc, ◌+◌, ◌*◌, ◌%◌, ◌≡◌, ◌≤◌, ◌<◌, refl, ap, ◌∙◌, sym, true, [], ◌∷◌, ◌++◌, Text, ok,
  arith, ltb, u64_mod, length, length-append, append_assoc, Bool-cases, inl, inr, append-nil,
}
use veilux_binary.Evm.Rlp.{
  Rlp, Rlps, str, list, nil, cons, slice, long_slice, prefix_of, encode_length, is_plain,
  encode_str, encode_list, concat, encode, encode_all, decode_item, decode_list_body, decode,
  short_str, long_str, short_list, long_list,
}
use veilux_binary.Evm.Rlp.Header.{
  trimmed, trimmed-length, slice-parts, encode_length-short, encode_length-long,
  prefix_of-short_str, prefix_of-short_list, prefix_of-long_str, prefix_of-long_list,
  long_slice-parts,
}

encode_str-length : (b : Text) → length b ≤ length (encode_str b)
unfolding encode_str
encode_str-length b = ground (arith, length-append {0} (encode_length (length b) 0x80) b)

-- One step of the decoder, by the kind of the first byte.
module _ (fuel first : ℕ) (t : Text) (body rest : Text) where
  decode_item-short_str :
      (n : ℕ)
      → prefix_of first ≡ short_str n
      → slice 1 n (first ∷ t) ≡ ok (body, rest)
      → decode_item (suc fuel) (first ∷ t) ≡ ok (str body, rest)
  unfolding decode_item
  decode_item-short_str n e f = rw (e, decode_item, f) refl

  decode_item-long_str :
      (n : ℕ)
      → prefix_of first ≡ long_str n
      → long_slice n (first ∷ t) ≡ ok (body, rest)
      → decode_item (suc fuel) (first ∷ t) ≡ ok (str body, rest)
  unfolding decode_item
  decode_item-long_str n e f = rw (e, decode_item, f) refl

  decode_item-short_list :
      (n : ℕ) (items : Rlps)
      → prefix_of first ≡ short_list n
      → slice 1 n (first ∷ t) ≡ ok (body, rest)
      → decode_list_body fuel body ≡ ok items
      → decode_item (suc fuel) (first ∷ t) ≡ ok (list items, rest)
  unfolding decode_item
  decode_item-short_list n items e f g = rw (e, decode_item, f, g) refl

  decode_item-long_list :
      (n : ℕ) (items : Rlps)
      → prefix_of first ≡ long_list n
      → long_slice n (first ∷ t) ≡ ok (body, rest)
      → decode_list_body fuel body ≡ ok items
      → decode_item (suc fuel) (first ∷ t) ≡ ok (list items, rest)
  unfolding decode_item
  decode_item-long_list n items e f g = rw (e, decode_item, f, g) refl

item_str :
    (fuel : ℕ) (b rest : Text)
    → length b + 9 < u64_mod
    → decode_item (suc fuel) (encode_length (length b) 0x80 ++ (b ++ rest)) ≡ ok (str b, rest)
item_str fuel b rest fits = elim (Bool-cases (ltb (length b) 56)) [
  | inl y ↦
      let less : length b < 56 = ground (arith, y) in
      rw (encode_length-short (length b) 0x80 less) (
        decode_item-short_str fuel _ (b ++ rest) b rest (length b)
          (prefix_of-short_str (length b) less)
          (slice-parts (((0x80 + length b) % 256) ∷ []) b rest (omega arith)))
  | inr n ↦
      let more : 56 ≤ length b = ground (arith, n) in
      let range = trimmed-length (length b) (omega arith) (omega arith) in
      rw (encode_length-long (length b) 0x80 more) (
        decode_item-long_str fuel _ (trimmed (length b) ++ (b ++ rest)) b rest
          (length (trimmed (length b)))
          (prefix_of-long_str (length (trimmed (length b))) range.0 range.1)
          (long_slice-parts _ b rest more fits))
]

item_list :
    (fuel : ℕ) (body rest : Text) (items : Rlps)
    → length body + 9 < u64_mod
    → decode_list_body fuel body ≡ ok items
    → decode_item (suc fuel) (encode_length (length body) 0xc0 ++ (body ++ rest))
      ≡ ok (list items, rest)
item_list fuel body rest items fits e = elim (Bool-cases (ltb (length body) 56)) [
  | inl y ↦
      let less : length body < 56 = ground (arith, y) in
      rw (encode_length-short (length body) 0xc0 less) (
        decode_item-short_list fuel _ (body ++ rest) body rest (length body) items
          (prefix_of-short_list (length body) less)
          (slice-parts (((0xc0 + length body) % 256) ∷ []) body rest (omega arith)) e)
  | inr n ↦
      let more : 56 ≤ length body = ground (arith, n) in
      let range = trimmed-length (length body) (omega arith) (omega arith) in
      rw (encode_length-long (length body) 0xc0 more) (
        decode_item-long_list fuel _ (trimmed (length body) ++ (body ++ rest)) body rest
          (length (trimmed (length body))) items
          (prefix_of-long_list (length (trimmed (length body))) range.0 range.1)
          (long_slice-parts _ body rest more fits) e)
]

plain_item :
    (fuel : ℕ) (b rest : Text)
    → is_plain b ≡ true
    → decode_item (suc fuel) (b ++ rest) ≡ ok (str b, rest)
unfolding decode_item prefix_of
plain_item fuel [] rest h = absurd (ground arith)
plain_item fuel (x ∷ []) rest h = ground arith
plain_item fuel (x ∷ y ∷ b) rest h = absurd (ground arith)

encode_str-item :
    (fuel : ℕ) (b rest : Text)
    → length b + 9 < u64_mod
    → decode_item (suc fuel) (encode_str b ++ rest) ≡ ok (str b, rest)
unfolding encode_str
encode_str-item fuel b rest fits = elim (Bool-cases (is_plain b)) [
  | inl y ↦ rw y (plain_item fuel b rest y)
  | inr n ↦ rw (n, append_assoc (encode_length (length b) 0x80) b rest) (item_str fuel b rest fits)
]

encode_length-filled : (len off : ℕ) → 1 ≤ length (encode_length len off)
unfolding encode_length
encode_length-filled len off = ground arith

encode_str-filled : (b : Text) → 1 ≤ length (encode_str b)
unfolding encode_str
encode_str-filled [] =
    ground (arith, encode_length-filled 0 0x80, length-append {0} (encode_length 0 0x80) [])
encode_str-filled (x ∷ b) =
    ground (arith, length-append {0} (encode_length (length (x ∷ b)) 0x80) (x ∷ b))

encode-filled : (r : Rlp) → 1 ≤ length (encode r)
unfolding encode encode_list
encode-filled (str b) = encode_str-filled b
encode-filled (list items) =
    let body = concat (encode_all items) in
    omega (
      arith,
      length-append {0} (encode_length (length body) 0xc0) body,
      encode_length-filled (length body) 0xc0,
    )

longer_list : (items : Rlps) → length (concat (encode_all items)) < length (encode (list items))
unfolding encode encode_list
longer_list items =
    let body = concat (encode_all items) in
    omega (
      arith,
      length-append {0} (encode_length (length body) 0xc0) body,
      encode_length-filled (length body) 0xc0,
    )

decode_list_body-cons :
    (fuel : ℕ) (t rest : Text) (r : Rlp) (rs : Rlps)
    → 1 ≤ length t
    → decode_item fuel t ≡ ok (r, rest)
    → decode_list_body fuel rest ≡ ok rs
    → decode_list_body (suc fuel) t ≡ ok (cons r rs)
unfolding decode_item
decode_list_body-cons fuel [] rest r rs h e f = absurd (omega arith)
decode_list_body-cons fuel (b ∷ t) rest r rs h e f = rw (e, decode_list_body, f) refl

decode_list_body-nil : (fuel : ℕ) → decode_list_body (suc fuel) [] ≡ ok nil
unfolding decode_item
decode_list_body-nil fuel = refl

mutual
  unfolding encode encode_list

  encode-item :
      (r : Rlp) (fuel : ℕ) (rest : Text)
      → 2 * length (encode r) + 1 ≤ fuel
      → length (encode r) + 9 < u64_mod
      → decode_item fuel (encode r ++ rest) ≡ ok (r, rest)
  encode-item r zero rest enough fits = absurd (omega arith)
  encode-item (str b) (suc fuel) rest enough fits =
      encode_str-item fuel b rest (omega (arith, encode_str-length b))
  encode-item (list items) (suc fuel) rest enough fits =
      let body = concat (encode_all items) in
      let longer = longer_list items in
      rw (append_assoc (encode_length (length body) 0xc0) body rest) (
        item_list fuel body rest items (omega (arith, longer))
          (encode_all-body items fuel (omega (arith, longer)) (omega (arith, longer))))

  encode_all-body :
      (rs : Rlps) (fuel : ℕ)
      → 2 * length (concat (encode_all rs)) + 2 ≤ fuel
      → length (concat (encode_all rs)) + 9 < u64_mod
      → decode_list_body fuel (concat (encode_all rs)) ≡ ok rs
  encode_all-body rs zero enough fits = absurd (omega arith)
  encode_all-body nil (suc fuel) enough fits = decode_list_body-nil fuel
  encode_all-body (cons r rs) (suc fuel) enough fits =
      let body = concat (encode_all rs) in
      let sum = length-append {0} (encode r) body in
      let filled = encode-filled r in
      decode_list_body-cons fuel (encode r ++ body) body r rs (omega (arith, sum, filled))
        (encode-item r fuel body (omega (arith, sum, filled)) (omega (arith, sum, filled)))
        (encode_all-body rs fuel (omega (arith, sum, filled)) (omega (arith, sum, filled)))

-- Every item, however nested, decodes from its encoding, where that is within a `usize`.
pub decode-encode : (r : Rlp) → length (encode r) + 9 < u64_mod → decode (encode r) ≡ ok r
unfolding decode
decode-encode r fits = ground (
  arith,
  sym (ap (decode_item (2 * length (encode r) + 2)) (append-nil (encode r)))
      ∙ encode-item r (2 * length (encode r) + 2) [] (omega arith) fits,
)
