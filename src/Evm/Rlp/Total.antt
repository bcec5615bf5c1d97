-- ===== src/Evm/Rlp/Total.antt =====
-- Decoding ends on every input: the fuel is enough (evm/src/rlp.rs).
use veilux_binary.Base.{
  ℕ, zero, suc, ◌+◌, ◌*◌, ◌≢◌, subst, ◌≢◌, ◌≤◌, ◌<◌, ◌&&◌, ◌||◌, [], ◌∷◌, Text, Result, ok, err,
  arith, ltb, leb, ◌==◌, u64_mod, length, and_then, Bool-cases, inl, inr,
}
use veilux_binary.Evm.Bytes.{take, drop, length-take, length-drop}
use veilux_binary.Evm.Rlp.{
  Fault, fails, unfinished, Rlp, Rlps, Prefix, str, list, slice, long_slice, be_to_usize, prefix_of,
  as_str, decode_item, decode_list_body, decode, single, short_str, long_str, short_list, long_list,
}

-- Not out of fuel, and what is answered satisfies the predicate.
abbrev pub Answers : {A : Type 0} → (A → Type 0) → Result Fault A → Type 0
Answers P (ok a) = P a
Answers P (err (fails e)) = Unit
Answers P (err unfinished) = ⊥

pub and_then-Answers :
    {A B : Type 0} (P : A → Type 0) (Q : B → Type 0) (r : Result Fault A) (f : A → Result Fault B)
    → Answers P r
    → ((a : A) → P a → Answers Q (f a))
    → Answers Q (and_then r f)
and_then-Answers P Q (ok a) f h k = k a h
and_then-Answers P Q (err (fails e)) f h k = tt
and_then-Answers P Q (err unfinished) f h k = absurd h

-- A slice and its rest, behind `n` bytes of the input.
abbrev IsBehind : ℕ → Text → Text × Text → Type 0
IsBehind n input p = (length p.0 + n ≤ length input) × (length p.1 + n ≤ length input)

slice-Answers :
    (start len : ℕ) (input : Text) → Answers (IsBehind start input) (slice start len input)
unfolding slice
slice-Answers start len input =
    elim (Bool-cases (ltb (start + len) u64_mod && leb (start + len) (length input))) [
      | inl y ↦ rw (y, Answers) (behind (ground (arith, y)))
      | inr n ↦ rw (n, Answers) tt
    ]
  where
    behind :
        start + len ≤ length input
        → IsBehind start input (take len (drop start input), drop (start + len) input)
    behind h = (
      omega (arith, length-take len (drop start input) (omega (arith, length-drop start input))),
      omega (arith, length-drop (start + len) input),
    )

be_to_usize-Answers : (bytes : Text) → Answers (λ n. Unit {0}) (be_to_usize bytes)
unfolding be_to_usize
be_to_usize-Answers bytes = elim (Bool-cases (length bytes == 0 || ltb 8 (length bytes))) [
  | inl y ↦ rw (y, Answers) tt
  | inr n ↦ rw (n, Answers) tt
]

weaken :
    (m n : ℕ) (input : Text) (r : Result Fault (Text × Text))
    → n ≤ m
    → Answers (IsBehind m input) r
    → Answers (IsBehind n input) r
weaken m n input (ok p) h a = (omega (arith, a.0), omega (arith, a.1))
weaken m n input (err (fails e)) h a = tt
weaken m n input (err unfinished) h a = a

long_slice-Answers : (n : ℕ) (input : Text) → Answers (IsBehind 1 input) (long_slice n input)
unfolding long_slice
long_slice-Answers n input =
    and_then-Answers (IsBehind 1 input) (IsBehind 1 input) (slice 1 n input) _
      (slice-Answers 1 n input)
      λ p h.
        and_then-Answers (λ len. Unit {0}) (IsBehind 1 input) (be_to_usize p.0) _
          (be_to_usize-Answers p.0)
          λ len u.
            weaken (suc n) 1 input (slice (suc n) len input) (omega arith)
              (slice-Answers (suc n) len input)

-- An item leaves less than it was given.
abbrev Shorter : Text → Rlp × Text → Type 0
Shorter input p = length p.1 < length input

as_str-Answers :
    (input : Text) (r : Result Fault (Text × Text))
    → Answers (IsBehind 1 input) r
    → Answers (Shorter input) (and_then r as_str)
as_str-Answers input r h =
    and_then-Answers (IsBehind 1 input) (Shorter input) r as_str h (λ p b. omega (arith, b.1))

items-Answers :
    (input : Text) (r : Result Fault (Text × Text)) (body : Text → Result Fault Rlps)
    → Answers (IsBehind 1 input) r
    → ((t : Text) → length t < length input → Answers (λ items. Unit {0}) (body t))
    → Answers
        (Shorter input)
        (and_then r (λ p. and_then (body p.0) (λ items. ok (list items, p.1))))
items-Answers input r body h k =
    and_then-Answers (IsBehind 1 input) (Shorter input) r
      (λ p. and_then (body p.0) (λ items. ok (list items, p.1))) h
      λ p b.
        and_then-Answers (λ items. Unit {0}) (Shorter input) (body p.0)
          (λ items. ok (list items, p.1)) (k p.0 (omega (arith, b.0)))
          (λ items u. omega (arith, b.1))

-- What an item is, by what its first byte says.
prefixed-Answers :
    (first : ℕ) (rest : Text) (body : Text → Result Fault Rlps) (q : Prefix)
    → ((t : Text) → length t < length (first ∷ rest) → Answers (λ items. Unit {0}) (body t))
    → Answers (Shorter (first ∷ rest)) (elim q as (λ _. Result Fault (Rlp × Text)) [
      | single b ↦ ok (str (b ∷ []), rest)
      | short_str n ↦ and_then (slice 1 n (first ∷ rest)) as_str
      | long_str n ↦ and_then (long_slice n (first ∷ rest)) as_str
      | short_list n ↦
          and_then
            (slice 1 n (first ∷ rest))
            (λ p. and_then (body p.0) (λ items. ok (list items, p.1)))
      | long_list n ↦
          and_then
            (long_slice n (first ∷ rest))
            (λ p. and_then (body p.0) (λ items. ok (list items, p.1)))
    ])
prefixed-Answers first rest body (single b) k = omega arith
prefixed-Answers first rest body (short_str n) k =
    as_str-Answers (first ∷ rest) (slice 1 n (first ∷ rest)) (slice-Answers 1 n (first ∷ rest))
prefixed-Answers first rest body (long_str n) k =
    as_str-Answers (first ∷ rest) (long_slice n (first ∷ rest))
      (long_slice-Answers n (first ∷ rest))
prefixed-Answers first rest body (short_list n) k =
    items-Answers (first ∷ rest) (slice 1 n (first ∷ rest)) body (slice-Answers 1 n (first ∷ rest))
      k
prefixed-Answers first rest body (long_list n) k =
    items-Answers (first ∷ rest) (long_slice n (first ∷ rest)) body
      (long_slice-Answers n (first ∷ rest)) k

mutual
  unfolding decode_item

  decode_item-Answers :
      (fuel : ℕ) (input : Text)
      → 2 * length input + 1 ≤ fuel
      → Answers (Shorter input) (decode_item fuel input)
  decode_item-Answers zero input h = absurd (omega arith)
  decode_item-Answers (suc fuel) [] h = tt
  decode_item-Answers (suc fuel) (first ∷ rest) h =
      prefixed-Answers first rest (decode_list_body fuel) (prefix_of first)
        (λ t less. decode_list_body-Answers fuel t (omega arith))

  decode_list_body-Answers :
      (fuel : ℕ) (body : Text)
      → 2 * length body + 2 ≤ fuel
      → Answers (λ items. Unit {0}) (decode_list_body fuel body)
  decode_list_body-Answers zero body h = absurd (omega arith)
  decode_list_body-Answers (suc fuel) [] h = tt
  decode_list_body-Answers (suc fuel) (b ∷ body) h =
      and_then-Answers (Shorter (b ∷ body)) (λ items. Unit {0}) (decode_item fuel (b ∷ body)) _
        (decode_item-Answers fuel (b ∷ body) (omega arith))
        λ p less.
          and_then-Answers (λ items. Unit {0}) (λ items. Unit {0}) (decode_list_body fuel p.1) _
            (decode_list_body-Answers fuel p.1 (omega arith)) (λ items u. tt)

-- Decoding ends on every input: it never runs out of fuel.
pub decode-Answers : (input : Text) → Answers (λ r. Unit {0}) (decode input)
unfolding decode
decode-Answers input =
    and_then-Answers (Shorter input) (λ r. Unit {0}) (decode_item (2 * length input + 2) input) _
      (decode_item-Answers (2 * length input + 2) input (omega arith))
      λ p less. elim (Bool-cases (length p.1 == 0)) [
        | inl y ↦ rw (y, Answers) tt
        | inr n ↦ rw (n, Answers) tt
      ]

-- Decoding answers on every input, with an item or an error of the decoder: twice the length of
-- the input and two is fuel enough.
pub decode_ends : (input : Text) → decode input ≢ err unfinished
decode_ends input e = subst (Answers (λ r. Unit {0})) e (decode-Answers input)
