-- ===== src/Token/Keys.antt =====
-- The keys under which the token prism stores its data (prisms/token/src/lib.rs).
use veilux_binary.Base.{
  ◌≡◌, ◌≢◌, refl, ap₂, sym, false, ◌&&◌, ◌++◌, lit, arith, All, append_injective,
  separator_injective, append_assoc, Bool-cases, inl, inr,
}
use veilux_binary.Base.Order.{same, same_eq, same_refl, text_ord, text_cmp}
use veilux_binary.Kernel.Hash.{Crates, Hash, to_hex}
use veilux_binary.Kernel.Types.{PartyId}
use veilux_binary.Token.Store.{meta_key, bal_key, allow_key}

-- What the crate `hex` documents: only the digits `0-9a-f`, so no `/`, and one text for each hash.
pub record HexLaws (x : Crates) : Type 0 where
  pub no_slash : (h : Hash) → All (λ d. d ≢ 47) (x.hex_encode h)
  pub injective : (g h : Hash) → x.hex_encode g ≡ x.hex_encode h → g ≡ h

module _ (x : Crates) (laws : HexLaws x) where
  to_hex-no_slash : (h : Hash) → All (λ d. d ≢ 47) (to_hex x h)
  unfolding to_hex lit
  to_hex-no_slash h = (omega arith, (omega arith, laws.no_slash h))

  to_hex-injective : (g h : Hash) → to_hex x g ≡ to_hex x h → g ≡ h
  unfolding to_hex
  to_hex-injective g h e = laws.injective g h (append_injective (lit "0x") (lit "0x") _ _ refl e).1

  -- A balance key names one token and one party.
  pub bal_key-injective :
      (id id' : Hash) (who who' : PartyId)
      → bal_key x id who ≡ bal_key x id' who'
      → (id ≡ id') × (who ≡ who')
  unfolding bal_key lit
  bal_key-injective id id' who who' e =
      let tails = append_injective (lit "token/bal/") (lit "token/bal/") _ _ refl e in
      let parts =
        separator_injective 47 (to_hex x id) (to_hex x id') who who' (to_hex-no_slash id)
          (to_hex-no_slash id') tails.1 in
      (to_hex-injective id id' parts.0, parts.1)

  pub same-bal_key :
      (id id' : Hash) (who who' : PartyId)
      → same (bal_key x id who) (bal_key x id' who') ≡ (same id id' && same who who')
  same-bal_key id id' who who' = elim (Bool-cases (same (bal_key x id who) (bal_key x id' who'))) [
    | inl t ↦
        let parts = bal_key-injective id id' who who' (same_eq _ _ t) in
        rw (parts.0, parts.1)
          (rw (same_refl (bal_key x id' who'), same_refl id', same_refl who') refl)
    | inr f ↦ rw f (sym (split f))
  ]
    where
      split :
          same (bal_key x id who) (bal_key x id' who') ≡ false
          → (same id id' && same who who') ≡ false
      split f = elim (Bool-cases (same id id')) [
        | inr n ↦ rw n
        | inl y ↦ elim (Bool-cases (same who who')) [
          | inr n ↦ rw (y, n)
          | inl z ↦ absurd (clash (same_eq id id' y) (same_eq who who' z) f)
        ]
      ]
        where
          clash : id ≡ id' → who ≡ who' → same (bal_key x id who) (bal_key x id' who') ≡ false → ⊥
          clash p q k =
              let e : bal_key x id who ≡ bal_key x id' who' = ap₂ (bal_key x) p q in
              let k' : same (bal_key x id' who') (bal_key x id' who') ≡ false = rw e at k in
              cc (same_refl (bal_key x id' who'))

-- Keys of different kinds differ.
pub bal_key-meta_key :
    (x : Crates) (id id' : Hash) (who : PartyId)
    → (same (bal_key x id who) (meta_key x id') ≡ false)
      × (same (meta_key x id') (bal_key x id who) ≡ false)
unfolding bal_key meta_key lit text_cmp
bal_key-meta_key x id id' who = (refl, refl)

pub bal_key-allow_key :
    (x : Crates) (id id' : Hash) (who owner spender : PartyId)
    → (same (bal_key x id who) (allow_key x id' owner spender) ≡ false)
      × (same (allow_key x id' owner spender) (bal_key x id who) ≡ false)
unfolding bal_key allow_key lit text_cmp
bal_key-allow_key x id id' who owner spender = (refl, refl)

pub meta_key-allow_key :
    (x : Crates) (id id' : Hash) (owner spender : PartyId)
    → (same (meta_key x id) (allow_key x id' owner spender) ≡ false)
      × (same (allow_key x id' owner spender) (meta_key x id) ≡ false)
unfolding meta_key allow_key lit text_cmp
meta_key-allow_key x id id' owner spender = (refl, refl)

-- An allowance key does not tell an owner whose name has a `/` from a spender whose name has one:
-- the allowance of `a/b` to `c` and the allowance of `a` to `b/c` are one entry.
pub allow_key_overlap :
    (x : Crates) (id : Hash) (a b c : PartyId)
    → allow_key x id (a ++ (lit "/" ++ b)) c ≡ allow_key x id a (b ++ (lit "/" ++ c))
unfolding allow_key
allow_key_overlap x id a b c = simp append_assoc
