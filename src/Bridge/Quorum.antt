-- ===== src/Bridge/Quorum.antt =====
-- The guardians' signatures (prisms/bridge/src/lib.rs).
use veilux_binary.Base.{
  ℕ, ◌+◌, ◌≤◌, ◌≡◌, refl, ap, subst, Bool, true, false, not, Option, none, some, List, [], ◌∷◌,
  ◌++◌, Text, lit, Result, ok, err, and_then, length, length-append, All, arith, Bool-cases,
  Option-cases, inl, inr, ltb, if◌then◌else◌, to_decimal,
}
use veilux_binary.Base.Order.{same, text_ord}
use veilux_binary.Kernel.Hash.{Hash}
use veilux_binary.Kernel.Types.{contains, IsDistinct}
use veilux_binary.Kernel.Types.Distinct.{append-IsDistinct}
use veilux_binary.Kernel.Prism.{PrismError, invalid_payload, unauthorized}
use veilux_binary.Consensus.Engine.{Ed25519, verify_bytes}
use veilux_binary.Bridge.Types.{BridgeConfig, GuardianSignature}

-- The crates `hex` and `ed25519_dalek`.
pub record Signatures : Type 0 where
  -- `hex::decode(s).ok()`
  pub hex_decode : Text → Option Text
  pub ed25519 : Ed25519

-- `s.strip_prefix("0x").unwrap_or(s)`
unfoldable pub strip_0x : Text → Text
strip_0x (a ∷ b ∷ rest) = if same (a ∷ b ∷ []) (lit "0x") then rest else a ∷ b ∷ rest
strip_0x s = s

module _ (v : Signatures) where
  unfoldable pub hex_to_bytes : Text → Option Text
  unfolding strip_0x
  hex_to_bytes s = v.hex_decode (strip_0x s)

  -- `verify_bytes(..).is_ok()`
  unfoldable pub is_signed : Text → Hash → Text → Bool
  is_signed pk digest bytes = elim (verify_bytes v.ed25519 pk digest bytes) [
    | ok u ↦ true
    | err e ↦ false
  ]

  -- The loop over the signatures: the keys seen and the number of valid ones.
  unfoldable pub count_valid :
      List Text → Hash → List GuardianSignature → List Text → ℕ → Result PrismError ℕ
  unfolding contains hex_to_bytes is_signed
  count_valid guardians digest [] seen valid = ok valid
  count_valid guardians digest (sig ∷ sigs) seen valid =
      let skip = count_valid guardians digest sigs seen valid in
      let counted = count_valid guardians digest sigs (seen ++ (sig.public_key ∷ [])) (valid + 1) in
      if not (contains guardians sig.public_key)
      then skip
      else if contains seen sig.public_key
      then skip
      else elim (hex_to_bytes sig.public_key) [
        | none ↦ err (invalid_payload (lit "bad guardian pubkey hex"))
        | some pk ↦ elim (hex_to_bytes sig.signature) [
          | none ↦ err (invalid_payload (lit "bad signature hex"))
          | some bytes ↦ if is_signed pk digest bytes then counted else skip
        ]
      ]

  unfoldable pub verify_quorum : BridgeConfig → Hash → List GuardianSignature → Result PrismError ℕ
  unfolding count_valid
  verify_quorum config digest signatures =
      and_then (count_valid config.guardians digest signatures [] 0) λ valid.
        if ltb valid config.quorum
        then err (
            unauthorized (
              lit "guardian quorum not met: "
              ++ (to_decimal valid
                  ++ (lit "/"
                      ++ (to_decimal (length config.guardians)
                          ++ (lit " valid (need " ++ (to_decimal config.quorum ++ lit ")")))))))
        else ok valid

  -- A key with a signature among those given that checks against the digest.
  pub data Signed (digest : Hash) (key : Text) : List GuardianSignature → Type 0 where
    here :
        (pk bytes : Text) (sig : GuardianSignature) (sigs : List GuardianSignature)
        → sig.public_key ≡ key
        → hex_to_bytes key ≡ some pk
        → hex_to_bytes sig.signature ≡ some bytes
        → verify_bytes v.ed25519 pk digest bytes ≡ ok tt
        → Signed digest key (sig ∷ sigs)
    later :
        (sig : GuardianSignature) (sigs : List GuardianSignature)
        → Signed digest key sigs
        → Signed digest key (sig ∷ sigs)

  -- The keys are of `n` distinct guardians, who signed.
  pub record IsAttested (guardians : List Text) (digest : Hash) (sigs : List GuardianSignature)
      (n : ℕ) (keys : List Text) : Type 0 where
    pub distinct : IsDistinct keys
    pub guard : All (λ k. contains guardians k ≡ true) keys
    pub signed : All (λ k. Signed digest k sigs) keys
    pub counted : length keys ≡ n

  pub signed_ok :
      (pk : Text) (digest : Hash) (bytes : Text)
      → is_signed pk digest bytes ≡ true
      → verify_bytes v.ed25519 pk digest bytes ≡ ok tt
  unfolding is_signed
  signed_ok pk digest bytes h = ground arith

  pub All-append :
      (P : Text → Type 0) (xs : List Text) (y : Text) → All P xs → P y → All P (xs ++ (y ∷ []))
  All-append P [] y h p = (p, tt)
  All-append P (x ∷ xs) y h p = (h.0, All-append P xs y h.1 p)

  one-more :
      (guardians : List Text) (digest : Hash) (sigs : List GuardianSignature) (n : ℕ)
      (keys : List Text) (key : Text)
      → contains guardians key ≡ true
      → contains keys key ≡ false
      → Signed digest key sigs
      → IsAttested guardians digest sigs n keys
      → IsAttested guardians digest sigs (n + 1) (keys ++ (key ∷ []))
  one-more guardians digest sigs n keys key g f s a = record {
    distinct = append-IsDistinct keys key a.distinct f;
    guard = All-append _ keys key a.guard g;
    signed = All-append _ keys key a.signed s;
    counted = omega (arith, length-append {0} keys (key ∷ []), a.counted);
  }

  -- What a loop that ends in `n` has found.
  abbrev Found : List Text → Hash → List GuardianSignature → ℕ → Type 0
  Found guardians digest sigs n = (keys : List Text) × IsAttested guardians digest sigs n keys

  count_valid-IsAttested :
      (guardians : List Text) (digest : Hash) (all sigs : List GuardianSignature) (seen : List Text)
      (valid n : ℕ)
      → ((k : Text) → Signed digest k sigs → Signed digest k all)
      → IsAttested guardians digest all valid seen
      → count_valid guardians digest sigs seen valid ≡ ok n
      → Found guardians digest all n
  unfolding count_valid
  count_valid-IsAttested guardians digest all [] seen valid n up a h =
      let e : valid ≡ n = cc in (seen, subst (λ m. IsAttested guardians digest all m seen) e a)
  count_valid-IsAttested guardians digest all (sig ∷ sigs) seen valid n up a h =
      let key = sig.public_key in
      let up' = λ (k : Text) (t : Signed digest k sigs). up k (later sig sigs t) in
      let skipped = count_valid-IsAttested guardians digest all sigs seen valid n up' a in
      elim (Bool-cases (contains guardians key)) [
        | inr o ↦ skipped (ground arith)
        | inl g ↦ elim (Bool-cases (contains seen key)) [
          | inl t ↦ skipped (ground arith)
          | inr f ↦ elim (Option-cases (hex_to_bytes key)) [
            | inl o ↦ absurd (ground arith)
            | inr (pk, e) ↦ elim (Option-cases (hex_to_bytes sig.signature)) [
              | inl o ↦ absurd (ground arith)
              | inr (bytes, e') ↦ elim (Bool-cases (is_signed pk digest bytes)) [
                | inr o ↦ skipped (ground arith)
                | inl t ↦
                    let mine =
                      up key (here pk bytes sig sigs refl e e' (signed_ok pk digest bytes t)) in
                    count_valid-IsAttested guardians digest all sigs (seen ++ (key ∷ []))
                      (valid + 1) n up' (one-more guardians digest all valid seen key g f mine a)
                      (ground arith)
              ]
            ]
          ]
        ]
      ]

  quorum_passed :
      (m : Result PrismError ℕ) (e : ℕ → PrismError) (q n : ℕ)
      → and_then m (λ valid. if ltb valid q then err (e valid) else ok valid) ≡ ok n
      → (m ≡ ok n) × (q ≤ n)
  quorum_passed (err e') e q n h = absurd (cc)
  quorum_passed (ok k) e q n h = elim (Bool-cases (ltb k q)) [
    | inl y ↦ absurd (ground arith)
    | inr f ↦ let i : k ≡ n = ground arith in (ap ok i, ground arith)
  ]

  -- A quorum is verified only with at least as many distinct guardians as the quorum asks, each of
  -- whom has a signature among those given that checks against the digest; their number is the one
  -- that is returned.
  pub verify_quorum-IsAttested :
      (config : BridgeConfig) (digest : Hash) (sigs : List GuardianSignature) (n : ℕ)
      → verify_quorum config digest sigs ≡ ok n
      → (config.quorum ≤ n) × ((keys : List Text) × IsAttested config.guardians digest sigs n keys)
  unfolding verify_quorum
  verify_quorum-IsAttested config digest sigs n h =
      let passed =
        quorum_passed (count_valid config.guardians digest sigs [] 0) _ config.quorum n h in
      let none_yet : IsAttested config.guardians digest sigs 0 [] = record {
        distinct = tt;
        guard = tt;
        signed = tt;
        counted = refl;
      } in
      (
        passed.1,
        count_valid-IsAttested config.guardians digest sigs sigs [] 0 n (λ k t. t) none_yet
            passed.0,
      )
