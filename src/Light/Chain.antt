-- ===== src/Light/Chain.antt =====
-- Chains of headers (lightclient/src/lib.rs).
use veilux_binary.Base.{
  Result, ok, err, ℕ, ◌+◌, ◌%◌, List, [], ◌∷◌, ◌++◌, ◌≡◌, refl, length, ◌==◌, arith, u64_mod,
  Bool-cases, inl, inr, ◌≢◌,
}
use veilux_binary.Base.Order.{same, same_eq, same_refl, text_ord}
use veilux_binary.Kernel.Hash.{Crates}
use veilux_binary.Light.{
  Header, LightError, bad_height, broken_chain, LightClient, hash, apply_from, apply_headers,
}

module _ (x : Crates) where
  -- `hs` lead from the header `a` to the header `b`: each has the next height and names the hash of
  -- the one before.
  pub data Chain : Header → List Header → Header → Type 0 where
    stay : (a : Header) → Chain a [] a
    link :
        (a b h : Header) (hs : List Header)
        → h.height ≡ (a.height + 1) % u64_mod
        → h.parent ≡ hash x a
        → Chain h hs b
        → Chain a (h ∷ hs) b

  -- What `apply_headers` did with the headers: those applied, and the first one refused.
  pub data Verdict (client : LightClient) (i : ℕ)
      : List Header → Result LightError Unit × LightClient → Type 0 where
    accepted :
        (hs : List Header) (b : Header)
        → Chain client.trusted hs b
        → Verdict client i hs (ok tt, record { trusted = b })
    wrong_height :
        (hs rest : List Header) (b h : Header) (n : ℕ)
        → n ≡ i + length hs
        → Chain client.trusted hs b
        → h.height ≢ (b.height + 1) % u64_mod
        → Verdict client i (hs ++ (h ∷ rest)) (err (bad_height n), record { trusted = b })
    wrong_parent :
        (hs rest : List Header) (b h : Header)
        → Chain client.trusted hs b
        → h.height ≡ (b.height + 1) % u64_mod
        → h.parent ≢ hash x b
        → Verdict client i (hs ++ (h ∷ rest)) (err (broken_chain h.height), record { trusted = b })

  Verdict-link :
      (a h : Header) (i : ℕ) (hs : List Header) (r : Result LightError Unit × LightClient)
      → h.height ≡ (a.height + 1) % u64_mod
      → h.parent ≡ hash x a
      → Verdict (record { trusted = h }) (i + 1) hs r
      → Verdict (record { trusted = a }) i (h ∷ hs) r
  Verdict-link a h i hs r e p (accepted _ b c) = accepted (h ∷ hs) b (link a b h hs e p c)
  Verdict-link a h i hs r e p (wrong_height ks rest b k n m c ne) =
      wrong_height (h ∷ ks) rest b k n (omega arith) (link a b h ks e p c) ne
  Verdict-link a h i hs r e p (wrong_parent ks rest b k c o ne) =
      wrong_parent (h ∷ ks) rest b k (link a b h ks e p c) o ne

  apply_from-Verdict :
      (i : ℕ) (hs : List Header) (client : LightClient)
      → Verdict client i hs (apply_from x i hs client)
  apply_from-Verdict i [] client =
      unfold apply_from in accepted [] client.trusted (stay client.trusted)
  apply_from-Verdict i (h ∷ hs) client =
      let a = client.trusted in
      elim (Bool-cases (h.height == (a.height + 1) % u64_mod)) [
        | inr e ↦
            let stop : apply_from x i (h ∷ hs) client ≡ (err (bad_height i), client) =
              unfold apply_from in ground arith in
            rw (stop) (wrong_height [] hs a h i (omega arith) (stay a) (ground arith))
        | inl e ↦ elim (Bool-cases (same h.parent (hash x a))) [
          | inr p ↦
              let stop : apply_from x i (h ∷ hs) client ≡ (err (broken_chain h.height), client) =
                unfold apply_from in ground arith in
              rw (stop) (
                wrong_parent [] hs a h (stay a) (ground arith)
                  (λ q. ground (arith, same_refl h.parent)))
          | inl p ↦
              let go : apply_from x i (h ∷ hs) client
                  ≡ apply_from x (i + 1) hs (record { trusted = h }) =
                unfold apply_from in ground arith in
              rw (go) (
                Verdict-link a h i hs _ (ground arith) (same_eq h.parent (hash x a) p)
                  (apply_from-Verdict (i + 1) hs (record { trusted = h })))
        ]
      ]

  -- Whatever headers arrive, the client applies the longest run of them that is a chain from its
  -- head, and says which header stopped it and why: its height is not the next one, or it names
  -- another parent.
  pub apply_headers-Verdict :
      (hs : List Header) (client : LightClient) → Verdict client 0 hs (apply_headers x hs client)
  unfolding apply_headers
  apply_headers-Verdict hs client = apply_from-Verdict 0 hs client

  apply_from_complete :
      (i : ℕ) (hs : List Header) (a b : Header)
      → Chain a hs b
      → apply_from x i hs (record { trusted = a }) ≡ (ok tt, record { trusted = b })
  unfolding apply_from
  apply_from_complete i [] a b (stay _) = refl
  apply_from_complete i (h ∷ hs) a b (link _ _ _ _ e p c) =
      ground (arith, apply_from_complete (i + 1) hs h b c, same_refl h.parent)
