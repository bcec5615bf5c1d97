-- ===== src/Oracle/Report.antt =====
-- Who stands behind the value of a feed (prisms/oracle/src/lib.rs).
use veilux_binary.Base.{
  ℕ, ◌%◌, ◌^◌, ◌≤◌, ◌<◌, ◌≡◌, refl, ap, ◌⊎◌, inl, inr, true, false, some, List, [], ◌∷◌, ◌++◌, Text,
  lit, Result, ok, err, length, All, arith, Bool-cases, Option-cases, ltb, leb, if◌then◌else◌,
  to_decimal,
}
use veilux_binary.Base.Order.{same, text_ord, text_cmp}
use veilux_binary.Kernel.Hash.{Crates, Hash}
use veilux_binary.Kernel.Types.{Command, contains, IsDistinct}
use veilux_binary.Kernel.Types.Distinct.{append-IsDistinct}
use veilux_binary.Kernel.State.{StateTree, put}
use veilux_binary.Kernel.State.Laws.{get_json-put_self, get_json-put_other}
use veilux_binary.Kernel.Prism.{PrismError, invalid_payload, unauthorized, or_internal, single}
use veilux_binary.Kernel.Prism.Laws.{or_internal-put_json}
use veilux_binary.Token.Store.{ok_flatten}
use veilux_binary.Consensus.Engine.{verify_bytes}
use veilux_binary.Bridge.Quorum.{Signatures, signed_ok, All-append}
use veilux_binary.Oracle.Types.{
  Feed, FeedValue, ReporterSig, OracleSerde, OracleRoundTrips, report_digest, value_updated,
}
use veilux_binary.Oracle.Handle.{
  feed_key, value_key, trim_0x, counts, count_reporters, load_feed, event, handle_report,
  latest_value,
}

module _ (v : Signatures) where
  -- A key with a signature among those given that checks against the digest.
  pub data Reported (digest : Text) (key : Text) : List ReporterSig → Type 0 where
    here :
        (pk bytes : Text) (sig : ReporterSig) (sigs : List ReporterSig)
        → sig.public_key ≡ key
        → v.hex_decode (trim_0x key) ≡ some pk
        → v.hex_decode (trim_0x sig.signature) ≡ some bytes
        → verify_bytes v.ed25519 pk digest bytes ≡ ok tt
        → Reported digest key (sig ∷ sigs)
    later :
        (sig : ReporterSig) (sigs : List ReporterSig)
        → Reported digest key sigs
        → Reported digest key (sig ∷ sigs)

  -- The keys are of distinct reporters, who signed.
  pub record IsWitnessed (reporters : List Text) (digest : Text) (sigs : List ReporterSig)
      (keys : List Text) : Type 0 where
    pub distinct : IsDistinct keys
    pub listed : All (λ k. contains reporters k ≡ true) keys
    pub signed : All (λ k. Reported digest k sigs) keys

  counts-true :
      (reporters : List Text) (digest : Text) (counted : List Text) (sig : ReporterSig)
      (sigs : List ReporterSig)
      → counts v reporters digest counted sig ≡ true
      → (contains reporters sig.public_key ≡ true)
        × (contains counted sig.public_key ≡ false)
        × Reported digest sig.public_key (sig ∷ sigs)
  unfolding counts
  counts-true reporters digest counted sig sigs h =
      elim (Option-cases (v.hex_decode (trim_0x sig.public_key))) [
        | inl o ↦ absurd (ground arith)
        | inr (pk, e) ↦ elim (Option-cases (v.hex_decode (trim_0x sig.signature))) [
          | inl o ↦ absurd (ground arith)
          | inr (bytes, e') ↦ (
            ground arith,
            ground arith,
            here pk bytes sig sigs refl e e' (signed_ok v pk digest bytes (ground arith)),
          )
        ]
      ]

  pushed :
      (reporters : List Text) (digest : Text) (all sigs : List ReporterSig) (sig : ReporterSig)
      (keys : List Text)
      → ((k : Text) → Reported digest k (sig ∷ sigs) → Reported digest k all)
      → IsWitnessed reporters digest all keys
      → IsWitnessed reporters digest all
          (if counts v reporters digest keys sig then keys ++ (sig.public_key ∷ []) else keys)
  pushed reporters digest all sigs sig keys up a =
      elim (Bool-cases (counts v reporters digest keys sig)) [
        | inr n ↦ rw (n) a
        | inl y ↦
            let new = counts-true reporters digest keys sig sigs y in
            rw (y) (record {
              distinct = append-IsDistinct keys sig.public_key a.distinct new.1;
              listed = All-append v _ keys sig.public_key a.listed new.0;
              signed = All-append v _ keys sig.public_key a.signed (up sig.public_key new.2);
            })
      ]

  count_reporters-IsWitnessed :
      (reporters : List Text) (digest : Text) (all sigs : List ReporterSig) (keys : List Text)
      → ((k : Text) → Reported digest k sigs → Reported digest k all)
      → IsWitnessed reporters digest all keys
      → IsWitnessed reporters digest all (count_reporters v reporters digest sigs keys)
  unfolding count_reporters
  count_reporters-IsWitnessed reporters digest all [] keys up a = a
  count_reporters-IsWitnessed reporters digest all (sig ∷ sigs) keys up a =
      count_reporters-IsWitnessed reporters digest all sigs _ (λ k t. up k (later sig sigs t))
        (pushed reporters digest all sigs sig keys up a)

feed_key-value_key : (x : Crates) (id : Hash) → same (feed_key x id) (value_key x id) ≡ false
unfolding feed_key value_key lit text_cmp
feed_key-value_key x id = refl

module _ (x : Crates) (v : Signatures) (c : OracleSerde) (r : OracleRoundTrips c) where
  unfoldable pub feed_of : Hash → StateTree → Result PrismError Feed
  feed_of id s = (load_feed x v c id s).0

  load_feed-state : (id : Hash) (s : StateTree) → load_feed x v c id s ≡ (feed_of id s, s)
  unfolding load_feed feed_of or_internal
  load_feed-state id s = ground arith

  abbrev new_value : Hash → ℕ → Text → List Text → FeedValue
  new_value id round value keys = record {
    feed_id = id;
    round = round;
    value = value;
    reporters = keys;
  }

  -- The state after a report.
  unfoldable reported : Hash → Feed → ℕ → Text → List Text → StateTree → StateTree
  reported id feed round value keys s =
      put (value_key x id) (r.value.bytes (new_value id round value keys))
        (put (feed_key x id) (r.feed.bytes (record feed { round = round })) s)

  handle_report-eq :
      (cmd : Command) (id : Hash) (round : ℕ) (value : Text) (sigs : List ReporterSig) (feed : Feed)
      (s : StateTree)
      → feed_of id s ≡ ok feed
      → let keys = count_reporters v feed.reporters (report_digest id round value) sigs [] in
        handle_report x v c cmd id round value sigs s ≡ (
          if leb round feed.round
          then (err (invalid_payload (lit "round must strictly advance")), s)
          else if ltb (length keys % 2 ^ 32) feed.quorum
          then (
            err (
                unauthorized (
                  lit "insufficient reporter quorum: "
                  ++ (to_decimal (length keys) ++ (lit "/" ++ to_decimal feed.quorum)))),
            s,
          )
          else (
            ok (
                single
                  (event x v c cmd (value_updated id round value (length keys % 2 ^ 32)))
                  6000),
            reported id feed round value keys s,
          ))
  unfolding handle_report reported
  handle_report-eq cmd id round value sigs feed s known =
      let keys = count_reporters v feed.reporters (report_digest id round value) sigs [] in
      ground (
        arith,
        load_feed-state id s,
        or_internal-put_json c.feed r.feed (feed_key x id) (record feed { round = round }) s,
        or_internal-put_json c.value r.value (value_key x id) (new_value id round value keys)
            (put (feed_key x id) (r.feed.bytes (record feed { round = round })) s),
      )

  latest_value-reported :
      (id : Hash) (feed : Feed) (round : ℕ) (value : Text) (keys : List Text) (s : StateTree)
      → latest_value x v c (reported id feed round value keys s) id
        ≡ some (new_value id round value keys)
  unfolding latest_value reported ok_flatten
  latest_value-reported id feed round value keys s =
      ap ok_flatten
        (get_json-put_self c.value r.value (value_key x id) (new_value id round value keys) _)

  feed_of-reported :
      (id : Hash) (feed : Feed) (round : ℕ) (value : Text) (keys : List Text) (s : StateTree)
      → feed_of id (reported id feed round value keys s) ≡ ok (record feed { round = round })
  unfolding feed_of load_feed reported or_internal
  feed_of-reported id feed round value keys s = ground (
    arith,
    get_json-put_other c.feed (value_key x id) (feed_key x id)
        (r.value.bytes (new_value id round value keys))
        (put (feed_key x id) (r.feed.bytes (record feed { round = round })) s)
        (feed_key-value_key x id),
    get_json-put_self c.feed r.feed (feed_key x id) (record feed { round = round }) s,
  )

  -- A report to a known feed is accepted only with a round later than the feed's and the
  -- signatures of at least its quorum of distinct reporters; the feed is then in that round, and
  -- its latest value is the reported one with the keys of those reporters. Else the report fails
  -- and nothing changes.
  pub handle_report_advances :
      (cmd : Command) (id : Hash) (round : ℕ) (value : Text) (sigs : List ReporterSig) (feed : Feed)
      (s : StateTree)
      → feed_of id s ≡ ok feed
      → let (out, s') = handle_report x v c cmd id round value sigs s in
        ((feed.round < round)
          × ((keys : List Text) × IsWitnessed v feed.reporters
                (report_digest id round value)
                sigs
                keys
              × (feed.quorum ≤ length keys)
              × (latest_value x v c s' id ≡ some (new_value id round value keys))
              × (feed_of id s' ≡ ok (record feed { round = round }))))
        ⊎ (((e : PrismError) × (out ≡ err e)) × (s' ≡ s))
  handle_report_advances cmd id round value sigs feed s known =
      let keys = count_reporters v feed.reporters (report_digest id round value) sigs [] in
      let none_yet : IsWitnessed v feed.reporters (report_digest id round value) sigs [] = record {
        distinct = tt;
        listed = tt;
        signed = tt;
      } in
      let step = handle_report-eq cmd id round value sigs feed s known in
      rw (step) (elim (Bool-cases (leb round feed.round)) [
        | inl late ↦ rw (late) (inr ((_, refl), refl))
        | inr fresh ↦ rw (fresh) (elim (Bool-cases (ltb (length keys % 2 ^ 32) feed.quorum)) [
          | inl few ↦ rw (few) (inr ((_, refl), refl))
          | inr enough ↦ rw (enough) (
              inl (
                ground arith,
                (
                  keys,
                  count_reporters-IsWitnessed v feed.reporters (report_digest id round value) sigs
                      sigs [] (λ k t. t) none_yet,
                  ground arith,
                  latest_value-reported id feed round value keys s,
                  feed_of-reported id feed round value keys s,
                ),
              ))
        ])
      ])
