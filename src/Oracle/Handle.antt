-- ===== src/Oracle/Handle.antt =====
-- The commands of the oracle prism (prisms/oracle/src/lib.rs), one function for each arm.
use veilux_binary.Base.{
  ℕ, ◌%◌, ◌^◌, Bool, false, not, ◌||◌, Option, none, some, List, [], ◌∷◌, ◌++◌, Text, lit, ok, err,
  Action, length, pure, gets, or_raise, raise_if, ◌>>=◌, ◌>>◌, ltb, leb, ◌==◌, if◌then◌else◌,
  to_decimal,
}
use veilux_binary.Base.Order.{same, text_ord}
use veilux_binary.Kernel.Hash.{Crates, Hash, commit, to_hex}
use veilux_binary.Kernel.Types.{Command, Event, command_id, contains}
use veilux_binary.Kernel.Serde.{to_vec_or_default}
use veilux_binary.Kernel.State.{StateTree, get_json, put_json}
use veilux_binary.Kernel.State as Tree
use veilux_binary.Kernel.Prism.{
  Prism, PrismError, PrismOutput, invalid_payload, unauthorized, not_found, or_internal, single,
}
use veilux_binary.Token.Store.{ok_flatten}
use veilux_binary.Bridge.Quorum.{Signatures, is_signed}
use veilux_binary.Oracle.Types.{
  Feed, FeedValue, ReporterSig, OracleCommand, OracleEvent, OracleSerde, register_feed, report,
  feed_registered, value_updated, report_digest,
}

unfoldable pub feed_key : Crates → Hash → Text
feed_key x id = lit "oracle/feed/" ++ to_hex x id

unfoldable pub value_key : Crates → Hash → Text
value_key x id = lit "oracle/value/" ++ to_hex x id

-- `trim_start_matches("0x")`: every one in front is taken off.
unfoldable pub trim_0x : Text → Text
trim_0x [] = []
trim_0x (a ∷ []) = a ∷ []
trim_0x (a ∷ b ∷ rest) =
    let trimmed = trim_0x rest in if same (a ∷ b ∷ []) (lit "0x") then trimmed else a ∷ b ∷ rest

module _ (v : Signatures) where
  -- Whether the loop over the signatures pushes the key of this one.
  unfoldable pub counts : List Text → Text → List Text → ReporterSig → Bool
  unfolding contains trim_0x is_signed
  counts reporters digest counted sig =
      if not (contains reporters sig.public_key)
      then false
      else if contains counted sig.public_key
      then false
      else elim (v.hex_decode (trim_0x sig.public_key)) [
        | none ↦ false
        | some pk ↦ elim (v.hex_decode (trim_0x sig.signature)) [
          | none ↦ false
          | some sg ↦ is_signed v pk digest sg
        ]
      ]

  unfoldable pub count_reporters : List Text → Text → List ReporterSig → List Text → List Text
  unfolding counts
  count_reporters reporters digest [] counted = counted
  count_reporters reporters digest (sig ∷ sigs) counted =
      count_reporters reporters digest sigs
        (if counts reporters digest counted sig then counted ++ (sig.public_key ∷ []) else counted)

module _ (x : Crates) (v : Signatures) (c : OracleSerde) where
  unfoldable pub load_feed : Hash → Action StateTree PrismError Feed
  load_feed id = do
    found ← or_internal (λ s. (get_json c.feed (feed_key x id) s, s))
    or_raise found (not_found (lit "feed " ++ to_hex x id))

  unfoldable pub event : Command → OracleEvent → Event
  event cmd payload = record {
    source_command = command_id x cmd;
    prism = lit "oracle";
    visibility = cmd.visibility;
    payload = to_vec_or_default c.event payload;
  }

  unfoldable pub handle_register_feed :
      Command → Text → List Text → ℕ → Action StateTree PrismError PrismOutput
  handle_register_feed cmd name reporters quorum = do
    raise_if (quorum == 0 || ltb (length reporters) quorum)
        (invalid_payload (lit "quorum must be in 1..=reporters"))
    let feed_id = commit x (lit "oracle/feed") (cmd.submitter ∷ name ∷ [])
    exists ← gets (Tree.contains (feed_key x feed_id))
    raise_if exists (invalid_payload (lit "feed already exists"))
    or_internal (
        put_json c.feed (feed_key x feed_id) (record {
          feed_id = feed_id;
          name = name;
          admin = cmd.submitter;
          reporters = reporters;
          quorum = quorum;
          round = 0;
        }))
    pure (single (event cmd (feed_registered feed_id name quorum)) 5000)

  unfoldable pub handle_report :
      Command → Hash → ℕ → Text → List ReporterSig → Action StateTree PrismError PrismOutput
  handle_report cmd feed_id round value signatures = do
    feed ← load_feed feed_id
    raise_if (leb round feed.round) (invalid_payload (lit "round must strictly advance"))
    let counted = count_reporters v feed.reporters (report_digest feed_id round value) signatures []
    raise_if (ltb (length counted % 2 ^ 32) feed.quorum) (
        unauthorized (
          lit "insufficient reporter quorum: "
          ++ (to_decimal (length counted) ++ (lit "/" ++ to_decimal feed.quorum))))
    or_internal (put_json c.feed (feed_key x feed_id) (record feed { round = round }))
    or_internal (
        put_json c.value (value_key x feed_id)
          (record { feed_id = feed_id; round = round; value = value; reporters = counted }))
    pure (single (event cmd (value_updated feed_id round value (length counted % 2 ^ 32))) 6000)

  unfoldable pub dispatch : Command → OracleCommand → Action StateTree PrismError PrismOutput
  dispatch cmd (register_feed name reporters quorum) =
      handle_register_feed cmd name reporters quorum
  dispatch cmd (report feed_id round value signatures) =
      handle_report cmd feed_id round value signatures

  unfoldable pub handle : Command → Action StateTree PrismError PrismOutput
  handle command s = elim (c.command.from_slice command.payload) [
    | ok cmd ↦ dispatch command cmd s
    | err e ↦ (err (invalid_payload e), s)
  ]

  unfoldable pub estimate : Command → StateTree → ℕ
  estimate command state = 6000

  unfoldable pub oracle_prism : Prism
  oracle_prism = record {
    info = record {
      name = lit "oracle";
      description = lit "Quorum-attested external data feeds (prices, AI outputs, off-chain facts)";
      version = lit "1.0";
    };
    handle = handle;
    estimate = estimate;
  }

  unfoldable pub latest_value : StateTree → Hash → Option FeedValue
  latest_value s feed_id = ok_flatten (get_json c.value (value_key x feed_id) s)
