-- ===== src/Tests/OracleRuns.antt =====
-- The theorem on the oracle prism at a feed of two reporters.
use veilux_binary.Base.{
  ℕ, ◌≡◌, ◌≤◌, ◌<◌, ◌⊎◌, refl, some, List, [], ◌∷◌, Text, lit, ok, err, length,
}
use veilux_binary.Base.Map as Entries
use veilux_binary.Base.Order.{text_cmp}
use veilux_binary.Kernel.Hash.{Hash, to_hex}
use veilux_binary.Kernel.State.{StateTree, put, get_json, new}
use veilux_binary.Kernel.State as Tree
use veilux_binary.Kernel.Prism.{PrismError, or_internal}
use veilux_binary.Oracle.Types.{
  Feed, FeedValue, ReporterSig, OracleSerde, OracleRoundTrips, report_digest,
}
use veilux_binary.Oracle.Handle.{feed_key, load_feed, handle_report, latest_value}
use veilux_binary.Oracle.Report.{IsWitnessed, feed_of, handle_report_advances}
use veilux_binary.Tests.Codec.{Code, pair, list, text, number, serde, round_trips}
use veilux_binary.Tests.World.{crates, silent, alice, bob, order}
use veilux_binary.Tests.BridgeRuns.{trusting, bytes}

abbrev Fields : Type 0
Fields = Text × (Text × (Text × (List Text × (ℕ × ℕ))))

abbrev feed_code : Code Fields
feed_code = pair text (pair text (pair text (pair (list text) (pair number number))))

abbrev to_feed : Fields → Feed
to_feed (a, (b, (c, (d, (e, f))))) = record {
  feed_id = a;
  name = b;
  admin = c;
  reporters = d;
  quorum = e;
  round = f;
}

abbrev of_feed : Feed → Fields
of_feed m = (m.feed_id, (m.name, (m.admin, (m.reporters, (m.quorum, m.round)))))

abbrev value_code : Code (Text × (ℕ × (Text × List Text)))
value_code = pair text (pair number (pair text (list text)))

abbrev to_value : Text × (ℕ × (Text × List Text)) → FeedValue
to_value (a, (b, (c, d))) = record { feed_id = a; round = b; value = c; reporters = d }

abbrev of_value : FeedValue → Text × (ℕ × (Text × List Text))
of_value m = (m.feed_id, (m.round, (m.value, m.reporters)))

abbrev oracles : OracleSerde
oracles = record {
  feed = serde feed_code to_feed of_feed (λ m. refl);
  value = serde value_code to_value of_value (λ m. refl);
  command = silent;
  event = silent;
}

abbrev oracles_read : OracleRoundTrips oracles
oracles_read = record {
  feed = round_trips feed_code to_feed of_feed (λ m. refl);
  value = round_trips value_code to_value of_value (λ m. refl);
}

abbrev price : Hash
price = 7 ∷ []

abbrev feed : Feed
feed = record {
  feed_id = price;
  name = [];
  admin = alice;
  reporters = bytes 32 ∷ (1 ∷ bytes 31) ∷ [];
  quorum = 1;
  round = 4;
}

abbrev fed : StateTree
fed = put (feed_key crates price) ((oracles_read.feed).bytes feed) new

fed-feed : feed_of crates trusting oracles oracles_read price fed ≡ ok feed
unfolding feed_of load_feed or_internal get_json feed_key Tree.get Tree.put Entries.get
    Entries.insert to_hex text_cmp new lit
fed-feed = refl

abbrev signed : List ReporterSig
signed = record { public_key = bytes 32; signature = bytes 64 } ∷ []

handle_report_advances_example :
    let (out, s) = handle_report crates trusting oracles (order bob) price 5 (2 ∷ []) signed fed in
    ((4 < 5)
      × ((keys : List Text) × IsWitnessed trusting feed.reporters
            (report_digest price 5 (2 ∷ []))
            signed
            keys
          × (1 ≤ length keys)
          × (latest_value crates trusting oracles s price
              ≡ some (record { feed_id = price; round = 5; value = 2 ∷ []; reporters = keys }))
          × (feed_of crates trusting oracles oracles_read price s
              ≡ ok (record feed { round = 5 }))))
    ⊎ (((e : PrismError) × (out ≡ err e)) × (s ≡ fed))
handle_report_advances_example =
    handle_report_advances crates trusting oracles oracles_read (order bob) price 5 (2 ∷ []) signed
      feed fed fed-feed
