-- ===== src/Tests/BridgeRuns.antt =====
-- The theorems on the bridge prism at a chain with two guardians.
use veilux_binary.Base.{
  ℕ, zero, suc, ◌+◌, ◌%◌, ◌≡◌, ◌≤◌, ◌&&◌, ◌⊎◌, refl, ap, true, some, List, [], ◌∷◌, Text, ok, err,
  ◌==◌, if◌then◌else◌, u64_mod,
}
use veilux_binary.Base.Order.{same, text_ord}
use veilux_binary.Kernel.Types.{PartyId}
use veilux_binary.Kernel.Hash.{Hash}
use veilux_binary.Kernel.State.{StateTree, put}
use veilux_binary.Kernel.Prism.{PrismError}
use veilux_binary.Token.Store.{balance}
use veilux_binary.Bridge.Types.{
  ForeignChain, as_u16, cosmos, solana, ethereum, custom, BridgeConfig, config_key, InboundTransfer,
  GuardianSignature, BridgeSerde, BridgeRoundTrips, inbound_digest,
}
use veilux_binary.Bridge.Quorum.{Signatures, IsAttested}
use veilux_binary.Bridge.Handle.{seq_key, read_seq, handle_redeem}
use veilux_binary.Bridge.Redeem.{config_of, handle_redeem_pays}
use veilux_binary.Bridge.Replay.{Request, Counts, accepted, accepted-Counts}
use veilux_binary.Tests.Codec.{Code, pair, list, text, number, serde, round_trips}
use veilux_binary.Tests.World.{
  crates, hex_laws, silent, tokens, tokens_read, alice, bob, gold, order, state,
}

abbrev of_chain : ForeignChain → ℕ
of_chain cosmos = 0
of_chain solana = 1
of_chain ethereum = 2
of_chain custom = 3

abbrev to_chain : ℕ → ForeignChain
to_chain zero = cosmos
to_chain (suc zero) = solana
to_chain (suc (suc zero)) = ethereum
to_chain (suc (suc (suc n))) = custom

chain_back : (chain : ForeignChain) → to_chain (of_chain chain) ≡ chain
chain_back cosmos = refl
chain_back solana = refl
chain_back ethereum = refl
chain_back custom = refl

abbrev config_code : Code (ℕ × (List Text × (ℕ × Text)))
config_code = pair number (pair (list text) (pair number text))

abbrev to_config : ℕ × (List Text × (ℕ × Text)) → BridgeConfig
to_config (a, (b, (c, d))) = record { chain = to_chain a; guardians = b; quorum = c; admin = d }

abbrev of_config : BridgeConfig → ℕ × (List Text × (ℕ × Text))
of_config m = (of_chain m.chain, (m.guardians, (m.quorum, m.admin)))

config_back : (m : BridgeConfig) → to_config (of_config m) ≡ m
config_back m = ap (λ (a : ForeignChain). record m { chain = a }) (chain_back m.chain)

abbrev bridges : BridgeSerde
bridges = record {
  token = tokens;
  number = serde number (λ n. n) (λ n. n) (λ n. refl);
  config = serde config_code to_config of_config config_back;
  command = silent;
  event = silent;
}

abbrev bridges_read : BridgeRoundTrips bridges
bridges_read = record {
  token = tokens_read;
  number = round_trips number (λ n. n) (λ n. n) (λ n. refl);
  config = round_trips config_code to_config of_config config_back;
}

abbrev pub bytes : ℕ → Text
bytes zero = []
bytes (suc n) = 9 ∷ bytes n

-- Every signature of 64 bytes checks.
abbrev pub trusting : Signatures
trusting = record {
  hex_decode = λ t. some t;
  ed25519 = record { is_key = λ k. true; verify = λ k m s. true };
}

abbrev config : BridgeConfig
config = record {
  chain = solana;
  guardians = bytes 32 ∷ (1 ∷ bytes 31) ∷ [];
  quorum = 1;
  admin = alice;
}

abbrev bridged : StateTree
bridged = put (config_key solana) ((bridges_read.config).bytes config) state

abbrev inbound : InboundTransfer
inbound = record {
  chain = solana;
  sequence = 0;
  foreign_sender = [];
  recipient = bob;
  token_id = gold;
  amount = 30;
}

abbrev signed : List GuardianSignature
signed = record { public_key = bytes 32; signature = bytes 64 } ∷ []

handle_redeem_pays_example :
    let (out, s) = handle_redeem crates trusting bridges (order alice) inbound signed bridged in
    ((found : BridgeConfig) × (n : ℕ) × (keys : List Text) × (config_of crates hex_laws trusting
          bridges bridges_read solana bridged
        ≡ ok found)
      × (found.quorum ≤ n)
      × IsAttested trusting found.guardians (inbound_digest crates inbound) signed n keys
      × (0 ≡ read_seq crates trusting bridges (seq_key solana) bridged)
      × ((chain : ForeignChain)
          → read_seq crates trusting bridges (seq_key chain) s ≡ (
              if as_u16 chain == as_u16 solana
              then (0 + 1) % u64_mod
              else read_seq crates trusting bridges (seq_key chain) bridged))
      × ((id : Hash) (who : PartyId)
          → balance crates tokens id who s ≡ (
              if same id gold && same who bob
              then balance crates tokens id who bridged + 30
              else balance crates tokens id who bridged)))
    ⊎ (((e : PrismError) × (out ≡ err e)) × (s ≡ bridged))
handle_redeem_pays_example =
    handle_redeem_pays crates hex_laws trusting bridges bridges_read (order alice) inbound signed
      bridged (handle_redeem crates trusting bridges (order alice) inbound signed bridged).1
      (handle_redeem crates trusting bridges (order alice) inbound signed bridged).0 refl

abbrev once : Request
once = record { command = order alice; transfer = inbound; signatures = signed }

accepted-Counts_example :
    Counts
      (read_seq crates trusting bridges (seq_key solana) bridged)
      (accepted crates trusting bridges solana (once ∷ once ∷ []) bridged)
accepted-Counts_example =
    accepted-Counts crates hex_laws trusting bridges bridges_read solana (once ∷ once ∷ []) bridged
