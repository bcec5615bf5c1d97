-- ===== src/Tests/World.antt =====
-- A concrete instance of the crates, and a state with a token, two holders, a vesting schedule and
-- a pool.
use veilux_binary.Base.{
  ◌+◌, ◌≡◌, ◌≢◌, refl, ap₂, true, false, [], ◌∷◌, Text, lit, ok, err, some, arith, All, parse_u128,
}
use veilux_binary.Base.Map as Entries
use veilux_binary.Base.Order.{text_cmp}
use veilux_binary.Kernel.Hash.{Crates, Hash, to_hex}
use veilux_binary.Kernel.Types.{PartyId, Command, public}
use veilux_binary.Kernel.State.{StateTree, new, put, get_json}
use veilux_binary.Kernel.State as Tree
use veilux_binary.Kernel.Serde.{Serde}
use veilux_binary.Token.Types.{TokenSerde, TokenRoundTrips, TokenMeta}
use veilux_binary.Token.Store.{
  balance, bal_key, meta_key, token_meta, allowance, allow_key, read_amount, ok_flatten,
}
use veilux_binary.Token.Keys.{HexLaws}
use veilux_binary.Vesting.Schedule.{Schedule, VestingSerde, VestingRoundTrips}
use veilux_binary.Dex.Pool.{Pool, DexSerde, DexRoundTrips}
use veilux_binary.Tests.Codec.{
  text_serde, serde, round_trips, text, number, meta, to_meta, of_meta, schedule, to_schedule,
  of_schedule, pool, to_pool, of_pool,
}
use veilux_binary.Vesting.Handle.{schedule_of, now}
use veilux_binary.Vesting.Handle as Vests
use veilux_binary.Dex.Handle.{pool_of}
use veilux_binary.Dex.Handle as Pools

-- Each byte as one number above all separators.
abbrev pub shift : Text → Text
shift [] = []
shift (n ∷ t) = (48 + n) ∷ shift t

abbrev pub crates : Crates
crates = record { blake3 = λ b. b; hex_encode = shift }

pub shift-no_slash : (t : Text) → All (λ d. d ≢ 47) (shift t)
shift-no_slash [] = tt
shift-no_slash (n ∷ t) = (omega arith, shift-no_slash t)

pub shift-injective : (s t : Text) → shift s ≡ shift t → s ≡ t
shift-injective [] [] e = refl
shift-injective [] (n ∷ t) e = absurd (cc)
shift-injective (m ∷ s) [] e = absurd (cc)
shift-injective (m ∷ s) (n ∷ t) e = ap₂ ◌∷◌ (first (cc)) (shift-injective s t (cc))
  where
    first : 48 + m ≡ 48 + n → m ≡ n
    first h = omega arith

abbrev pub hex_laws : HexLaws crates
hex_laws = record { no_slash = shift-no_slash; injective = shift-injective }

-- For the types that the code only writes or only reads, without a law.
abbrev pub silent : {T : Type 0} → Serde T
silent = record { to_vec = λ v. ok []; from_slice = λ t. err [] }

abbrev pub tokens : TokenSerde
tokens = record {
  string = text_serde;
  meta = serde meta to_meta of_meta (λ m. refl);
  command = silent;
  event = silent;
}

abbrev pub tokens_read : TokenRoundTrips tokens
tokens_read = record {
  string = round_trips text (λ t. t) (λ t. t) (λ t. refl);
  meta = round_trips meta to_meta of_meta (λ m. refl);
}

abbrev pub vests : VestingSerde
vests = record {
  token = tokens;
  number = serde number (λ n. n) (λ n. n) (λ n. refl);
  schedule = serde schedule to_schedule of_schedule (λ s. refl);
  command = silent;
  event = silent;
}

abbrev pub vests_read : VestingRoundTrips vests
vests_read = record {
  token = tokens_read;
  schedule = round_trips schedule to_schedule of_schedule (λ s. refl);
}

abbrev pub pools : DexSerde
pools = record {
  token = tokens;
  pool = serde pool to_pool of_pool (λ p. refl);
  command = silent;
  event = silent;
}

abbrev pub pools_read : DexRoundTrips pools
pools_read = record { token = tokens_read; pool = round_trips pool to_pool of_pool (λ p. refl) }

abbrev pub alice : PartyId
alice = 97 ∷ []

abbrev pub bob : PartyId
bob = 98 ∷ []

abbrev pub carol : PartyId
carol = 99 ∷ []

abbrev pub gold : Hash
gold = 1 ∷ []

abbrev pub silver : Hash
silver = 2 ∷ []

abbrev pub market : Hash
market = 3 ∷ []

abbrev pub grant : Hash
grant = 4 ∷ []

abbrev pub coin : Hash → TokenMeta
coin id = record {
  token_id = id;
  name = [];
  symbol = [];
  decimals = 6;
  total_supply = 150;
  owner = alice;
  mintable = true;
}

-- A text in the store.
abbrev pub stored : Text → Text
stored t = (round_trips text (λ t. t) (λ t. t) (λ t. refl)).bytes t

abbrev pub sched : Schedule
sched = record {
  id = grant;
  token_id = gold;
  funder = alice;
  beneficiary = bob;
  total = 1000;
  released = 100;
  start = 10;
  cliff = 5;
  duration = 100;
  revocable = true;
  revoked = false;
}

-- A pool of 1000 gold and 2000 silver with two providers.
abbrev pub fund : Pool
fund = record {
  id = market;
  token_a = gold;
  token_b = silver;
  reserve_a = 1000;
  reserve_b = 2000;
  total_shares = 1400;
  shares = (alice, 400) ∷ (bob, 1000) ∷ [];
}

-- The clock of the chain stands at 60.
abbrev pub state : StateTree
state = put (meta_key crates gold) ((tokens_read.meta).bytes (coin gold)) (
    put (bal_key crates gold alice) (stored (49 ∷ 48 ∷ 48 ∷ [])) (
      put (bal_key crates gold bob) (stored (53 ∷ 48 ∷ [])) (
        put (allow_key crates gold alice carol) (stored (52 ∷ 48 ∷ [])) (
          put (Vests.key crates grant) ((vests_read.schedule).bytes sched) (
            put (Pools.key crates market) ((pools_read.pool).bytes fund)
              (put (lit "chain/now") (60 ∷ []) new))))))

abbrev pub order : PartyId → Command
order who = record {
  prism = lit "token";
  submitter = who;
  visibility = public;
  payload = [];
  nonce = 1;
}

pub state-meta : token_meta crates tokens gold state ≡ some (coin gold)
unfolding token_meta meta_key ok_flatten bal_key allow_key Vests.key Pools.key get_json Tree.get
    Tree.put Entries.get Entries.insert to_hex lit text_cmp new
state-meta = refl

pub state-alice : balance crates tokens gold alice state ≡ 100
unfolding balance meta_key bal_key allow_key read_amount parse_u128 Vests.key Pools.key get_json
    Tree.get Tree.put Entries.get Entries.insert to_hex lit text_cmp new
state-alice = refl

pub state-bob : balance crates tokens gold bob state ≡ 50
unfolding balance meta_key bal_key allow_key read_amount parse_u128 Vests.key Pools.key get_json
    Tree.get Tree.put Entries.get Entries.insert to_hex lit text_cmp new
state-bob = refl

pub state-carol : balance crates tokens gold carol state ≡ 0
unfolding balance meta_key bal_key allow_key read_amount parse_u128 Vests.key Pools.key get_json
    Tree.get Tree.put Entries.get Entries.insert to_hex lit text_cmp new
state-carol = refl

pub state-silver : balance crates tokens silver alice state ≡ 0
unfolding balance meta_key bal_key allow_key read_amount parse_u128 Vests.key Pools.key get_json
    Tree.get Tree.put Entries.get Entries.insert to_hex lit text_cmp new
state-silver = refl

pub state-allowance : allowance crates tokens gold alice carol state ≡ 40
unfolding allowance meta_key bal_key allow_key read_amount parse_u128 Vests.key Pools.key get_json
    Tree.get Tree.put Entries.get Entries.insert to_hex lit text_cmp new
state-allowance = refl

pub state-sched : schedule_of crates vests grant state ≡ some sched
unfolding schedule_of ok_flatten meta_key bal_key allow_key Vests.key Pools.key get_json Tree.get
    Tree.put Entries.get Entries.insert to_hex lit text_cmp new
state-sched = refl

pub state-now : now crates vests state ≡ 60
unfolding now ok_flatten Vests.or_zero meta_key bal_key allow_key Vests.key Pools.key get_json
    Tree.get Tree.put Entries.get Entries.insert to_hex lit text_cmp new
state-now = refl

pub state-fund : pool_of crates pools market state ≡ some fund
unfolding pool_of ok_flatten meta_key bal_key allow_key Vests.key Pools.key get_json Tree.get
    Tree.put Entries.get Entries.insert to_hex lit text_cmp new
state-fund = refl
