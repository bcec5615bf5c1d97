-- ===== src/Tests/MultisigRuns.antt =====
-- The theorems on the multisig prism at an account of two owners and one of a single owner.
use veilux_binary.Base.{
  ℕ, ◌+◌, ◌%◌, ◌≡◌, refl, ap, Bool, true, false, some, List, [], ◌∷◌, Text, lit, ok, length,
  u64_mod, to_decimal,
}
use veilux_binary.Base.Map as Entries
use veilux_binary.Base.Map.{Map}
use veilux_binary.Base.Order.{text_cmp, text_ord}
use veilux_binary.Kernel.Hash.{Hash, to_hex}
use veilux_binary.Kernel.Types.{PartyId, Visibility, public, parties, Command, contains}
use veilux_binary.Kernel.State.{StateTree, put, get_json, put_json, new}
use veilux_binary.Kernel.State as Tree
use veilux_binary.Kernel.Prism.{Prism, PrismOutput, single, or_internal}
use veilux_binary.Kernel.Cascade.{Cascade, apply}
use veilux_binary.Token.Store.{ok_flatten}
use veilux_binary.Multisig.Types.{
  MultisigAccount, PendingTx, MultisigSerde, MultisigRoundTrips, propose, was_proposed,
  was_executed, account_created,
}
use veilux_binary.Multisig.Handle.{
  acc_key, tx_key, event, multisig_prism, account_id, pending_tx, handle_create_account,
  push_unique, account_hash,
}
use veilux_binary.Multisig.Votes.{IsPending}
use veilux_binary.Multisig.Once.{Vote, yes_from, no_from, run_votes, After, run_votes-After}
use veilux_binary.Multisig.Accounts.{
  IsAccount, proposed, new_account, handle_create_account-IsAccount,
}
use veilux_binary.Multisig.Spend.{apply-any_submitter}
use veilux_binary.Tests.Codec.{Code, pair, list, text, number, flag, serde, round_trips}
use veilux_binary.Tests.World.{crates, silent, alice, bob, carol, order}

abbrev account_code : Code (Text × (List Text × (ℕ × ℕ)))
account_code = pair text (pair (list text) (pair number number))

abbrev to_account : Text × (List Text × (ℕ × ℕ)) → MultisigAccount
to_account (a, (b, (c, d))) = record { id = a; owners = b; threshold = c; nonce = d }

abbrev of_account : MultisigAccount → Text × (List Text × (ℕ × ℕ))
of_account m = (m.id, (m.owners, (m.threshold, m.nonce)))

abbrev nothing : Code (Unit {0})
nothing = record { write = λ u t. t; read = λ t. some (tt, t); reads = λ u t. refl }

abbrev to_visibility : Bool × List Text → Visibility
to_visibility (true, ps) = parties ps
to_visibility (false, ps) = public

abbrev of_visibility : Visibility → Bool × List Text
of_visibility public = (false, [])
of_visibility (parties ps) = (true, ps)

visibility_back : (v : Visibility) → to_visibility (of_visibility v) ≡ v
visibility_back public = refl
visibility_back (parties ps) = refl

abbrev Written : Type 0
Written =
    Text
    × (ℕ × ((Text × (Text × ((Bool × List Text) × (Text × ℕ)))) × (List (Text × Unit {0}) × Bool)))

abbrev pending_code : Code Written
pending_code = pair text (
    pair number (
      pair (pair text (pair text (pair (pair flag (list text)) (pair text number))))
        (pair (list (pair text nothing)) flag)))

abbrev to_pending : Written → PendingTx
to_pending (a, (b, ((p, (s, (v, (y, n)))), (c, d)))) = record {
  account = a;
  seq = b;
  inner = record { prism = p; submitter = s; visibility = to_visibility v; payload = y; nonce = n };
  confirmations = c;
  executed = d;
}

abbrev of_pending : PendingTx → Written
of_pending t = (
  t.account,
  (
    t.seq,
    (
      (
        t.inner.prism,
        (t.inner.submitter, (of_visibility t.inner.visibility, (t.inner.payload, t.inner.nonce))),
      ),
      (t.confirmations, t.executed),
    ),
  ),
)

pending_back : (t : PendingTx) → to_pending (of_pending t) ≡ t
pending_back t =
    ap (λ (v : Visibility). record t { inner = record t.inner { visibility = v } })
      (visibility_back t.inner.visibility)

abbrev vault : Hash
vault = 8 ∷ []

abbrev theft : Command
theft = record (order bob) { payload = 9 ∷ [] }

-- Every payload reads as the proposal of `theft`.
abbrev safes : MultisigSerde
safes = record {
  account = serde account_code to_account of_account (λ m. refl);
  pending = serde pending_code to_pending of_pending pending_back;
  command = record { to_vec = λ v. ok []; from_slice = λ t. ok (propose vault theft) };
  event = silent;
}

abbrev safes_read : MultisigRoundTrips safes
safes_read = record {
  account = round_trips account_code to_account of_account (λ m. refl);
  pending = round_trips pending_code to_pending of_pending pending_back;
}

abbrev shared : MultisigAccount
shared = record { id = vault; owners = alice ∷ bob ∷ []; threshold = 2; nonce = 1 }

abbrev waiting : PendingTx
waiting = record {
  account = vault;
  seq = 0;
  inner = theft;
  confirmations = (alice, tt) ∷ [];
  executed = false;
}

abbrev state : StateTree
state =
    put (acc_key crates vault) ((safes_read.account).bytes shared)
      (put (tx_key crates vault 0) ((safes_read.pending).bytes waiting) new)

state-shared : account_id crates safes state vault ≡ some shared
unfolding account_id ok_flatten get_json acc_key tx_key Tree.get Tree.put Entries.get Entries.insert
    to_hex to_decimal text_cmp new lit
state-shared = refl

state-waiting : pending_tx crates safes state vault 0 ≡ some waiting
unfolding pending_tx ok_flatten get_json acc_key tx_key Tree.get Tree.put Entries.get Entries.insert
    to_hex to_decimal text_cmp new lit
state-waiting = refl

waiting-IsPending : IsPending shared waiting
unfolding contains text_cmp
waiting-IsPending = record { sorted = (tt, tt); owned = (refl, tt); agreed = λ e. absurd (cc) }

abbrev votes : List Vote
votes =
    no_from (order alice)
    ∷ yes_from (order carol)
    ∷ yes_from (order bob)
    ∷ yes_from (order alice)
    ∷ yes_from (order bob)
    ∷ []

run_votes-After_example :
    After crates safes vault 0 shared waiting
      (run_votes crates safes vault 0 votes state).0
      (run_votes crates safes vault 0 votes state).1
run_votes-After_example =
    run_votes-After crates safes safes_read vault 0 shared votes waiting state state-shared
      state-waiting waiting-IsPending

owner-alice : contains (alice ∷ bob ∷ []) alice ≡ true
unfolding contains text_cmp
owner-alice = refl

abbrev members : List PartyId
members = alice ∷ bob ∷ alice ∷ []

abbrev made : PrismOutput
made =
    single
      (event crates safes (order alice) (
        account_created (account_hash crates safes alice 2 (push_unique [] members)) 2
          (length (push_unique [] members))))
      4000

created :
    handle_create_account crates safes (order alice) members 2 new
    ≡ (ok made, (handle_create_account crates safes (order alice) members 2 new).1)
unfolding handle_create_account push_unique contains Tree.contains Entries.contains_key Entries.get
    acc_key or_internal put_json new lit text_cmp
created = refl

handle_create_account-IsAccount_example :
    let acc = new_account crates safes safes_read alice members 2 in
    (account_id crates safes
        (handle_create_account crates safes (order alice) members 2 new).1
        acc.id
      ≡ some acc)
    × IsAccount acc
    × (Tree.contains (acc_key crates acc.id) new ≡ false)
handle_create_account-IsAccount_example =
    handle_create_account-IsAccount crates safes safes_read (order alice) members 2 new made _
      created

abbrev own : MultisigAccount
own = record { id = vault; owners = alice ∷ []; threshold = 1; nonce = 0 }

abbrev alone : StateTree
alone = put (acc_key crates vault) ((safes_read.account).bytes own) new

alone-own : account_id crates safes alone vault ≡ some own
unfolding account_id ok_flatten get_json acc_key Tree.get Tree.put Entries.get Entries.insert to_hex
    text_cmp new lit
alone-own = refl

-- A prism that notes who submitted a command.
abbrev ledger : Prism
ledger = record {
  info = record { name = lit "token"; description = []; version = [] };
  handle = λ cmd s. (
    ok (record { events = []; derived_commands = []; cost = 7 }),
    put cmd.submitter cmd.payload s,
  );
  estimate = λ cmd s. 7;
}

abbrev net : Cascade
net = record {
  prisms = (lit "multisig", multisig_prism crates safes) ∷ (lit "token", ledger) ∷ [];
  order = [];
}

abbrev request : Command
request = record (order alice) { prism = lit "multisig" }

net-multisig : Entries.get request.prism net.prisms ≡ some (multisig_prism crates safes)
unfolding Entries.get lit text_cmp
net-multisig = refl

net-ledger : Entries.get theft.prism net.prisms ≡ some ledger
unfolding Entries.get lit text_cmp
net-ledger = refl

owner-alone : contains (alice ∷ []) alice ≡ true
unfolding contains text_cmp
owner-alone = refl

apply-any_submitter_example : apply net request alone ≡ (
  ok (record {
    events =
        event crates safes request (was_proposed vault 0 alice)
        ∷ event crates safes request (was_executed vault 0)
        ∷ [];
    total_cost = (3000 + 7) % u64_mod;
    depth = 2;
  }),
  put bob (9 ∷ []) (proposed crates safes safes_read vault own alice theft alone),
)
apply-any_submitter_example =
    apply-any_submitter crates safes safes_read net ledger request theft vault own alone
      (put bob (9 ∷ []) (proposed crates safes safes_read vault own alice theft alone))
      (record { events = []; derived_commands = []; cost = 7 }) net-multisig net-ledger refl
      alone-own owner-alone refl refl refl
