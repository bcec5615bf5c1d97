-- ===== src/Consensus/Commits.antt =====
-- When a block is committed, and that a commit stays (consensus/src/lib.rs).
use veilux_binary.Base.{
  ℕ, ◌≡◌, ◌≢◌, ◌≤◌, refl, ap, sym, ◌∙◌, true, false, none, some, List, ok, arith,
}
use veilux_binary.Base.Order.{same_refl, text_ord, nat_ord, pair_ord}
use veilux_binary.Base.Map as Entries
use veilux_binary.Base.Map.{Map, get-insert}
use veilux_binary.Kernel.Hash.{Hash}
use veilux_binary.Kernel.Types.{PartyId}
use veilux_binary.Consensus.Validators.{
  Validator, ValidatorSet, get_validator, is_validator, quorum_threshold,
}
use veilux_binary.Consensus.Votes.{
  Vote, VoteKind, VoteSet, precommit, prevote, signing_bytes, add_vote_to_set, add_cast, cast,
  precommit_power, precommitters,
}
use veilux_binary.Consensus.Engine.{
  Aurora, Ed25519, CommitOutcome, committed, verify_bytes, is_precommit, round_votes, settle,
  tally_vote, add_vote, add_local_vote, is_committed,
}

-- The set of votes that a vote leaves behind in its round.
abbrev pub voted : Vote → Aurora → VoteSet
voted vote a = (add_vote_to_set vote a.validators (round_votes vote a)).1

settle-keeps :
    (vote : Vote) (votes : VoteSet) (height : ℕ) (block : Hash) (a : Aurora)
    → Entries.contains_key vote.height a.commits ≡ false
    → is_committed a height ≡ some block
    → is_committed (settle vote votes a).1 height ≡ some block
unfolding settle is_committed Entries.contains_key
settle-keeps vote votes height block a n h = ground (
  arith,
  get-insert vote.height height vote.block_hash a.commits,
  nat_ord.cmp_eq height vote.height,
)

tally_vote-keeps :
    (vote : Vote) (height : ℕ) (block : Hash) (a : Aurora)
    → is_committed a height ≡ some block
    → is_committed (tally_vote vote a).1 height ≡ some block
unfolding tally_vote is_committed
tally_vote-keeps vote height block a h = ground (
  arith,
  settle-keeps vote (voted vote a) height block
      (record a { rounds = Entries.insert (vote.height, vote.round) (voted vote a) a.rounds }),
)

-- A height that is committed stays committed to the same block, whatever vote arrives, from the
-- network or local, valid or not.
pub committed_final :
    (d : Ed25519) (vote : Vote) (height : ℕ) (block : Hash) (a : Aurora)
    → is_committed a height ≡ some block
    → (is_committed (add_vote d vote a).1 height ≡ some block)
      × (is_committed (add_local_vote vote a).1 height ≡ some block)
unfolding add_vote add_local_vote
committed_final d vote height block a h = (
  ground (arith, tally_vote-keeps vote height block a h),
  ground (arith, tally_vote-keeps vote height block a h),
)

-- A vote of the network that is not signed by the key of a known validator is refused and changes
-- nothing.
pub add_vote_unsigned :
    (d : Ed25519) (vote : Vote) (a : Aurora)
    → ((v : Validator)
        → get_validator vote.voter a.validators ≡ some v
        → verify_bytes d v.public_key (signing_bytes vote) vote.signature ≢ ok tt)
    → ((add_vote d vote a).1 ≡ a) × ((outcome : CommitOutcome) → (add_vote d vote a).0 ≢ ok outcome)
unfolding add_vote
add_vote_unsigned d vote a h = (grind arith, λ outcome e. grind arith)

settle_commits :
    (vote : Vote) (votes : VoteSet) (a : Aurora) (height : ℕ) (block : Hash) (who : List PartyId)
    (power : ℕ)
    → (settle vote votes a).0 ≡ ok (committed height block who power)
    → (height ≡ vote.height)
      × (block ≡ vote.block_hash)
      × (is_precommit vote.kind ≡ true)
      × (who ≡ precommitters votes vote.block_hash)
      × (power ≡ precommit_power votes vote.block_hash a.validators)
      × (quorum_threshold a.validators ≤ precommit_power votes vote.block_hash a.validators)
      × ((settle vote votes a).1
          ≡ record a { commits = Entries.insert vote.height vote.block_hash a.commits })
unfolding settle
settle_commits vote votes a height block who power h = (
  ground arith,
  ground arith,
  ground arith,
  ground arith,
  ground arith,
  ground arith,
  ground arith,
)

-- The engine with the vote in its round.
abbrev pub with_voted : Vote → Aurora → Aurora
with_voted vote a = record a {
  rounds = Entries.insert (vote.height, vote.round) (voted vote a) a.rounds;
}

tally_vote_settles :
    (vote : Vote) (a : Aurora) (height : ℕ) (block : Hash) (who : List PartyId) (power : ℕ)
    → (tally_vote vote a).0 ≡ ok (committed height block who power)
    → (Entries.contains_key vote.height a.commits ≡ false)
      × ((add_vote_to_set vote a.validators (round_votes vote a)).0 ≡ ok true)
      × (tally_vote vote a ≡ settle vote (voted vote a) (with_voted vote a))
unfolding tally_vote
tally_vote_settles vote a height block who power h = (ground arith, ground arith, ground arith)

add_vote_to_set-validator :
    (vote : Vote) (set : ValidatorSet) (votes : VoteSet)
    → (add_vote_to_set vote set votes).0 ≡ ok true
    → is_validator set vote.voter ≡ true
unfolding add_vote_to_set
add_vote_to_set-validator vote set votes h = ground arith

-- A vote that is new in the set is the first of its voter and kind there.
add_cast_new :
    (voter : PartyId) (block : Hash) (votes : VoteSet)
    → (add_cast precommit voter block votes).0 ≡ ok true
    → Entries.get voter votes.precommits.seen ≡ none
unfolding add_cast cast
add_cast_new voter block votes h = ground arith

add_vote_to_set_new :
    (vote : Vote) (set : ValidatorSet) (votes : VoteSet)
    → vote.kind ≡ precommit
    → (add_vote_to_set vote set votes).0 ≡ ok true
    → Entries.get vote.voter votes.precommits.seen ≡ none
unfolding add_vote_to_set
add_vote_to_set_new vote set votes k h =
    add_cast_new vote.voter vote.block_hash votes
      (ap (λ kind. (add_cast kind vote.voter vote.block_hash votes).0) (sym k) ∙ ground arith)

is_precommit_lem : (k : VoteKind) → is_precommit k ≡ true → k ≡ precommit
is_precommit_lem prevote h = absurd (ground arith)
is_precommit_lem precommit h = refl

uncommitted :
    (height : ℕ) (a : Aurora)
    → Entries.contains_key height a.commits ≡ false
    → is_committed a height ≡ none
unfolding Entries.contains_key is_committed
uncommitted height a h = ground arith

get-inserted :
    (height : ℕ) (block : Hash) (m : Map ℕ Hash)
    → Entries.get height (Entries.insert height block m) ≡ some block
get-inserted height block m = rw (get-insert height height block m) (rw (same_refl height) refl)

-- A vote commits a block only where it is a precommit for it by an active validator who had no
-- precommit in the round before, at a height that was not committed, and the precommits of its
-- round for the block, once the vote is added, have at least the power of the quorum; the height
-- is then committed to the block.
pub tally_vote_commits :
    (vote : Vote) (a : Aurora) (height : ℕ) (block : Hash) (who : List PartyId) (power : ℕ)
    → (tally_vote vote a).0 ≡ ok (committed height block who power)
    → (height ≡ vote.height)
      × (block ≡ vote.block_hash)
      × (vote.kind ≡ precommit)
      × (is_validator a.validators vote.voter ≡ true)
      × (Entries.get vote.voter (round_votes vote a).precommits.seen ≡ none)
      × (is_committed a height ≡ none)
      × (who ≡ precommitters (voted vote a) block)
      × (power ≡ precommit_power (voted vote a) block a.validators)
      × (quorum_threshold a.validators ≤ power)
      × (is_committed (tally_vote vote a).1 height ≡ some block)
unfolding is_committed
tally_vote_commits vote a height block who power h =
    let (fresh, new_, ends) = tally_vote_settles vote a height block who power h in
    let settled =
      settle_commits vote (voted vote a) (with_voted vote a) height block who power (cc) in
    (
      settled.0,
      settled.1,
      is_precommit_lem vote.kind settled.2,
      add_vote_to_set-validator vote a.validators (round_votes vote a) new_,
      add_vote_to_set_new vote a.validators (round_votes vote a)
          (is_precommit_lem vote.kind settled.2) new_,
      rw settled.0 (uncommitted vote.height a fresh),
      cc,
      cc,
      rw settled.4 settled.5,
      rw (settled.0, settled.1)
          (ap (λ r. Entries.get vote.height (r.1).commits) ends
            ∙ ap (λ b. Entries.get vote.height b.commits) settled.6
            ∙ get-inserted vote.height vote.block_hash a.commits),
    )
