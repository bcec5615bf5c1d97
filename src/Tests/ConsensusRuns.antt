-- ===== src/Tests/ConsensusRuns.antt =====
-- The theorems on the consensus at a concrete engine of one validator.
use veilux_binary.Base.{◌≡◌, ◌≢◌, ◌≤◌, refl, true, false, [], ◌∷◌, Text, ok, some, none, arith}
use veilux_binary.Base.Map as Entries
use veilux_binary.Base.Map.{IsSorted}
use veilux_binary.Base.Order.{text_ord, text_cmp}
use veilux_binary.Consensus.Validators.{
  ValidatorSet, new_validator, is_validator, get_validator, quorum_threshold, total_stake,
  sum_stakes, values,
}
use veilux_binary.Consensus.Votes.{
  Vote, VoteSet, precommit, new_vote_set, add_vote_to_set, add_cast, cast, voters_of, sum_power,
  power, precommit_power, precommitters,
}
use veilux_binary.Consensus.Engine.{
  Aurora, Ed25519, CommitOutcome, committed, default_config, verify_bytes, tally_vote, settle,
  round_votes, add_vote, add_local_vote, is_committed,
}
use veilux_binary.Consensus.Ballots.{IsBallot, VoteSet-IsVoteSet}
use veilux_binary.Consensus.Quorum.{AllActive, quorum_unique}
use veilux_binary.Consensus.Commits.{voted, committed_final, add_vote_unsigned, tally_vote_commits}
use veilux_binary.Tests.World.{alice, market, grant}

abbrev one : ValidatorSet
one = record { validators = (alice, new_validator alice [] 100) ∷ [] }

abbrev ballot_paper : Vote
ballot_paper = record {
  height = 5;
  round = 0;
  block_hash = market;
  voter = alice;
  kind = precommit;
  signature = [];
}

abbrev engine : Aurora
engine = record {
  config = default_config;
  validators = one;
  me = some alice;
  rounds = [];
  commits = (4, grant) ∷ [];
}

-- Accepts no signature.
abbrev strict : Ed25519
strict = record { is_key = λ k. true; verify = λ k m s. false }

strict_refuses : (k m s : Text) → verify_bytes strict k m s ≢ ok tt
unfolding verify_bytes
strict_refuses k m s e = ground arith

engine-four : is_committed engine 4 ≡ some grant
unfolding is_committed Entries.get
engine-four = refl

committed_final_example :
    (is_committed (add_vote strict ballot_paper engine).1 4 ≡ some grant)
    × (is_committed (add_local_vote ballot_paper engine).1 4 ≡ some grant)
committed_final_example = committed_final strict ballot_paper 4 grant engine engine-four

add_vote_unsigned_example :
    ((add_vote strict ballot_paper engine).1 ≡ engine)
    × ((outcome : CommitOutcome) → (add_vote strict ballot_paper engine).0 ≢ ok outcome)
add_vote_unsigned_example =
    add_vote_unsigned strict ballot_paper engine (λ v e. strict_refuses v.public_key _ _)

tallied : (tally_vote ballot_paper engine).0 ≡ ok (committed 5 market (alice ∷ []) 100)
unfolding tally_vote settle round_votes add_vote_to_set add_cast cast voters_of sum_power power
    precommit_power precommitters new_vote_set is_validator get_validator quorum_threshold
    total_stake sum_stakes values new_validator Entries.get Entries.insert Entries.contains_key
    text_cmp
tallied = refl

tally_vote_commits_example :
    (ballot_paper.height ≡ ballot_paper.height)
    × (market ≡ market)
    × (precommit ≡ precommit)
    × (is_validator one alice ≡ true)
    × (Entries.get alice (round_votes ballot_paper engine).precommits.seen ≡ none)
    × (is_committed engine 5 ≡ none)
    × ((alice ∷ []) ≡ precommitters (voted ballot_paper engine) market)
    × (100 ≡ precommit_power (voted ballot_paper engine) market one)
    × (quorum_threshold one ≤ 100)
    × (is_committed (tally_vote ballot_paper engine).1 5 ≡ some market)
tally_vote_commits_example =
    tally_vote_commits ballot_paper engine 5 market (alice ∷ []) 100 tallied

abbrev ballots : VoteSet
ballots = (add_vote_to_set ballot_paper one new_vote_set).1

ballots-IsBallot : IsBallot ballots.precommits
ballots-IsBallot =
    (VoteSet-IsVoteSet.1 ballot_paper one new_vote_set VoteSet-IsVoteSet.0).precommits

ballots-active : AllActive one (voters_of market ballots.precommits)
unfolding add_vote_to_set add_cast cast voters_of new_vote_set is_validator new_validator
    Entries.get Entries.insert text_cmp
ballots-active = (refl, tt)

ballots-power : quorum_threshold one ≤ power ballots.precommits market one
unfolding add_vote_to_set add_cast cast voters_of sum_power power new_vote_set is_validator
    get_validator quorum_threshold total_stake sum_stakes values new_validator Entries.get
    Entries.insert text_cmp
ballots-power = omega arith

quorum_unique_example : market ≡ market
unfolding new_validator
quorum_unique_example =
    quorum_unique one ballots.precommits market market (tt, tt) (omega arith) ballots-IsBallot
      ballots-active ballots-active ballots-power ballots-power
