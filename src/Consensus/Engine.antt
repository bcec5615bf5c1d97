-- ===== src/Consensus/Engine.antt =====
-- The engine over the votes (consensus/src/lib.rs) and the check of a signature
-- (veil/src/identity.rs), where ed25519-dalek is a parameter.
use veilux_binary.Base.{
  ℕ, Bool, true, false, not, ◌&&◌, Option, none, some, List, [], ◌∷◌, Text, lit, Result, ok, err,
  Action, leb, ◌==◌, if◌then◌else◌, length,
}
use veilux_binary.Base.Order.{same, text_ord, nat_ord, pair_ord}
use veilux_binary.Base.Map as Entries
use veilux_binary.Base.Map.{Map}
use veilux_binary.Kernel.Hash.{Crates, Hash}
use veilux_binary.Kernel.Serde.{Serde}
use veilux_binary.Kernel.Types.{PartyId, Visibility, Block, compute_events_root}
use veilux_binary.Consensus.Validators.{
  ValidatorSet, get_validator, is_validator, proposer_for, quorum_threshold, record_missed,
}
use veilux_binary.Consensus.Votes.{
  Vote, VoteKind, VoteError, VoteSet, precommit, prevote, not_validator, signing_bytes,
  new_vote_set, add_vote_to_set, prevote_power, precommit_power, precommitters,
}

-- The crate `ed25519-dalek`.
pub record Ed25519 : Type 0 where
  -- whether `VerifyingKey::from_bytes` accepts the bytes
  pub is_key : Text → Bool
  -- whether `verify` accepts the signature of the message by the key
  pub verify : Text → Text → Text → Bool

pub data IdentityError : Type 0 where
  bad_public_key bad_signature verification_failed party_key_mismatch : IdentityError

unfoldable pub identity_error_text : IdentityError → Text
identity_error_text bad_public_key = lit "malformed public key"
identity_error_text bad_signature = lit "malformed signature"
identity_error_text verification_failed = lit "signature verification failed"
identity_error_text party_key_mismatch = lit "submitter party does not match signing key"

unfoldable pub verify_bytes : Ed25519 → Text → Text → Text → Result IdentityError (Unit {0})
verify_bytes d public_key message signature =
    if not (length public_key == 32)
    then err bad_public_key
    else (if not (d.is_key public_key)
        then err bad_public_key
        else (if not (length signature == 64)
            then err bad_signature
            else (if d.verify public_key message signature
                then ok tt
                else err verification_failed)))

pub record ConsensusConfig : Type 0 where
  pub jail_threshold : ℕ
  pub max_round : ℕ

unfoldable pub default_config : ConsensusConfig
default_config = record { jail_threshold = 50; max_round = 8 }

pub data ConsensusError : Type 0 where
  no_validators parent_mismatch events_root_mismatch : ConsensusError
  -- expected, got
  wrong_proposer : Text → Text → ConsensusError
  proposer_not_validator : Text → ConsensusError
  -- expected, got
  bad_height : ℕ → ℕ → ConsensusError
  bad_vote_signature : Text → ConsensusError
  from_vote : VoteError → ConsensusError

pub record Aurora : Type 0 where
  pub config : ConsensusConfig
  pub validators : ValidatorSet
  pub me : Option PartyId
  pub rounds : Map (ℕ × ℕ) VoteSet
  pub commits : Map ℕ Hash

pub data CommitOutcome : Type 0 where
  pending already_committed : CommitOutcome
  -- height, block_hash, committers, power
  committed : ℕ → Hash → List PartyId → ℕ → CommitOutcome

unfoldable pub new_aurora : ConsensusConfig → ValidatorSet → Option PartyId → Aurora
new_aurora config validators me = record {
  config = config;
  validators = validators;
  me = me;
  rounds = [];
  commits = [];
}

-- `Aurora::proposer_for`
unfoldable pub engine_proposer : Aurora → ℕ → ℕ → Option PartyId
engine_proposer a height round = proposer_for a.validators height round

unfoldable pub is_local_proposer : Aurora → ℕ → ℕ → Bool
unfolding engine_proposer
is_local_proposer a height round = elim a.me [
  | none ↦ false
  | some me ↦ elim (engine_proposer a height round) [ none ↦ false | some p ↦ same me p ]
]

unfoldable pub verify_proposal :
    Crates → Serde Visibility → Aurora → Block → Hash → ℕ → Result ConsensusError (Unit {0})
verify_proposal x visibilities a block parent_hash round =
    elim (engine_proposer a block.height round) [
      | none ↦ err no_validators
      | some expected ↦
          if not (same block.proposer expected)
          then err (wrong_proposer expected block.proposer)
          else (if not (is_validator a.validators block.proposer)
              then err (proposer_not_validator block.proposer)
              else (if not (same block.parent parent_hash)
                  then err parent_mismatch
                  else (if not (same (compute_events_root x visibilities block) block.events_root)
                      then err events_root_mismatch
                      else ok tt)))
    ]

-- `rounds.entry(..).or_default()`
unfoldable pub round_votes : Vote → Aurora → VoteSet
round_votes vote a = elim (Entries.get (vote.height, vote.round) a.rounds) [
  | none ↦ new_vote_set
  | some votes ↦ votes
]

abbrev pub is_precommit : VoteKind → Bool
is_precommit prevote = false
is_precommit precommit = true

-- The end of `tally_vote`, for a vote that is new in the set.
unfoldable pub settle : Vote → VoteSet → Action Aurora ConsensusError CommitOutcome
settle vote votes a =
    if is_precommit vote.kind
      && leb (quorum_threshold a.validators) (precommit_power votes vote.block_hash a.validators)
    then (
      ok (
          committed vote.height vote.block_hash (precommitters votes vote.block_hash)
            (precommit_power votes vote.block_hash a.validators)),
      record a { commits = Entries.insert vote.height vote.block_hash a.commits },
    )
    else (ok pending, a)

unfoldable pub tally_vote : Vote → Action Aurora ConsensusError CommitOutcome
unfolding round_votes
tally_vote vote a =
    if Entries.contains_key vote.height a.commits
    then (ok already_committed, a)
    else (let (r, votes) = add_vote_to_set vote a.validators (round_votes vote a) in
        let a' = record a { rounds = Entries.insert (vote.height, vote.round) votes a.rounds } in
        elim r [
          | err e ↦ (err (from_vote e), a')
          | ok is_new ↦ if not is_new then (ok pending, a') else settle vote votes a'
        ])

unfoldable pub add_vote : Ed25519 → Vote → Action Aurora ConsensusError CommitOutcome
add_vote d vote a = elim (get_validator vote.voter a.validators) [
  | none ↦ (err (from_vote (not_validator vote.voter)), a)
  | some v ↦ elim vote.signature [
    | [] ↦ (err (bad_vote_signature (lit "missing vote signature")), a)
    | s ∷ rest ↦ elim (verify_bytes d v.public_key (signing_bytes vote) vote.signature) [
      | err e ↦ (err (bad_vote_signature (identity_error_text e)), a)
      | ok t ↦ tally_vote vote a
    ]
  ]
]

unfoldable pub add_local_vote : Vote → Action Aurora ConsensusError CommitOutcome
add_local_vote vote a = elim a.me [
  | none ↦ (err (bad_vote_signature (lit "add_local_vote called for a non-local voter")), a)
  | some me ↦
      if same me vote.voter
      then tally_vote vote a
      else (err (bad_vote_signature (lit "add_local_vote called for a non-local voter")), a)
]

unfoldable pub has_prevote_quorum : Aurora → ℕ → ℕ → Hash → Bool
has_prevote_quorum a height round block = elim (Entries.get (height, round) a.rounds) [
  | none ↦ false
  | some votes ↦ leb (quorum_threshold a.validators) (prevote_power votes block a.validators)
]

unfoldable pub is_committed : Aurora → ℕ → Option Hash
is_committed a height = Entries.get height a.commits

unfoldable pub note_missed_proposer : ℕ → ℕ → Aurora → Aurora
note_missed_proposer height round a = elim (engine_proposer a height round) [
  | none ↦ a
  | some p ↦ record a { validators = record_missed p (a.config).jail_threshold a.validators }
]

-- The two calls of `retain`.
unfoldable pub keep_rounds : ℕ → Map (ℕ × ℕ) VoteSet → Map (ℕ × ℕ) VoteSet
keep_rounds height [] = []
keep_rounds height ((k, v) ∷ m) =
    let rest = keep_rounds height m in if leb height k.0 then (k, v) ∷ rest else rest

unfoldable pub keep_heights : ℕ → Map ℕ Hash → Map ℕ Hash
keep_heights height [] = []
keep_heights height ((k, v) ∷ m) =
    let rest = keep_heights height m in if leb height k then (k, v) ∷ rest else rest

unfoldable pub prune_below : ℕ → Aurora → Aurora
unfolding keep_rounds keep_heights
prune_below height a = record a {
  rounds = keep_rounds height a.rounds;
  commits = keep_heights height a.commits;
}
