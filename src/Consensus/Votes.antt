-- ===== src/Consensus/Votes.antt =====
-- Votes and their tally for one height and round (consensus/src/vote.rs).
use veilux_binary.Base.{
  ℕ, ◌+◌, ◌%◌, Bool, true, false, not, none, some, List, [], ◌∷◌, ◌++◌, Text, lit, Result, ok, err,
  if◌then◌else◌, u64_mod,
}
use veilux_binary.Base.Order.{same, text_ord}
use veilux_binary.Base.Map as Entries
use veilux_binary.Base.Map.{Map}
use veilux_binary.Kernel.Hash.{Hash, le_bytes}
use veilux_binary.Kernel.Types.{PartyId}
use veilux_binary.Consensus.Validators.{ValidatorSet, is_validator, get_validator}

pub data VoteKind : Type 0 where
  prevote precommit : VoteKind

pub record Vote : Type 0 where
  pub height : ℕ
  pub round : ℕ
  pub block_hash : Hash
  pub voter : PartyId
  pub kind : VoteKind
  pub signature : Text

unfoldable pub kind_byte : VoteKind → ℕ
kind_byte prevote = 0
kind_byte precommit = 1

unfoldable pub signing_bytes : Vote → Text
unfolding kind_byte
signing_bytes v =
    lit "veilux/vote/v1"
    ++ (0xff
        ∷ (le_bytes 8 v.height
            ++ (le_bytes 4 v.round ++ (v.block_hash ++ (kind_byte v.kind ∷ v.voter)))))

pub data VoteError : Type 0 where
  not_validator : PartyId → VoteError
  equivocation : PartyId → VoteError

-- The votes of one kind: the voters of each block, and the block of each voter.
pub record Ballot : Type 0 where
  pub tally : Map Hash (List PartyId)
  pub seen : Map PartyId Hash

-- `prevotes` and `prevote_seen` are the first ballot, `precommits` and `precommit_seen` the second.
pub record VoteSet : Type 0 where
  pub prevotes : Ballot
  pub precommits : Ballot

unfoldable pub new_vote_set : VoteSet
new_vote_set = record {
  prevotes = record { tally = []; seen = [] };
  precommits = record { tally = []; seen = [] };
}

-- `entry(..).or_default()`, and `get(..).cloned().unwrap_or_default()`
unfoldable pub voters_of : Hash → Ballot → List PartyId
voters_of block b = elim (Entries.get block b.tally) [ none ↦ [] | some ps ↦ ps ]

-- The part of `add` that works on the ballot of the vote's kind.
unfoldable pub cast : PartyId → Hash → Ballot → Result VoteError Bool × Ballot
unfolding voters_of
cast voter block b = elim (Entries.get voter b.seen) [
  | some prev ↦ if not (same prev block) then (err (equivocation voter), b) else (ok false, b)
  | none ↦ (
    ok true,
    record {
      tally = Entries.insert block (voters_of block b ++ (voter ∷ [])) b.tally;
      seen = Entries.insert voter block b.seen;
    },
  )
]

-- The ballot that `add` borrows, and its return to the set.
unfoldable pub add_cast : VoteKind → PartyId → Hash → VoteSet → Result VoteError Bool × VoteSet
unfolding cast
add_cast prevote voter block s =
    let (r, b) = cast voter block s.prevotes in (r, record s { prevotes = b })
add_cast precommit voter block s =
    let (r, b) = cast voter block s.precommits in (r, record s { precommits = b })

-- `VoteSet::add`
unfoldable pub add_vote_to_set : Vote → ValidatorSet → VoteSet → Result VoteError Bool × VoteSet
unfolding add_cast
add_vote_to_set vote vset s =
    if not (is_validator vset vote.voter)
    then (err (not_validator vote.voter), s)
    else add_cast vote.kind vote.voter vote.block_hash s

-- `filter_map(|p| vset.get(p)).map(|v| v.stake).sum()`, which wraps in the release build.
unfoldable pub sum_power : ValidatorSet → List PartyId → ℕ
sum_power vset [] = 0
sum_power vset (p ∷ ps) = elim (get_validator p vset) [
  | none ↦ sum_power vset ps
  | some v ↦ (v.stake + sum_power vset ps) % u64_mod
]

-- `VoteSet::power`
unfoldable pub power : Ballot → Hash → ValidatorSet → ℕ
power b block vset = elim (Entries.get block b.tally) [ none ↦ 0 | some ps ↦ sum_power vset ps ]

unfoldable pub prevote_power : VoteSet → Hash → ValidatorSet → ℕ
unfolding power
prevote_power s block vset = power s.prevotes block vset

unfoldable pub precommit_power : VoteSet → Hash → ValidatorSet → ℕ
unfolding power
precommit_power s block vset = power s.precommits block vset

unfoldable pub precommitters : VoteSet → Hash → List PartyId
unfolding voters_of
precommitters s block = voters_of block s.precommits
