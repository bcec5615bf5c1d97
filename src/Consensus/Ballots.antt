-- ===== src/Consensus/Ballots.antt =====
-- What the votes of one round keep: one block for each voter (consensus/src/vote.rs).
use veilux_binary.Base.{
  ◌≡◌, refl, ◌∙◌, sym, Bool, true, false, ◌||◌, none, some, List, [], ◌∷◌, ◌++◌, arith,
  if◌then◌else◌, Bool-cases, Option-cases, inl, inr,
}
use veilux_binary.Base.Order.{same, same_refl, same_eq, same_sym, text_ord}
use veilux_binary.Base.Map as Entries
use veilux_binary.Base.Map.{Map, get-insert}
use veilux_binary.Kernel.Hash.{Hash}
use veilux_binary.Kernel.Types.{PartyId, contains, IsDistinct}
use veilux_binary.Consensus.Validators.{ValidatorSet, is_validator}
use veilux_binary.Consensus.Votes.{
  Vote, VoteKind, VoteSet, Ballot, precommit, prevote, voters_of, cast, add_cast, add_vote_to_set,
  new_vote_set,
}

-- Whether a party has voted for a block.
abbrev pub voted_for : PartyId → Hash → Ballot → Bool
voted_for p h b = elim (Entries.get p b.seen) [ none ↦ false | some q ↦ same q h ]

-- The voters of a block are those that were seen to vote for it, each once.
pub record IsBallot (b : Ballot) : Type 0 where
  pub agrees : (p : PartyId) (h : Hash) → contains (voters_of h b) p ≡ voted_for p h b
  pub distinct : (h : Hash) → IsDistinct (voters_of h b)

pub record IsVoteSet (s : VoteSet) : Type 0 where
  pub prevotes : IsBallot s.prevotes
  pub precommits : IsBallot s.precommits

contains-append :
    (ps : List PartyId) (v p : PartyId) → contains (ps ++ (v ∷ [])) p ≡ (contains ps p || same v p)
unfolding contains
contains-append [] v p = ground arith
contains-append (q ∷ ps) v p = ground (arith, contains-append ps v p)

append-IsDistinct :
    (ps : List PartyId) (v : PartyId)
    → IsDistinct ps
    → contains ps v ≡ false
    → IsDistinct (ps ++ (v ∷ []))
unfolding contains
append-IsDistinct [] v d n = (refl, tt)
append-IsDistinct (q ∷ ps) v d n = (
  ground (arith, contains-append ps v q, same_sym q v),
  append-IsDistinct ps v d.1 (ground arith),
)

-- The ballot after a first vote of a voter.
abbrev counted : PartyId → Hash → Ballot → Ballot
counted voter block b = record {
  tally = Entries.insert block (voters_of block b ++ (voter ∷ [])) b.tally;
  seen = Entries.insert voter block b.seen;
}

voters_of-counted :
    (voter : PartyId) (block h : Hash) (b : Ballot)
    → voters_of h (counted voter block b)
      ≡ (if same h block then voters_of block b ++ (voter ∷ []) else voters_of h b)
unfolding voters_of
voters_of-counted voter block h b =
    ground (arith, get-insert block h (voters_of block b ++ (voter ∷ [])) b.tally)

voted_for-counted :
    (voter p : PartyId) (block h : Hash) (b : Ballot)
    → voted_for p h (counted voter block b)
      ≡ (if same p voter then same block h else voted_for p h b)
voted_for-counted voter p block h b = ground (arith, get-insert voter p block b.seen)

counted-IsBallot :
    (voter : PartyId) (block : Hash) (b : Ballot)
    → IsBallot b
    → Entries.get voter b.seen ≡ none
    → IsBallot (counted voter block b)
counted-IsBallot voter block b i n = record {
  agrees = agree;
  distinct = λ h. elim (Bool-cases (same h block)) [
    | inl y ↦
        rw (voters_of-counted voter block h b, y)
          (append-IsDistinct (voters_of block b) voter (i.distinct block)
            (i.agrees voter block ∙ rw (n, voted_for) refl))
    | inr f ↦ rw (voters_of-counted voter block h b, f) (i.distinct h)
  ];
}
  where
    agree :
        (p : PartyId) (h : Hash)
        → contains (voters_of h (counted voter block b)) p ≡ voted_for p h (counted voter block b)
    agree p h =
        rw (voters_of-counted voter block h b, voted_for-counted voter p block h b)
          (ground (
            arith,
            contains-append (voters_of block b) voter p,
            i.agrees p block,
            i.agrees p h,
            same_eq h block,
            same_eq p voter,
            same_sym h block,
            same_sym p voter,
            same_refl block,
          ))

cast-IsBallot :
    (voter : PartyId) (block : Hash) (b : Ballot) → IsBallot b → IsBallot (cast voter block b).1
unfolding cast
cast-IsBallot voter block b i = elim (Option-cases (Entries.get voter b.seen)) [
  | inl n ↦ rw (n, cast) (counted-IsBallot voter block b i n)
  | inr (q, e) ↦ rw (e, cast) (elim (Bool-cases (same q block)) [ inl y ↦ rw y i | inr f ↦ rw f i ])
]

empty-IsBallot : IsBallot (record { tally = []; seen = [] })
unfolding voters_of contains Entries.get
empty-IsBallot = record { agrees = λ p h. refl; distinct = λ h. tt }

-- The votes of a round stay consistent, from the empty set on and whatever votes arrive, also
-- refused ones: for each kind, the voters of a block are those noted as having voted for it, each
-- once.
pub VoteSet-IsVoteSet :
    IsVoteSet new_vote_set
    × ((vote : Vote) (set : ValidatorSet) (s : VoteSet)
        → IsVoteSet s
        → IsVoteSet (add_vote_to_set vote set s).1)
unfolding new_vote_set add_vote_to_set add_cast
VoteSet-IsVoteSet = (record { prevotes = empty-IsBallot; precommits = empty-IsBallot }, add)
  where
    added :
        (k : VoteKind) (voter : PartyId) (block : Hash) (s : VoteSet)
        → IsVoteSet s
        → IsVoteSet (add_cast k voter block s).1
    added prevote voter block s i = record {
      prevotes = cast-IsBallot voter block s.prevotes i.prevotes;
      precommits = i.precommits;
    }
    added precommit voter block s i = record {
      prevotes = i.prevotes;
      precommits = cast-IsBallot voter block s.precommits i.precommits;
    }

    add :
        (vote : Vote) (set : ValidatorSet) (s : VoteSet)
        → IsVoteSet s
        → IsVoteSet (add_vote_to_set vote set s).1
    add vote set s i = elim (Bool-cases (is_validator set vote.voter)) [
      | inl y ↦ rw y (added vote.kind vote.voter vote.block_hash s i)
      | inr f ↦ rw f i
    ]

-- No voter is counted for two blocks of one round and kind.
pub one_block :
    (b : Ballot) (p : PartyId) (g h : Hash)
    → IsBallot b
    → contains (voters_of g b) p ≡ true
    → contains (voters_of h b) p ≡ true
    → g ≡ h
one_block b p g h i eg eh = elim (Option-cases (Entries.get p b.seen)) [
  | inl n ↦ absurd (ground (arith, i.agrees p g))
  | inr (q, e) ↦
      sym (same_eq q g (ground (arith, i.agrees p g))) ∙ same_eq q h (ground (arith, i.agrees p h))
]
