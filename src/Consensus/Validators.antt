-- ===== src/Consensus/Validators.antt =====
-- The validator set (consensus/src/validator.rs).
use Prim.Native.Nat.{Ordering}
use veilux_binary.Base.{
  ℕ, ◌+◌, ◌*◌, ◌/◌, ◌%◌, Bool, true, false, Option, none, some, List, [], ◌∷◌, ◌++◌, map, Text, lit,
  leb, if◌then◌else◌, u64_mod, length, get_elem?, keep,
}
use veilux_binary.Base.Order.{text_ord, text_cmp}
use veilux_binary.Base.Map as Entries
use veilux_binary.Base.Map.{Map}
use veilux_binary.Kernel.Hash.{Crates, Hash, commit, le_bytes}
use veilux_binary.Kernel.Types.{PartyId}

pub record Validator : Type 0 where
  pub party : PartyId
  pub public_key : Text
  pub stake : ℕ
  pub active : Bool
  pub missed : ℕ

-- `Validator::new`
unfoldable pub new_validator : PartyId → Text → ℕ → Validator
new_validator party public_key stake = record {
  party = party;
  public_key = public_key;
  stake = stake;
  active = true;
  missed = 0;
}

pub record ValidatorSet : Type 0 where
  pub validators : Map PartyId Validator

unfoldable pub add_validator : Validator → ValidatorSet → ValidatorSet
add_validator v vs = record { validators = Entries.insert v.party v vs.validators }

unfoldable pub get_validator : PartyId → ValidatorSet → Option Validator
get_validator party vs = Entries.get party vs.validators

unfoldable pub is_validator : ValidatorSet → PartyId → Bool
is_validator vs party = elim (Entries.get party vs.validators) [ none ↦ false | some v ↦ v.active ]

-- `validators.values()`
unfoldable pub values : Map PartyId Validator → List Validator
values [] = []
values ((k, v) ∷ m) = v ∷ values m

-- `sort_by` on the names of the parties.
unfoldable pub insert_sorted : Validator → List Validator → List Validator
insert_sorted v [] = v ∷ []
insert_sorted v (w ∷ ws) =
    let rest = insert_sorted v ws in
    elim (text_cmp v.party w.party) [ Ordering.gt ↦ w ∷ rest | _ ↦ v ∷ w ∷ ws ]

unfoldable pub sort_by_party : List Validator → List Validator
unfolding insert_sorted
sort_by_party [] = []
sort_by_party (v ∷ vs) = insert_sorted v (sort_by_party vs)

unfoldable pub active : ValidatorSet → List Validator
unfolding values sort_by_party
active vs = sort_by_party (keep (λ v. v.active) (values vs.validators))

unfoldable pub active_count : ValidatorSet → ℕ
unfolding values
active_count vs = length (keep (λ v. v.active) (values vs.validators))

-- `sum()`, which wraps in the release build.
unfoldable pub sum_stakes : List Validator → ℕ
sum_stakes [] = 0
sum_stakes (v ∷ vs) = (v.stake + sum_stakes vs) % u64_mod

unfoldable pub total_stake : ValidatorSet → ℕ
total_stake vs = sum_stakes (keep (λ v. v.active) (values vs.validators))

unfoldable pub quorum_threshold : ValidatorSet → ℕ
quorum_threshold vs = total_stake vs * 2 % u64_mod / 3 + 1

-- The position of the proposer among `n` active validators.
unfoldable pub proposer_index : ℕ → ℕ → ℕ → ℕ
proposer_index height round n = (height * 31 % u64_mod + round) % u64_mod % n

unfoldable pub proposer_for : ValidatorSet → ℕ → ℕ → Option PartyId
proposer_for vs height round = elim (active vs) [
  | [] ↦ none
  | v ∷ rest ↦ elim (get_elem? (v ∷ rest) (proposer_index height round (length (v ∷ rest)))) [
    | none ↦ none
    | some w ↦ some w.party
  ]
]

-- `get_mut`, with a change of the validator.
unfoldable pub update_validator : PartyId → (Validator → Validator) → ValidatorSet → ValidatorSet
update_validator party f vs = elim (Entries.get party vs.validators) [
  | none ↦ vs
  | some v ↦ record { validators = Entries.insert party (f v) vs.validators }
]

unfoldable pub record_proposed : PartyId → ValidatorSet → ValidatorSet
unfolding update_validator
record_proposed party = update_validator party (λ v. record v { missed = 0 })

-- One more miss; from the threshold on the validator is out.
unfoldable pub miss : ℕ → Validator → Validator
miss jail_threshold v = record v {
  missed = (v.missed + 1) % u64_mod;
  active = if leb jail_threshold ((v.missed + 1) % u64_mod) then false else v.active;
}

unfoldable pub record_missed : PartyId → ℕ → ValidatorSet → ValidatorSet
unfolding update_validator miss
record_missed party jail_threshold = update_validator party (miss jail_threshold)

unfoldable pub set_hash : Crates → ValidatorSet → Hash
set_hash x vs =
    commit x (lit "validator-set") (map (λ v. v.party ++ le_bytes 8 v.stake) (active vs))
