-- ===== src/Tests/Codec.antt =====
-- A codec of values as lists of numbers, for the places where the program relies on a crate that
-- writes a value and reads it back.
use veilux_binary.Base.{
  ℕ, zero, suc, Bool, true, false, Option, none, some, List, [], ◌∷◌, Text, Result, ok, err, ◌≡◌,
  refl, ap, arith,
}
use veilux_binary.Kernel.Serde.{Serde, RoundTrips}
use veilux_binary.Kernel.Types.{PartyId}
use veilux_binary.Token.Types.{TokenMeta}
use veilux_binary.Vesting.Schedule.{Schedule}
use veilux_binary.Dex.Pool.{Pool}
use veilux_binary.Base.Map.{Map}

-- Writing in front of a rest, and reading off the front.
pub record Code (A : Type 0) : Type 0 where
  pub write : A → Text → Text
  pub read : Text → Option (A × Text)
  pub reads : (a : A) (rest : Text) → read (write a rest) ≡ some (a, rest)

abbrev pub read_number : Text → Option (ℕ × Text)
read_number [] = none
read_number (n ∷ t) = some (n, t)

abbrev pub number : Code ℕ
number = record { write = λ n t. n ∷ t; read = read_number; reads = λ n t. refl }

abbrev pub read_flag : Text → Option (Bool × Text)
read_flag (zero ∷ t) = some (false, t)
read_flag (suc n ∷ t) = some (true, t)
read_flag [] = none

abbrev pub write_flag : Bool → Text → Text
write_flag true t = 1 ∷ t
write_flag false t = 0 ∷ t

pub flag_reads : (b : Bool) (t : Text) → read_flag (write_flag b t) ≡ some (b, t)
flag_reads true t = refl
flag_reads false t = refl

abbrev pub flag : Code Bool
flag = record { write = write_flag; read = read_flag; reads = flag_reads }

module _ {A B : Type 0} (a : Code A) (b : Code B) where
  abbrev pub read_pair : Text → Option ((A × B) × Text)
  read_pair t = elim (a.read t) [
    | none ↦ none
    | some q ↦ elim (b.read q.1) [ none ↦ none | some r ↦ some ((q.0, r.0), r.1) ]
  ]

  pub pair_reads : (v : A × B) (t : Text) → read_pair (a.write v.0 (b.write v.1 t)) ≡ some (v, t)
  pair_reads v t = ground (arith, a.reads v.0 (b.write v.1 t), b.reads v.1 t)

  abbrev pub pair : Code (A × B)
  pair = record { write = λ v t. a.write v.0 (b.write v.1 t); read = read_pair; reads = pair_reads }

module _ {A : Type 0} (a : Code A) where
  abbrev pub read_items : ℕ → Text → Option (List A × Text)
  read_items zero t = some ([], t)
  read_items (suc n) t = elim (a.read t) [
    | none ↦ none
    | some q ↦ elim (read_items n q.1) [ none ↦ none | some r ↦ some (q.0 ∷ r.0, r.1) ]
  ]

  abbrev pub read_list : Text → Option (List A × Text)
  read_list [] = none
  read_list (n ∷ t) = read_items n t

  abbrev pub write_items : List A → Text → Text
  write_items [] t = t
  write_items (v ∷ vs) t = a.write v (write_items vs t)

  abbrev pub count : List A → ℕ
  count [] = 0
  count (v ∷ vs) = suc (count vs)

  pub items_reads :
      (vs : List A) (t : Text) → read_items (count vs) (write_items vs t) ≡ some (vs, t)
  items_reads [] t = refl
  items_reads (v ∷ vs) t = ground (arith, a.reads v (write_items vs t), items_reads vs t)

  abbrev pub list : Code (List A)
  list = record {
    write = λ vs t. count vs ∷ write_items vs t;
    read = read_list;
    reads = items_reads;
  }

module _ {A B : Type 0} (c : Code A) (into : A → B) (out : B → A)
    (back : (b : B) → into (out b) ≡ b) where
  abbrev pub finish : Option (A × Text) → Result Text B
  finish none = err []
  finish (some q) = ok (into q.0)

  abbrev pub serde : Serde B
  serde = record { to_vec = λ b. ok (c.write (out b) []); from_slice = λ t. finish (c.read t) }

  pub serde_reads : (b : B) → finish (c.read (c.write (out b) [])) ≡ ok b
  serde_reads b = rw (c.reads (out b) []) (ap ok (back b))

  abbrev pub round_trips : RoundTrips serde
  round_trips = record { bytes = λ b. c.write (out b) []; writes = λ b. refl; reads = serde_reads }

abbrev pub text : Code Text
text = list number

abbrev pub meta : Code (Text × (Text × (Text × (ℕ × (ℕ × (Text × Bool))))))
meta = pair text (pair text (pair text (pair number (pair number (pair text flag)))))

abbrev pub to_meta : Text × (Text × (Text × (ℕ × (ℕ × (Text × Bool))))) → TokenMeta
to_meta (a, (b, (c, (d, (e, (f, g)))))) = record {
  token_id = a;
  name = b;
  symbol = c;
  decimals = d;
  total_supply = e;
  owner = f;
  mintable = g;
}

abbrev pub of_meta : TokenMeta → Text × (Text × (Text × (ℕ × (ℕ × (Text × Bool)))))
of_meta m =
    (m.token_id, (m.name, (m.symbol, (m.decimals, (m.total_supply, (m.owner, m.mintable))))))

abbrev pub Fields : Type 0
Fields = Text × (Text × (Text × (Text × (ℕ × (ℕ × (ℕ × (ℕ × (ℕ × (Bool × Bool)))))))))

abbrev pub schedule : Code Fields
schedule = pair text (
    pair text (
      pair text (
        pair text
          (pair number (pair number (pair number (pair number (pair number (pair flag flag)))))))))

abbrev pub to_schedule : Fields → Schedule
to_schedule (a, (b, (c, (d, (e, (f, (g, (h, (i, (j, k)))))))))) = record {
  id = a;
  token_id = b;
  funder = c;
  beneficiary = d;
  total = e;
  released = f;
  start = g;
  cliff = h;
  duration = i;
  revocable = j;
  revoked = k;
}

abbrev pub of_schedule : Schedule → Fields
of_schedule s = (
  s.id,
  (
    s.token_id,
    (
      s.funder,
      (
        s.beneficiary,
        (s.total, (s.released, (s.start, (s.cliff, (s.duration, (s.revocable, s.revoked)))))),
      ),
    ),
  ),
)

abbrev pub pool : Code (Text × (Text × (Text × (ℕ × (ℕ × (ℕ × List (Text × ℕ)))))))
pool =
    pair text
      (pair text (pair text (pair number (pair number (pair number (list (pair text number)))))))

abbrev pub to_pool : Text × (Text × (Text × (ℕ × (ℕ × (ℕ × Map PartyId ℕ))))) → Pool
to_pool (a, (b, (c, (d, (e, (f, g)))))) = record {
  id = a;
  token_a = b;
  token_b = c;
  reserve_a = d;
  reserve_b = e;
  total_shares = f;
  shares = g;
}

abbrev pub of_pool : Pool → Text × (Text × (Text × (ℕ × (ℕ × (ℕ × Map PartyId ℕ)))))
of_pool p =
    (p.id, (p.token_a, (p.token_b, (p.reserve_a, (p.reserve_b, (p.total_shares, p.shares))))))

abbrev pub text_serde : Serde Text
text_serde = serde text (λ t. t) (λ t. t) (λ t. refl)
