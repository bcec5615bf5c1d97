-- ===== src/Kernel/Types/Distinct.antt =====
-- Lists of distinct parties (kernel/src/types.rs).
use veilux_binary.Base.{◌≡◌, refl, false, ◌||◌, List, [], ◌∷◌, ◌++◌, arith}
use veilux_binary.Base.Order.{same, same_sym, text_ord}
use veilux_binary.Kernel.Types.{PartyId, contains, IsDistinct}

contains-append :
    (xs : List PartyId) (o p : PartyId) → contains (xs ++ (o ∷ [])) p ≡ (contains xs p || same o p)
unfolding contains
contains-append [] o p = ground arith
contains-append (x ∷ xs) o p = ground (arith, contains-append xs o p)

pub append-IsDistinct :
    (xs : List PartyId) (o : PartyId)
    → IsDistinct xs
    → contains xs o ≡ false
    → IsDistinct (xs ++ (o ∷ []))
unfolding contains
append-IsDistinct [] o d h = (refl, tt)
append-IsDistinct (x ∷ xs) o d h = (
  ground (arith, contains-append xs o x, same_sym o x, d.0),
  append-IsDistinct xs o d.1 (ground arith),
)
