-- ===== src/Vector/Order.antt =====
-- The order that memcmp gives to byte strings of one length, and to priority vectors.
use lisa_user.Base.{ℕ, ◌≡◌, ◌≢◌, ◌↔◌, refl, List, [], ◌∷◌, length, arith}
use lisa_user.Vector.{
  Sign, negative, equal, positive, memcmp, PriorityVector4, vec_bytes, vec_compare4,
}

abbrev pub flip : Sign → Sign
flip negative = positive
flip equal = equal
flip positive = negative

pub memcmp_refl : (xs : List ℕ) → memcmp xs xs ≡ equal
unfolding memcmp
memcmp_refl [] = refl
memcmp_refl (x ∷ xs) = ground (arith, memcmp_refl xs)

pub memcmp-flip : (xs ys : List ℕ) → length xs ≡ length ys → memcmp ys xs ≡ flip (memcmp xs ys)
unfolding memcmp
memcmp-flip [] [] h = refl
memcmp-flip [] (y ∷ ys) h = absurd (omega arith)
memcmp-flip (x ∷ xs) [] h = absurd (omega arith)
memcmp-flip (x ∷ xs) (y ∷ ys) h = ground (arith, memcmp-flip xs ys (omega arith))

pub memcmp_eq : (xs ys : List ℕ) → length xs ≡ length ys → memcmp xs ys ≡ equal → xs ≡ ys
unfolding memcmp
memcmp_eq [] [] h e = refl
memcmp_eq [] (y ∷ ys) h e = absurd (omega arith)
memcmp_eq (x ∷ xs) [] h e = absurd (omega arith)
memcmp_eq (x ∷ xs) (y ∷ ys) h e = ground (arith, memcmp_eq xs ys (omega arith))

pub memcmp_trans :
    (xs ys zs : List ℕ)
    → length xs ≡ length ys
    → length ys ≡ length zs
    → memcmp xs ys ≢ positive
    → memcmp ys zs ≢ positive
    → memcmp xs zs ≢ positive
unfolding memcmp
memcmp_trans [] ys zs h k p q = λ e. cc
memcmp_trans (x ∷ xs) [] zs h k p q = absurd (omega arith)
memcmp_trans (x ∷ xs) (y ∷ ys) [] h k p q = absurd (omega arith)
memcmp_trans (x ∷ xs) (y ∷ ys) (z ∷ zs) h k p q =
    ground (arith, memcmp_trans xs ys zs (omega arith) (omega arith))

vec_bytes-injective : (v w : PriorityVector4) → vec_bytes v ≡ vec_bytes w → v ≡ w
vec_bytes-injective v w e = cc

-- vec_compare4 answers 0 for equal priority vectors and only for those, and changes sign with its
-- arguments swapped.
pub vec_compare4_antisymmetric :
    (v w : PriorityVector4)
    → ((vec_compare4 v w ≡ equal) ↔ (v ≡ w)) × (vec_compare4 w v ≡ flip (vec_compare4 v w))
unfolding vec_compare4
vec_compare4_antisymmetric v w = (
  (
    λ e. vec_bytes-injective v w (memcmp_eq (vec_bytes v) (vec_bytes w) refl e),
    λ e. rw e (memcmp_refl (vec_bytes w)),
  ),
  memcmp-flip (vec_bytes v) (vec_bytes w) refl,
)

-- "No worse than" in the order of vec_compare4 is transitive.
pub vec_compare4_trans :
    (u v w : PriorityVector4)
    → vec_compare4 u v ≢ positive
    → vec_compare4 v w ≢ positive
    → vec_compare4 u w ≢ positive
unfolding vec_compare4
vec_compare4_trans u v w = memcmp_trans (vec_bytes u) (vec_bytes v) (vec_bytes w) refl refl
