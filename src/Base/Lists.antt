-- ===== src/Base/Lists.antt =====
-- Lists measured by native numbers, and the predicates on lists that the components share.
use Prim.Native.Nat.{ℕ, zero, suc, ◌+◌}
use mathlib.Core.Path.{◌≡◌, refl}
use native.Mathlib.Nat.{add-zero, add-suc, suc-add}
use mathlib.Core.Option.{Option, none, some}
use mathlib.Core.List.{List, [], ◌∷◌, ◌++◌, map}
use native.Mathlib.Omega.{arith}

module _ {ℓ} {A : Type ℓ} where
  abbrev pub length : List A → ℕ
  length [] = 0
  length (x ∷ xs) = suc (length xs)

  abbrev pub take : ℕ → List A → List A
  take zero xs = []
  take (suc n) [] = []
  take (suc n) (x ∷ xs) = x ∷ take n xs

  abbrev pub get_elem? : List A → ℕ → Option A
  get_elem? [] i = none
  get_elem? (x ∷ xs) zero = some x
  get_elem? (x ∷ xs) (suc i) = get_elem? xs i

  abbrev pub get_or : List A → ℕ → A → A
  get_or [] i d = d
  get_or (x ∷ xs) zero d = x
  get_or (x ∷ xs) (suc i) d = get_or xs i d

  pub length-append : (xs ys : List A) → length (xs ++ ys) ≡ length xs + length ys
  length-append [] ys = omega arith
  length-append (x ∷ xs) ys = omega (arith, length-append xs ys)

-- A predicate by recursion computes to tuples, which the tactics read and build.
abbrev pub All {ℓ κ} : {A : Type ℓ} → (A → Type κ) → List A → Type κ
All P [] = Unit
All P (x ∷ xs) = P x × All P xs

pub All-append {ℓ κ} :
    {A : Type ℓ} (P : A → Type κ) (xs ys : List A) → All P xs → All P ys → All P (xs ++ ys)
All-append P [] ys hx hy = hy
All-append P (x ∷ xs) ys hx hy = (hx.0, All-append P xs ys hx.1 hy)

pub All-append_left {ℓ κ} :
    {A : Type ℓ} (P : A → Type κ) (xs ys : List A) → All P (xs ++ ys) → All P xs
All-append_left P [] ys h = tt
All-append_left P (x ∷ xs) ys h = (h.0, All-append_left P xs ys h.1)

pub All-append_right {ℓ κ} :
    {A : Type ℓ} (P : A → Type κ) (xs ys : List A) → All P (xs ++ ys) → All P ys
All-append_right P [] ys h = h
All-append_right P (x ∷ xs) ys h = All-append_right P xs ys h.1

pub All-map {ℓ κ} :
    {A : Type ℓ} (P : A → Type κ) (f : A → A) (keep : (x : A) → P x → P (f x)) (xs : List A)
    → All P xs
    → All P (map f xs)
All-map P f keep [] h = tt
All-map P f keep (x ∷ xs) h = (keep x h.0, All-map P f keep xs h.1)

-- `map` with the place of each entry, counted from i.
abbrev pub indexed {ℓ} : {A : Type ℓ} → (ℕ → A → A) → ℕ → List A → List A
indexed f i [] = []
indexed f i (x ∷ xs) = f i x ∷ indexed f (suc i) xs

pub get_elem?-indexed {ℓ} :
    {A : Type ℓ} (f : ℕ → A → A) (i : ℕ) (xs : List A) (j : ℕ) (y : A)
    → get_elem? (indexed f i xs) j ≡ some y
    → (x : A) × (get_elem? xs j ≡ some x) × (y ≡ f (i + j) x)
get_elem?-indexed f i [] j y e = cc
get_elem?-indexed f i (x ∷ xs) zero y e = (x, refl, rw add-zero (cc))
get_elem?-indexed f i (x ∷ xs) (suc j) y e =
    let (z, at, is) = get_elem?-indexed f (suc i) xs j y e in (z, at, rw (add-suc, ← suc-add) is)
