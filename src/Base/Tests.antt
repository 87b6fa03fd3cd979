-- ===== src/Base/Tests.antt =====
-- Boolean tests on the native numbers, the conditional, and case splits that keep the equation.
use Prim.Native.Nat.{ℕ, compare, Ordering}
use mathlib.Core.Path.{◌≡◌, refl}
use mathlib.Core.Logic.{◌↔◌, ◌⊎◌, inl, inr}
use mathlib.Core.Bool.{Bool, true, false}
use mathlib.Core.Option.{Option, none, some}
use native.Mathlib.Omega.{arith}

abbrev pub ltb : ℕ → ℕ → Bool
ltb a b = elim (compare a b) [ Ordering.lt ↦ true | _ ↦ false ]

abbrev pub leb : ℕ → ℕ → Bool
leb a b = elim (compare a b) [ Ordering.gt ↦ false | _ ↦ true ]

infix 50 ◌==◌
abbrev pub ◌==◌ : ℕ → ℕ → Bool
a == b = elim (compare a b) [ Ordering.eq ↦ true | _ ↦ false ]

infix 50 ◌!=◌
abbrev pub ◌!=◌ : ℕ → ℕ → Bool
a != b = elim (compare a b) [ Ordering.eq ↦ false | _ ↦ true ]

infix 1 if◌then◌else◌
abbrev pub if◌then◌else◌ {ℓ} : {A : Type ℓ} → Bool → A → A → A
if true then x else y = x
if false then x else y = y

pub ==_iff : (a b : ℕ) → ((a == b) ≡ true) ↔ (a ≡ b)
==_iff a b = ground arith

pub Bool-cases : (b : Bool) → (b ≡ true) ⊎ (b ≡ false)
Bool-cases true = inl refl
Bool-cases false = inr refl

pub Option-cases {ℓ} : {A : Type ℓ} (o : Option A) → (o ≡ none) ⊎ ((a : A) × (o ≡ some a))
Option-cases none = inl refl
Option-cases (some a) = inr (a, refl)

-- A fact about both branches is one about the conditional.
pub if-eq {ℓ κ} :
    {A : Type ℓ} {B : Type κ} (f : A → B) (b : Bool) (x y : A) {v : B}
    → f x ≡ v
    → f y ≡ v
    → f (if b then x else y) ≡ v
if-eq f true x y p q = p
if-eq f false x y p q = q

pub if-keep {ℓ κ} :
    {A : Type ℓ} (Q : A → Type κ) (b : Bool) (x y : A) → Q x → Q y → Q (if b then x else y)
if-keep Q true x y p q = p
if-keep Q false x y p q = q

-- An assignment among the entry actions of a state: it is made where the state has not been
-- executed yet, and else the old value stays.
abbrev pub first {ℓ} : {A : Type ℓ} → Bool → A → A → A
first true new old = old
first false new old = new

-- The same, where each branch knows how the test came out.
pub if-split {ℓ κ} :
    {A : Type ℓ} (Q : A → Type κ) (b : Bool) (x y : A)
    → (b ≡ true → Q x)
    → (b ≡ false → Q y)
    → Q (if b then x else y)
if-split Q true x y p q = p refl
if-split Q false x y p q = q refl

pub if-miss {ℓ κ} :
    {A : Type ℓ} (Q : A → Type κ) (b : Bool) (x y : A) → b ≡ false → Q y → Q (if b then x else y)
if-miss Q true x y e q = cc
if-miss Q false x y e q = q

-- The same for a ladder of tests, with the result of each branch given.
module _ {ℓ κ} {A : Type ℓ} (Q : A → Type κ) where
  pub ladder3 :
      (a b c : Bool) (x y z last : A)
      → Q x
      → Q y
      → Q z
      → Q last
      → Q (if a then x else if b then y else if c then z else last)
  ladder3 true b c x y z last p q r s = p
  ladder3 false true c x y z last p q r s = q
  ladder3 false false true x y z last p q r s = r
  ladder3 false false false x y z last p q r s = s

  pub ladder6 :
      (a b c d e f : Bool) (x y z u v w last : A)
      → Q x
      → Q y
      → Q z
      → Q u
      → Q v
      → Q w
      → Q last
      → Q (
          if a
          then x
          else if b
          then y
          else if c
          then z
          else if d
          then u
          else if e
          then v
          else if f
          then w
          else last)
  ladder6 true b c d e f x y z u v w last p q r s t o l = p
  ladder6 false true c d e f x y z u v w last p q r s t o l = q
  ladder6 false false true d e f x y z u v w last p q r s t o l = r
  ladder6 false false false d e f x y z u v w last p q r s t o l = ladder3 d e f u v w last s t o l
