-- ===== src/Base/Lists.antt =====
-- Lists measured by native numbers, and searches and tests over lists.
use Prim.Native.Nat.{ℕ, zero, suc, ◌+◌, ◌≤◌}
use Prim.Native.String.{String}
use mathlib.Core.Path.{◌≡◌, sym, subst}
use mathlib.Core.Logic.{◌⊎◌, inl, inr}
use mathlib.Core.Bool.{Bool, true, false, ◌&&◌, ◌||◌}
use mathlib.Core.Option.{Option, none, some}
use mathlib.Core.List.{List, [], ◌∷◌, ◌++◌}
use native.Mathlib.Omega.{arith}
use text.Mathlib.Text.{◌==◌}
use stornas.Base.Tests.{if◌then◌else◌}

module _ {ℓ} {A : Type ℓ} where
  abbrev pub length : List A → ℕ
  length [] = 0
  length (x ∷ xs) = suc (length xs)

  abbrev pub take : ℕ → List A → List A
  take zero xs = []
  take (suc n) [] = []
  take (suc n) (x ∷ xs) = x ∷ take n xs

  -- A loop that looks for the first element with a property.
  abbrev pub find : (A → Bool) → List A → Option A
  find p [] = none
  find p (x ∷ xs) = if p x then some x else find p xs

  abbrev pub any : (A → Bool) → List A → Bool
  any p [] = false
  any p (x ∷ xs) = p x || any p xs

  abbrev pub all : (A → Bool) → List A → Bool
  all p [] = true
  all p (x ∷ xs) = p x && all p xs

  -- A loop that keeps the elements with a property, in order.
  abbrev pub select : (A → Bool) → List A → List A
  select p [] = []
  select p (x ∷ xs) = if p x then x ∷ select p xs else select p xs

  -- A predicate of every element.
  abbrev pub All {κ} : (A → Type κ) → List A → Type κ
  All P [] = Unit
  All P (x ∷ xs) = P x × All P xs

  -- Where an element stands in a list.
  pub data In (a : A) : List A → Type ℓ where
    here : {x : A} {xs : List A} → a ≡ x → In a (x ∷ xs)
    there : {x : A} {xs : List A} → In a xs → In a (x ∷ xs)

module _ {ℓ} {A : Type ℓ} where
  pub length-append : (xs ys : List A) → length (xs ++ ys) ≡ length xs + length ys
  length-append [] ys = omega arith
  length-append (x ∷ xs) ys = omega (arith, length-append xs ys)

  pub length-take_le : (n : ℕ) (xs : List A) → length (take n xs) ≤ n
  length-take_le zero xs = omega arith
  length-take_le (suc n) [] = omega arith
  length-take_le (suc n) (x ∷ xs) = omega (arith, length-take_le n xs)

-- What stands in a list of none, and of one.
pub not-In_nil {ℓ} : {A : Type ℓ} (a : A) (xs : List A) → xs ≡ [] → ¬ (In a xs)
not-In_nil a [] e i = elim i [ ]
not-In_nil a (x ∷ xs) e i = cc

pub In-single {ℓ} : {A : Type ℓ} (a b : A) (xs : List A) → xs ≡ b ∷ [] → In a xs → a ≡ b
In-single a b [] e i = elim i [ ]
In-single a b (x ∷ xs) e (here p) = cc
In-single a b (x ∷ xs) e (there i) = absurd (not-In_nil a xs (cc) i)

pub In-append {ℓ} : {A : Type ℓ} (a : A) (xs ys : List A) → In a (xs ++ ys) → In a xs ⊎ In a ys
In-append a [] ys i = inr i
In-append a (x ∷ xs) ys (here e) = inl (here e)
In-append a (x ∷ xs) ys (there i) = elim (In-append a xs ys i) [
  | inl j ↦ inl (there j)
  | inr j ↦ inr j
]

pub In-append_right {ℓ} : {A : Type ℓ} (a : A) (xs ys : List A) → In a ys → In a (xs ++ ys)
In-append_right a [] ys i = i
In-append_right a (x ∷ xs) ys i = there (In-append_right a xs ys i)

-- A predicate of every element, at one of them.
pub All-In {ℓ κ} : {A : Type ℓ} (P : A → Type κ) (xs : List A) (a : A) → All P xs → In a xs → P a
All-In P [] a h i = elim i [ ]
All-In P (x ∷ xs) a h (here e) = subst P (sym e) h.0
All-In P (x ∷ xs) a h (there i) = All-In P xs a h.1 i

-- Whether a text is in a list of texts.
abbrev pub contains : String → List String → Bool
contains s l = any (λ t. t == s) l
