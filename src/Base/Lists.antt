-- ===== src/Base/Lists.antt =====
-- Go slices as lists: length over the native numbers, membership by recursion, and the loops
-- that the sources share.
use Prim.Native.Nat.{ℕ, suc, ◌+◌}
use Prim.Native.String.{String}
use mathlib.Core.Path.{◌≡◌, refl}
use mathlib.Core.Logic.{◌⊎◌, ◌↔◌, inl, inr}
use mathlib.Core.Bool.{Bool, false, ◌||◌}
use mathlib.Core.List.{List, [], ◌∷◌, ◌++◌}
use native.Mathlib.Omega.{arith}
use text.Mathlib.Text.{◌==◌}
use botkube.Base.Tests.{if◌then◌else◌}

module _ {ℓ} {A : Type ℓ} where
  abbrev pub length : List A → ℕ
  length [] = 0
  length (x ∷ xs) = suc (length xs)

  pub length-append : (xs ys : List A) → length (xs ++ ys) ≡ length xs + length ys
  length-append [] ys = omega arith
  length-append (x ∷ xs) ys = omega (arith, length-append xs ys)

  -- The elements that pass a test, in order: the loop `if p(x) { out = append(out, x) }`.
  abbrev pub select : (A → Bool) → List A → List A
  select p [] = []
  select p (x ∷ xs) = let rest = select p xs in if p x then x ∷ rest else rest

  -- Every element has the property.
  abbrev pub All {κ} : (A → Type κ) → List A → Type κ
  All P [] = Unit
  All P (x ∷ xs) = P x × All P xs

-- `x` stands in the list.
abbrev pub In : {A : Type 0} → A → List A → Type 0
In x [] = ⊥
In x (y ∷ ys) = (x ≡ y) ⊎ In x ys

pub In-append : {A : Type 0} (x : A) (xs ys : List A) → In x (xs ++ ys) ↔ (In x xs ⊎ In x ys)
In-append x [] ys = (inr, λ h. elim h [ inl e ↦ absurd e | inr i ↦ i ])
In-append x (y ∷ xs) ys =
    let (to, from) = In-append x xs ys in
    (
      λ i. elim i [
        | inl e ↦ inl (inl e)
        | inr j ↦ elim (to j) [ inl k ↦ inl (inr k) | inr k ↦ inr k ]
      ],
      λ h. elim h [
        | inl j ↦ elim j [ inl e ↦ inl e | inr k ↦ inr (from (inl k)) ]
        | inr k ↦ inr (from (inr k))
      ],
    )

-- `slices.Contains`.
abbrev pub contains : List String → String → Bool
contains [] s = false
contains (x ∷ xs) s = (x == s) || contains xs s

-- A list is empty or has a head.
pub nil_cases : {A : Type 0} (l : List A) → (l ≡ []) ⊎ ((x : A) × (xs : List A) × (l ≡ x ∷ xs))
nil_cases [] = inl refl
nil_cases (x ∷ xs) = inr (x, xs, refl)
