-- ===== src/Base/Unique.antt =====
-- Maps in which no key stands twice, as in any map that insertions build.
use Prim.Native.String.{String}
use mathlib.Core.Path.{◌≡◌, sym, ap, subst, refl}
use mathlib.Core.Logic.{inl, inr}
use mathlib.Core.Option.{none, some}
use mathlib.Core.List.{[], ◌∷◌}
use native.Mathlib.Omega.{arith}
use text.Mathlib.Text.{◌==◌}
use text.Mathlib.TextEquality.{eq_iff}
use botkube.Base.Tests.{Bool-cases}
use botkube.Base.Lists.{In}
use botkube.Base.Maps.{Dict, lookup, insert, lookup-insert}

-- No key stands twice.
abbrev pub NoDup : {A : Type 0} → Dict A → Type 0
NoDup [] = Unit
NoDup ((k, v) ∷ m) = (lookup k m ≡ none) × NoDup m

pub NoDup-insert : {A : Type 0} (k : String) (v : A) (m : Dict A) → NoDup m → NoDup (insert k v m)
unfolding insert lookup
NoDup-insert k v [] u = (refl, tt)
NoDup-insert k v ((j, w) ∷ m) (n, u) = elim (Bool-cases (j == k)) [
  | inl t ↦ rw t (subst (λ z. lookup z m ≡ none) ((eq_iff j k).0 t) n, u)
  | inr f ↦
      rw f
        (ground (arith, f, n, lookup-insert k j v m, eq_iff k j, eq_iff j k), NoDup-insert k v m u)
]

pub NoDup-lookup :
    {A : Type 0} (k : String) (v : A) (m : Dict A) → NoDup m → In (k, v) m → lookup k m ≡ some v
unfolding lookup
NoDup-lookup k v [] u i = absurd i
NoDup-lookup k v ((j, w) ∷ m) (n, u) (inl p) =
    rw ((eq_iff j k).1 (ap (λ z. z.0) (sym p))) (ap (λ z. some z.1) (sym p))
NoDup-lookup k v ((j, w) ∷ m) (n, u) (inr l) = elim (Bool-cases (j == k)) [
  | inl t ↦ cc (NoDup-lookup k v m u l, subst (λ z. lookup z m ≡ none) ((eq_iff j k).0 t) n)
  | inr f ↦ rw f (NoDup-lookup k v m u l)
]
