-- ===== src/Base/Sorting.antt =====
-- What `sort.Strings` keeps.
use Prim.Native.String.{String}
use mathlib.Core.Path.{◌≡◌}
use mathlib.Core.Logic.{◌⊎◌, ◌↔◌, inl, inr}
use mathlib.Core.List.{List, [], ◌∷◌}
use native.Mathlib.Omega.{arith}
use botkube.Base.Lists.{In}
use botkube.Base.Text.{sort, insert_sorted}

In-insert_sorted : (s t : String) (l : List String) → In s (insert_sorted t l) ↔ ((s ≡ t) ⊎ In s l)
unfolding insert_sorted
In-insert_sorted s t [] = (λ i. i, λ i. i)
In-insert_sorted s t (x ∷ l) = ground (arith, In-insert_sorted s t l)

pub In-sort : (s : String) (l : List String) → In s (sort l) ↔ In s l
unfolding sort
In-sort s [] = (λ i. i, λ i. i)
In-sort s (x ∷ l) =
    let (to, from) = In-insert_sorted s x (sort l) in
    let (sto, sfrom) = In-sort s l in
    (
      λ i. elim (to i) [ inl e ↦ inl e | inr j ↦ inr (sto j) ],
      λ i. from (elim i [ inl e ↦ inl e | inr j ↦ inr (sfrom j) ]),
    )
