-- ===== src/Kube/Router/Routes.antt =====
-- The sources of a list of routes, and of the routes of an event type in router.go's maps.
use botkube.Base.{
  String, ◌≡◌, inl, inr, List, [], ◌∷◌, ◌++◌, ◌==◌, eq_iff, arith, Dict, insert, get_or_zero,
  lookup-insert, In, Bool-cases, if◌then◌else◌, ne_of_test,
}
use mathlib.Core.Path.{subst}
use botkube.Base.Adds.{Adds, Adds-none, Adds-map}
use botkube.Kube.Config.{EventType}
use botkube.Kube.Event.{Route}

at-insert :
    {A : Type 0} (k j : String) (v : List A) (m : Dict (List A))
    → get_or_zero [] j (insert k v m) ≡ (if k == j then v else get_or_zero [] j m)
at-insert k j v m = ground (arith, lookup-insert k j v m)

-- What a new value adds under its own key is all that the update adds.
pub insert-Adds :
    {A : Type 0} (P : List A → Type 0) (M : Type 0) (k j : String) (v : List A) (m : Dict (List A))
    → Adds (P (get_or_zero [] k m)) (P v) M
    → Adds (P (get_or_zero [] j m)) (P (get_or_zero [] j (insert k v m))) ((k ≡ j) × M)
insert-Adds P M k j v m f = rw (at-insert k j v m) (elim (Bool-cases (k == j)) [
  | inl e ↦ rw e (
      let p = (eq_iff k j).0 e in
      Adds-map (λ m'. (p, m')) (λ h. h.1) (subst (λ i. Adds (P (get_or_zero [] i m)) (P v) M) p f))
  | inr n ↦ rw n (Adds-none (λ h. ne_of_test k j n h.0))
])

abbrev pub sources_of : List Route → List String
sources_of [] = []
sources_of (r ∷ rs) = r.source ∷ sources_of rs

pub sources-append :
    (s : String) (xs ys : List Route)
    → Adds (In s (sources_of xs)) (In s (sources_of (xs ++ ys))) (In s (sources_of ys))
sources-append s [] ys = (inr, λ h. elim h [ inl e ↦ absurd e | inr i ↦ i ])
sources-append s (x ∷ xs) ys =
    let (to, from) = sources-append s xs ys in
    (
      λ i. elim i [
        | inl e ↦ inl (inl e)
        | inr j ↦ elim (to j) [ inl k ↦ inl (inr k) | inr k ↦ inr k ]
      ],
      λ h. elim h [
        | inl j ↦ elim j [ inl e ↦ inl e | inr k ↦ inr (from (inl k)) ]
        | inr k ↦ inr (from (inr k))
      ],
    )

-- A route of the source stands under the event type.
abbrev pub Has : String → EventType → Dict (List Route) → Type 0
Has s e out = In s (sources_of (get_or_zero [] e out))
