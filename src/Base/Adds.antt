-- ===== src/Base/Adds.antt =====
-- How the membership of one thing changes over the steps of a loop, and sets of texts.
use Prim.Native.String.{String}
use mathlib.Core.Path.{◌≡◌, refl, sym, subst}
use mathlib.Core.Logic.{◌⊎◌, ◌↔◌, inl, inr}
use mathlib.Core.Bool.{true}
use mathlib.Core.List.{List, [], ◌∷◌}
use text.Mathlib.Text.{◌==◌}
use text.Mathlib.TextEquality.{eq_iff}
use botkube.Base.Tests.{if◌then◌else◌, Bool-cases}
use botkube.Base.Lists.{In, contains}

-- `B` holds where `A` does, and where `More` does, and nowhere else.
abbrev pub Adds : Type 0 → Type 0 → Type 0 → Type 0
Adds A B More = B ↔ (A ⊎ More)

pub Adds-none : {A M : Type 0} → ¬ M → Adds A A M
Adds-none n = (inl, λ h. elim h [ inl a ↦ a | inr m ↦ absurd (n m) ])

pub Adds-then : {A B C M N : Type 0} → Adds A B M → Adds B C N → Adds A C (M ⊎ N)
Adds-then f g = (
  λ c. elim (g.0 c) [
    | inl b ↦ elim (f.0 b) [ inl a ↦ inl a | inr m ↦ inr (inl m) ]
    | inr n ↦ inr (inr n)
  ],
  λ h. elim h [
    | inl a ↦ g.1 (inl (f.1 (inl a)))
    | inr k ↦ elim k [ inl m ↦ g.1 (inl (f.1 (inr m))) | inr n ↦ g.1 (inr n) ]
  ],
)

pub Adds-map : {A B M N : Type 0} → (M → N) → (N → M) → Adds A B M → Adds A B N
Adds-map to from f = (
  λ b. elim (f.0 b) [ inl a ↦ inl a | inr m ↦ inr (to m) ],
  λ h. elim h [ inl a ↦ f.1 (inl a) | inr n ↦ f.1 (inr (from n)) ],
)

-- What loops add to nothing is all there is.
pub Adds-empty : {A B M : Type 0} → ¬ A → Adds A B M → B ↔ M
Adds-empty n f = (λ b. elim (f.0 b) [ inl a ↦ absurd (n a) | inr m ↦ m ], λ m. f.1 (inr m))

-- A Go `map[string]struct{}`: a list without repetition.
abbrev pub StringSet : Type 0
StringSet = List String

-- `set[s] = struct{}{}`
unfoldable pub put : String → StringSet → StringSet
put s set = if contains set s then set else s ∷ set

-- The loop that puts every name.
unfoldable pub put_all : List String → StringSet → StringSet
unfolding put
put_all [] set = set
put_all (s ∷ names) set = put_all names (put s set)

pub contains_iff : (set : StringSet) (s : String) → (contains set s ≡ true) ↔ In s set
contains_iff [] s = (λ h. cc, λ i. absurd i)
contains_iff (x ∷ set) s =
    let (to, from) = contains_iff set s in
    elim (Bool-cases (x == s)) [
      | inl e ↦ (λ h. inl (sym ((eq_iff x s).0 e)), λ i. rw e refl)
      | inr e ↦
          rw e (
            λ h. inr (to h),
            λ i. elim i [ inl p ↦ cc (e, (eq_iff x s).1 (sym p)) | inr j ↦ from j ],
          )
    ]

pub put-Adds : (x s : String) (set : StringSet) → Adds (In x set) (In x (put s set)) (x ≡ s)
unfolding put
put-Adds x s set = elim (Bool-cases (contains set s)) [
  | inl c ↦ rw c (
    inl,
    λ h. elim h [ inl i ↦ i | inr p ↦ subst (λ z. In z set) (sym p) ((contains_iff set s).0 c) ],
  )
  | inr c ↦
      rw c (
        λ i. elim i [ inl p ↦ inr p | inr j ↦ inl j ],
        λ h. elim h [ inl j ↦ inr j | inr p ↦ inl p ],
      )
]

pub put_all-Adds :
    (x : String) (names : List String) (set : StringSet)
    → Adds (In x set) (In x (put_all names set)) (In x names)
unfolding put_all
put_all-Adds x [] set = Adds-none (λ i. i)
put_all-Adds x (s ∷ names) set = Adds-then (put-Adds x s set) (put_all-Adds x names (put s set))
