-- ===== src/Kube/Allowed/Spec.antt =====
-- What `IsAllowed` means, stated without its loops.
use botkube.Base.{
  String, ◌≡◌, refl, sym, ◌≢◌, ◌↔◌, ◌∙◌, ◌⊎◌, inl, inr, Bool, true, false, Option, none, some, List,
  [], ◌∷◌, arith, ◌==◌, eq_iff, In, Bool-cases,
}
use mathlib.Core.Path.{subst}
use botkube.Base.Text.{is_blank}
use botkube.Kube.Config.{RegexConstraints}
use botkube.Kube.Allowed.{
  MatchError, Allowed, verdict, failed, check_exclude, check_include, is_allowed,
}

module _ (match_string : String → String → Option Bool) where
  -- A pattern matches a value as a text or as a regular expression.
  abbrev pub Matches : String → String → Type 0
  Matches x value = (x ≡ value) ⊎ (match_string x value ≡ some true)

  -- No pattern of `Exclude` that is not blank matches, and one of `Include` does.
  pub record AllowedBy (r : RegexConstraints) (value : String) : Type 0 where
    pub not_excluded : (x : String) → In x r.exclude → is_blank x ≡ false → ¬ Matches x value
    pub included : (x : String) × In x r.include × Matches x value

  match-cases :
      (x value : String) → (match_string x value ≡ some true) ⊎ (match_string x value ≢ some true)
  match-cases x value = go (match_string x value)
    where
      go : (o : Option Bool) → (o ≡ some true) ⊎ (o ≢ some true)
      go none = inr (λ e. cc)
      go (some true) = inl refl
      go (some false) = inr (λ e. cc)

  include-tail :
      (x : String) (xs : List String) (value : String)
      → check_include match_string (x ∷ xs) value ≡ verdict true
      → (x == value) ≡ false
      → match_string x value ≢ some true
      → check_include match_string xs value ≡ verdict true
  unfolding check_include
  include-tail x xs value h e n = ground arith

  -- The facts that settle a pattern as not matching.
  abbrev Rejects : String → String → Type 0
  Rejects x value = ((x == value) ≡ false) × (match_string x value ≡ some false)

  not-Matches : (x value : String) → Rejects x value → ¬ Matches x value
  not-Matches x value r (inl e) = ground (arith, eq_iff x value)
  not-Matches x value r (inr e) = ground arith

  exclude-head :
      (x : String) (xs : List String) (value : String) (next : Allowed)
      → check_exclude match_string (x ∷ xs) value next ≡ verdict true
      → (check_exclude match_string xs value next ≡ verdict true)
        × (is_blank x ≡ false → Rejects x value)
  unfolding check_exclude
  exclude-head x xs value next h = ground arith

  exclude-pass :
      (xs : List String) (value : String) (next : Allowed)
      → check_exclude match_string xs value next ≡ verdict true
      → (next ≡ verdict true) × ((x : String) → In x xs → is_blank x ≡ false → ¬ Matches x value)
  exclude-pass [] value next h = (unfold check_exclude in h, λ x i. absurd i)
  exclude-pass (y ∷ ys) value next h =
      let (rest, head) = exclude-head y ys value next h in
      let (after, tail) = exclude-pass ys value next rest in
      (
        after,
        λ x i b. elim i [
          | inl e ↦
              subst (λ z. ¬ Matches z value) (sym e)
                (not-Matches y value (head (subst (λ z. is_blank z ≡ false) e b)))
          | inr j ↦ tail x j b
        ],
      )

  include-pass :
      (xs : List String) (value : String)
      → check_include match_string xs value ≡ verdict true
      → (x : String) × In x xs × Matches x value
  include-pass [] value h = unfold check_include in cc
  include-pass (y ∷ ys) value h = elim (Bool-cases (y == value)) [
    | inl e ↦ (y, inl refl, inl ((eq_iff y value).0 e))
    | inr e ↦ elim (match-cases y value) [
      | inl m ↦ (y, inl refl, inr m)
      | inr n ↦
          let (x, i, m) = include-pass ys value (include-tail y ys value h e n) in (x, inr i, m)
    ]
  ]

  -- `IsAllowed` says yes only for a value that is allowed.
  pub is_allowed_sound :
      (r : RegexConstraints) (value : String)
      → is_allowed match_string (some r) value ≡ verdict true
      → AllowedBy r value
  unfolding is_allowed
  is_allowed_sound r value h =
      let (after, free) =
        exclude-pass r.exclude value (check_include match_string r.include value) h in
      record { not_excluded = free; included = include-pass r.include value after }

  -- Every one of the patterns compiles.
  abbrev pub Compile : List String → Type 0
  Compile xs = (x value : String) → In x xs → match_string x value ≢ none

  abbrev pub Compiles : RegexConstraints → Type 0
  Compiles r = Compile r.exclude × Compile r.include

  exclude-skip :
      (y : String) (ys : List String) (value : String) (next : Allowed)
      → match_string y value ≢ none
      → check_exclude match_string ys value next ≡ next
      → (is_blank y ≡ false → y ≢ value)
      → (is_blank y ≡ false → match_string y value ≢ some true)
      → check_exclude match_string (y ∷ ys) value next ≡ next
  unfolding check_exclude
  exclude-skip y ys value next c h n m = ground (arith, eq_iff y value)

  exclude-free :
      (xs : List String) (value : String) (next : Allowed)
      → Compile xs
      → ((x : String) → In x xs → is_blank x ≡ false → ¬ Matches x value)
      → check_exclude match_string xs value next ≡ next
  exclude-free [] value next c h = unfold check_exclude in refl
  exclude-free (y ∷ ys) value next c h =
      exclude-skip y ys value next (c y value (inl refl))
        (exclude-free ys value next (λ x v i. c x v (inr i)) (λ x i. h x (inr i)))
        (λ b e. h y (inl refl) b (inl e)) (λ b e. h y (inl refl) b (inr e))

  include-here :
      (y : String) (ys : List String) (value : String)
      → Matches y value
      → check_include match_string (y ∷ ys) value ≡ verdict true
  unfolding check_include
  include-here y ys value (inl e) = ground (arith, eq_iff y value)
  include-here y ys value (inr e) = ground arith

  include-there :
      (y : String) (ys : List String) (value : String)
      → match_string y value ≢ none
      → check_include match_string ys value ≡ verdict true
      → check_include match_string (y ∷ ys) value ≡ verdict true
  unfolding check_include
  include-there y ys value c h = ground arith

  include-some :
      (xs : List String) (value x : String)
      → Compile xs
      → In x xs
      → Matches x value
      → check_include match_string xs value ≡ verdict true
  include-some [] value x c i m = absurd i
  include-some (y ∷ ys) value x c (inl e) m =
      include-here y ys value (subst (λ z. Matches z value) e m)
  include-some (y ∷ ys) value x c (inr j) m =
      include-there y ys value (c y value (inl refl))
        (include-some ys value x (λ z v i. c z v (inr i)) j m)

  is_allowed_complete :
      (r : RegexConstraints) (value : String)
      → Compiles r
      → AllowedBy r value
      → is_allowed match_string (some r) value ≡ verdict true
  unfolding is_allowed
  is_allowed_complete r value c a =
      let (x, i, m) = a.included in
      exclude-free r.exclude value (check_include match_string r.include value) c.0 a.not_excluded
      ∙ include-some r.include value x c.1 i m

  exclude-ne-failed :
      (xs : List String) (value : String) (next : Allowed) (e : MatchError)
      → Compile xs
      → next ≢ failed e
      → check_exclude match_string xs value next ≢ failed e
  unfolding check_exclude
  exclude-ne-failed [] value next e c n = n
  exclude-ne-failed (y ∷ ys) value next e c n =
      ground
        (arith, c y value (inl refl), exclude-ne-failed ys value next e (λ x v i. c x v (inr i)) n)

  include-ne-failed :
      (xs : List String) (value : String) (e : MatchError)
      → Compile xs
      → check_include match_string xs value ≢ failed e
  unfolding check_include
  include-ne-failed [] value e c = λ h. cc
  include-ne-failed (y ∷ ys) value e c =
      ground (arith, c y value (inl refl), include-ne-failed ys value e (λ x v i. c x v (inr i)))

  answer : (a : Allowed) → ((e : MatchError) → a ≢ failed e) → (b : Bool) × (a ≡ verdict b)
  answer (verdict b) n = (b, refl)
  answer (failed e) n = absurd (n e refl)

  is_allowed-answers :
      (r : RegexConstraints) (value : String)
      → Compiles r
      → (b : Bool) × (is_allowed match_string (some r) value ≡ verdict b)
  unfolding is_allowed
  is_allowed-answers r value c =
      answer
        (check_exclude match_string r.exclude value (check_include match_string r.include value))
        (λ e.
          exclude-ne-failed r.exclude value (check_include match_string r.include value) e c.0
            (include-ne-failed r.include value e c.1))

  -- Where every pattern compiles, `IsAllowed` returns an answer and no error, and the answer is yes
  -- exactly for the values that no pattern of `Exclude` but a blank one matches and some pattern of
  -- `Include` does. With no `Include` nothing is allowed.
  pub is_allowed_iff :
      (r : RegexConstraints) (value : String)
      → Compiles r
      → ((b : Bool) × (is_allowed match_string (some r) value ≡ verdict b))
        × ((is_allowed match_string (some r) value ≡ verdict true) ↔ AllowedBy r value)
  is_allowed_iff r value c =
      (is_allowed-answers r value c, (is_allowed_sound r value, is_allowed_complete r value c))
