-- ===== src/Kube/Allowed.antt =====
-- `RegexConstraints.IsAllowed` of internal/source/kubernetes/config/config.go (pkg/config/config.go
-- has the same text). Go's `regexp.MatchString` is a parameter: `match_string pattern value` is
-- `none` where the pattern does not compile.
pub mod Spec
use botkube.Base.{
  String, Bool, true, false, Option, none, some, List, [], ◌∷◌, ◌==◌, ltb, length, if◌then◌else◌,
}
use botkube.Base.Text.{is_blank}
use botkube.Kube.Config.{RegexConstraints}

-- The two errors of `IsAllowed`, each with the value and the pattern.
pub data MatchError : Type 0 where
  exclude_regex include_regex : String → String → MatchError

-- What `IsAllowed` returns: an answer, or an error.
pub data Allowed : Type 0 where
  verdict : Bool → Allowed
  failed : MatchError → Allowed

module _ (match_string : String → String → Option Bool) where
  -- The loop over `Exclude`; `next` is what follows it.
  unfoldable pub check_exclude : List String → String → Allowed → Allowed
  check_exclude [] value next = next
  check_exclude (x ∷ xs) value next =
      let rest = check_exclude xs value next in
      if is_blank x
      then rest
      else if x == value
      then verdict false
      else elim (match_string x value) [
        | none ↦ failed (exclude_regex value x)
        | some true ↦ verdict false
        | some false ↦ rest
      ]

  -- The loop over `Include`, with the final `return false, nil`.
  unfoldable pub check_include : List String → String → Allowed
  check_include [] value = verdict false
  check_include (x ∷ xs) value =
      let rest = check_include xs value in
      if x == value then verdict true else elim (match_string x value) [
        | none ↦ failed (include_regex value x)
        | some true ↦ verdict true
        | some false ↦ rest
      ]

  -- The receiver is a pointer.
  unfoldable pub is_allowed : Option RegexConstraints → String → Allowed
  unfolding check_exclude check_include
  is_allowed none value = verdict false
  is_allowed (some r) value = check_exclude r.exclude value (check_include r.include value)
