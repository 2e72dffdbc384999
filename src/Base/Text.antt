-- ===== src/Base/Text.antt =====
-- Go's `strings` package, as far as the sources use it, over the characters of a text.
use Prim.Native.Nat.{ℕ, ◌+◌, Ordering}
use Prim.Native.Char.{code}
use Prim.Native.String.{String, ◌++◌, compare}
use mathlib.Core.Bool.{Bool, true, false, ◌||◌, ◌&&◌}
use mathlib.Core.Option.{Option, none, some}
use mathlib.Core.List.{List, [], ◌∷◌}
use botkube.Base.Tests.{if◌then◌else◌, nat_eq, leb}

-- `unicode.ToLower` on the characters whose lower case is an ASCII letter: the ASCII capitals,
-- U+0130 (to `i`) and the Kelvin sign U+212A (to `k`). Every other character is left as it is.
unfoldable pub lower : ℕ → ℕ
lower c =
    if leb 65 c && leb c 90
    then c + 32
    else if nat_eq c 0x130
    then 0x69
    else if nat_eq c 0x212a
    then 0x6b
    else c

-- `strings.ToLower(s) == strings.ToLower(t)`, exact where `t` is ASCII.
unfoldable pub equal_lower : String → String → Bool
unfolding lower
equal_lower String.[] String.[] = true
equal_lower String.[] (String.◌∷◌ d t) = false
equal_lower (String.◌∷◌ c s) String.[] = false
equal_lower (String.◌∷◌ c s) (String.◌∷◌ d t) =
    nat_eq (lower (code c)) (lower (code d)) && equal_lower s t

-- Simple case folding onto ASCII letters: U+017F folds with `s`, U+212A with `k`.
unfoldable pub fold : ℕ → ℕ
fold c =
    if leb 65 c && leb c 90
    then c + 32
    else if nat_eq c 0x17f
    then 0x73
    else if nat_eq c 0x212a
    then 0x6b
    else c

-- `strings.EqualFold(s, t)`, exact where `t` is ASCII.
unfoldable pub equal_fold : String → String → Bool
unfolding fold
equal_fold String.[] String.[] = true
equal_fold String.[] (String.◌∷◌ d t) = false
equal_fold (String.◌∷◌ c s) String.[] = false
equal_fold (String.◌∷◌ c s) (String.◌∷◌ d t) =
    nat_eq (fold (code c)) (fold (code d)) && equal_fold s t

-- `unicode.IsSpace`.
unfoldable pub is_space : ℕ → Bool
is_space c =
    (leb 9 c && leb c 13)
    || (nat_eq c 32
        || (nat_eq c 0x85
            || (nat_eq c 0xa0
                || (nat_eq c 0x1680
                    || ((leb 0x2000 c && leb c 0x200a)
                        || (nat_eq c 0x2028
                            || (nat_eq c 0x2029
                                || (nat_eq c 0x202f || (nat_eq c 0x205f || nat_eq c 0x3000)))))))))

-- `strings.TrimSpace(s) == ""`: every character is a space.
unfoldable pub is_blank : String → Bool
unfolding is_space
is_blank String.[] = true
is_blank (String.◌∷◌ c s) = is_space (code c) && is_blank s

-- `strings.Cut(s, sep)` at a separator of one character; `none` where it does not occur.
unfoldable pub cut : ℕ → String → Option (String × String)
cut sep String.[] = none
cut sep (String.◌∷◌ c s) =
    let rest = cut sep s in
    if nat_eq (code c) sep
    then some (String.[], s)
    else elim rest [ none ↦ none | some (a, b) ↦ some (String.◌∷◌ c a, b) ]

-- `strings.Split(s, sep)` at a separator of one character.
unfoldable pub split : ℕ → String → List String
split sep String.[] = String.[] ∷ []
split sep (String.◌∷◌ c s) =
    let rest = split sep s in
    if nat_eq (code c) sep
    then String.[] ∷ rest
    else elim rest [ [] ↦ [] | part ∷ parts ↦ String.◌∷◌ c part ∷ parts ]

-- The pieces of a formatted text, one after the other.
unfoldable pub concat : List String → String
concat [] = ""
concat (s ∷ ss) = s ++ concat ss

-- `sort.Strings`, by insertion; Go compares bytes, which orders UTF-8 as it orders characters.
unfoldable pub insert_sorted : String → List String → List String
insert_sorted s [] = s ∷ []
insert_sorted s (t ∷ ts) =
    let rest = insert_sorted s ts in elim (compare s t) [ Ordering.gt ↦ t ∷ rest | _ ↦ s ∷ t ∷ ts ]

unfoldable pub sort : List String → List String
unfolding insert_sorted
sort [] = []
sort (s ∷ ss) = insert_sorted s (sort ss)
