-- ===== src/Kube/Checks/Laws.antt =====
-- What the image check reads of an image's name, and what the runner changes.
use Prim.Native.Char.{Char, code}
use Prim.Native.String.{◌++◌ as ◌+++◌}
use text.Mathlib.TextLemmas.{nil-append, cons-append}
use botkube.Base.{String, ◌≡◌, refl, Bool, true, ◌&&◌, not, ◌∷◌, arith, ◌==◌, nat_eq}
use botkube.Base.Text.{split}
use botkube.Kube.Checks.{is_latest, colon}

-- No character of the text is a colon.
abbrev pub colon_free : String → Bool
colon_free String.[] = true
colon_free (String.◌∷◌ c s) = not (nat_eq (code c) colon) && colon_free s

split-cons :
    (c : Char) (s t : String)
    → colon_free (String.◌∷◌ c s) ≡ true
    → split colon (s +++ String.◌∷◌ ":" t) ≡ s ∷ split colon t
    → split colon (String.◌∷◌ c (s +++ String.◌∷◌ ":" t)) ≡ String.◌∷◌ c s ∷ split colon t
unfolding split
split-cons c s t h e = ground arith

split-append :
    (s t : String) → colon_free s ≡ true → split colon (s +++ String.◌∷◌ ":" t) ≡ s ∷ split colon t
split-append String.[] t h = rw nil-append (unfold split in refl)
split-append (String.◌∷◌ c s) t h =
    rw (cons-append c s (String.◌∷◌ ":" t)) (split-cons c s t h (split-append s t (ground arith)))

-- The check reads the text between the first two colons of an image's name as the tag: where neither
-- the text before the first colon nor the text up to the second has a colon, as in the name of an
-- image behind a registry with a port, what follows the second colon does not matter.
pub is_latest-port :
    (registry port tag : String)
    → colon_free registry ≡ true
    → colon_free port ≡ true
    → is_latest (split colon (registry +++ String.◌∷◌ ":" (port +++ String.◌∷◌ ":" tag)))
      ≡ (port == "latest")
is_latest-port registry port tag r p =
    rw (split-append registry (port +++ String.◌∷◌ ":" tag) r, split-append port tag p)
      (unfold is_latest in refl)
