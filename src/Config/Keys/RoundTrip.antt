-- ===== src/Config/Keys/RoundTrip.antt =====
-- Plugin keys that are put together and taken apart again.
use Prim.Native.Char.{Char, code}
use Prim.Native.String.{◌++◌ as ◌+++◌}
use text.Mathlib.TextLemmas.{nil-append, cons-append}
use botkube.Base.{
  ℕ, String, ◌≡◌, ◌≢◌, Bool, true, false, ◌&&◌, not, some, arith, nat_eq, test_of_ne, ◌==◌,
}
use botkube.Base.Text.{cut}
use botkube.Config.Keys.{slash, at_sign, decompose_plugin_key, executor_name_for_key}

-- The character does not occur in the text.
abbrev pub free_of : ℕ → String → Bool
free_of sep String.[] = true
free_of sep (String.◌∷◌ c s) = not (nat_eq (code c) sep) && free_of sep s

cut-cons :
    (sep : ℕ) (c : Char) (text before after : String)
    → nat_eq (code c) sep ≡ false
    → cut sep text ≡ some (before, after)
    → cut sep (String.◌∷◌ c text) ≡ some (String.◌∷◌ c before, after)
unfolding cut
cut-cons sep c text before after h e = ground arith

cut-here :
    (sep : ℕ) (c : Char) (after : String)
    → nat_eq (code c) sep ≡ true
    → cut sep (String.◌∷◌ c after) ≡ some ("", after)
unfolding cut
cut-here sep c after h = ground arith

-- A text is cut at the first separator.
cut-append :
    (c : Char) (before after : String)
    → free_of (code c) before ≡ true
    → cut (code c) (before +++ String.◌∷◌ c after) ≡ some (before, after)
cut-append c String.[] after h = rw nil-append (cut-here (code c) c after (ground arith))
cut-append c (String.◌∷◌ d before) after h = rw (cons-append d before (String.◌∷◌ c after)) (
    cut-cons (code c) d (before +++ String.◌∷◌ c after) before after (ground arith)
      (cut-append c before after (ground arith)))

decompose-parts :
    (key repo rest name ver : String)
    → cut slash key ≡ some (repo, rest)
    → cut at_sign rest ≡ some (name, ver)
    → (repo == "") ≡ false
    → (name == "") ≡ false
    → (decompose_plugin_key key ≡ some (repo, name, ver)) × (executor_name_for_key key ≡ name)
unfolding decompose_plugin_key executor_name_for_key
decompose-parts key repo rest name ver s a r n = (ground arith, ground arith)

-- A key written as repository, slash, name, at sign and version is taken apart into just these,
-- and the executor's name is the name in the key. The repository is not empty and has no slash, the
-- name is not empty and has no at sign; the version is any text.
pub decompose_round_trip :
    (repo name ver : String)
    → repo ≢ ""
    → name ≢ ""
    → free_of slash repo ≡ true
    → free_of at_sign name ≡ true
    → let key = repo +++ String.◌∷◌ "/" (name +++ String.◌∷◌ "@" ver) in
      (decompose_plugin_key key ≡ some (repo, name, ver)) × (executor_name_for_key key ≡ name)
decompose_round_trip repo name ver r n s a =
    decompose-parts (repo +++ String.◌∷◌ "/" (name +++ String.◌∷◌ "@" ver)) repo
      (name +++ String.◌∷◌ "@" ver) name ver (cut-append "/" repo (name +++ String.◌∷◌ "@" ver) s)
      (cut-append "@" name ver a) (test_of_ne repo "" r) (test_of_ne name "" n)
