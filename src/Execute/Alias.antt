-- ===== src/Execute/Alias.antt =====
-- pkg/execute/alias/expand.go: the expansion of an alias in front of a command.
use Prim.Native.Char.{code}
use Prim.Native.String.{◌++◌ as ◌+++◌}
use botkube.Base.{String, Option, none, some, [], ◌∷◌, Dict, nat_eq, if◌then◌else◌}
use botkube.Config.{Alias}

-- `strings.HasPrefix`, with what follows the prefix.
unfoldable pub strip_prefix : String → String → Option String
strip_prefix String.[] s = some s
strip_prefix (String.◌∷◌ c p) String.[] = none
strip_prefix (String.◌∷◌ c p) (String.◌∷◌ d s) =
    let rest = strip_prefix p s in if nat_eq (code c) (code d) then rest else none

-- What an alias makes of the rest of the command: the alias alone, the alias with arguments, or a
-- longer word.
unfoldable pub expand_with : String → String → Option String
unfolding strip_prefix
expand_with target String.[] = some target
expand_with target (String.◌∷◌ c s) = elim (strip_prefix " " (String.◌∷◌ c s)) [
  | none ↦ none
  | some args ↦ some (target +++ " " +++ args)
]

-- `ExpandPrefix`, on a command without spaces at its ends.
unfoldable pub expand_prefix : String → Dict Alias → String
unfolding strip_prefix expand_with
expand_prefix raw_cmd [] = raw_cmd
expand_prefix raw_cmd ((alias_prefix, alias_cfg) ∷ aliases) =
    let later = expand_prefix raw_cmd aliases in
    elim (strip_prefix alias_prefix raw_cmd) [
      | none ↦ later
      | some rest ↦ elim (expand_with alias_cfg.command rest) [ none ↦ later | some cmd ↦ cmd ]
    ]
