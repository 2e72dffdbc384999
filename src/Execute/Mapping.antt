-- ===== src/Execute/Mapping.antt =====
-- pkg/execute/mapping.go: the functions of the commands by verb and feature.
pub mod Found
use botkube.Base.{
  String, Bool, true, false, Option, none, some, List, [], ◌∷◌, ◌++◌, Dict, lookup, insert,
  get_or_zero, has, if◌then◌else◌,
}

-- The name of a feature and its aliases.
pub record FeatureName : Type 0 where
  pub name : String
  pub aliases : List String

-- A `CommandExecutor` with functions of type `F`: what `Commands` and `FeatureName` return.
pub record CommandExecutor (F : Type 0) : Type 0 where
  pub commands : Dict F
  pub feature_name : FeatureName

pub record CommandMapping (F : Type 0) : Type 0 where
  pub commands : Dict (Dict F)
  pub help : Dict (List FeatureName)

-- A collision of a verb with a feature.
pub record Collision : Type 0 where
  pub verb : String
  pub feature : String

module _ {F : Type 0} where
  -- `cmdsMapping[verb][feature] = fn`
  unfoldable pub set_command : String → F → String → CommandMapping F → CommandMapping F
  set_command verb fn feature m = record m {
    commands = insert verb (insert feature fn (get_or_zero [] verb m.commands)) m.commands;
  }

  -- The loop over the aliases of a feature.
  unfoldable pub register_aliases :
      String
      → F
      → List String
      → CommandMapping F × List Collision
      → CommandMapping F × List Collision
  unfolding set_command
  register_aliases verb fn [] s = s
  register_aliases verb fn (feature ∷ aliases) (m, errs) = register_aliases verb fn aliases (
    set_command verb fn feature m,
    if has feature (get_or_zero [] verb m.commands)
        then errs ++ (record { verb = verb; feature = feature }) ∷ []
        else errs,
  )

  -- One command of an executor.
  unfoldable pub register_command :
      FeatureName
      → String
      → F
      → CommandMapping F × List Collision
      → CommandMapping F × List Collision
  unfolding register_aliases
  register_command sub_cmd verb fn (m, errs) =
      let m1 = set_command verb fn sub_cmd.name m in
      let m2 = record m1 {
        help = insert verb (get_or_zero [] verb m1.help ++ sub_cmd ∷ []) m1.help;
      } in
      register_aliases verb fn sub_cmd.aliases (m2, errs)

  -- The loop over the commands of an executor.
  unfoldable pub register_commands :
      FeatureName → Dict F → CommandMapping F × List Collision → CommandMapping F × List Collision
  unfolding register_command
  register_commands sub_cmd [] s = s
  register_commands sub_cmd ((verb, fn) ∷ cmds) s =
      register_commands sub_cmd cmds (register_command sub_cmd verb fn s)

  unfoldable pub register_executors :
      List (CommandExecutor F)
      → CommandMapping F × List Collision
      → CommandMapping F × List Collision
  unfolding register_commands
  register_executors [] s = s
  register_executors (ex ∷ executors) s =
      register_executors executors (register_commands ex.feature_name ex.commands s)

  -- `NewCmdsMapping`: the mapping, or nil where there are collisions.
  unfoldable pub new_cmds_mapping : List (CommandExecutor F) → Option (CommandMapping F)
  unfolding register_executors
  new_cmds_mapping executors =
      let (m, errs) = register_executors executors (record { commands = []; help = [] }, []) in
      elim errs [ [] ↦ some m | _ ∷ _ ↦ none ]

  -- What `FindFn` finds: no verb, no feature, or a function.
  abbrev pub find_fn : CommandMapping F → String → String → Option (Option F)
  find_fn m verb feature = elim (lookup verb m.commands) [
    | none ↦ none
    | some features ↦ some (lookup feature features)
  ]
