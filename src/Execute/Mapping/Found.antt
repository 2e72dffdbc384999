-- ===== src/Execute/Mapping/Found.antt =====
-- Which function `FindFn` of pkg/execute/mapping.go finds.
use botkube.Base.{
  String, ◌≡◌, refl, sym, ap, ◌∙◌, ◌&&◌, Option, none, some, List, [], ◌∷◌, ◌++◌, ◌==◌, Dict,
  lookup, insert, lookup-insert, get_or_zero, get_or_zero-insert, if◌then◌else◌, arith, eq_iff,
  Option-cases, Bool-cases, inl, inr, ◌↔◌,
}
use botkube.Execute.Mapping.{
  FeatureName, CommandExecutor, CommandMapping, Collision, set_command, register_aliases,
  register_command, register_commands, register_executors, new_cmds_mapping, find_fn,
}

-- A function registered for a verb and a feature.
pub record RegisteredFn (F : Type 0) : Type 0 where
  pub verb : String
  pub feature : String
  pub fn : F

module _ {F : Type 0} where
  abbrev pub for_aliases : String → F → List String → List (RegisteredFn F)
  for_aliases verb fn [] = []
  for_aliases verb fn (feature ∷ aliases) =
      record { verb = verb; feature = feature; fn = fn } ∷ for_aliases verb fn aliases

  -- Each command is registered under the name of the feature and then under its aliases.
  abbrev pub for_commands : FeatureName → Dict F → List (RegisteredFn F)
  for_commands sub_cmd [] = []
  for_commands sub_cmd ((verb, fn) ∷ cmds) =
      (record { verb = verb; feature = sub_cmd.name; fn = fn }
        ∷ for_aliases verb fn sub_cmd.aliases)
      ++ for_commands sub_cmd cmds

  abbrev pub registrations : List (CommandExecutor F) → List (RegisteredFn F)
  registrations [] = []
  registrations (ex ∷ executors) =
      for_commands ex.feature_name ex.commands ++ registrations executors

  -- The latest registration of a verb with a feature, or what was there before.
  abbrev pub latest : String → String → List (RegisteredFn F) → Option F → Option F
  latest verb feature [] before = before
  latest verb feature (r ∷ rs) before =
      latest verb feature rs
        (if (r.verb == verb) && (r.feature == feature) then some r.fn else before)

  latest-append :
      (verb feature : String) (rs ts : List (RegisteredFn F)) (before : Option F)
      → latest verb feature (rs ++ ts) before
        ≡ latest verb feature ts (latest verb feature rs before)
  latest-append verb feature [] ts before = refl
  latest-append verb feature (r ∷ rs) ts before = latest-append verb feature rs ts _

  abbrev pub fn_at : String → String → CommandMapping F → Option F
  fn_at verb feature m = lookup feature (get_or_zero [] verb m.commands)

  module _ (verb feature : String) where
    fn_at-set_command :
        (v f : String) (fn : F) (m : CommandMapping F)
        → fn_at verb feature (set_command v fn f m)
          ≡ (if (v == verb) && (f == feature) then some fn else fn_at verb feature m)
    unfolding set_command
    fn_at-set_command v f fn m =
        rw (get_or_zero-insert [] (insert f fn (get_or_zero [] v m.commands)) v verb m.commands)
          (elim (Bool-cases (v == verb)) [
            | inl e ↦ rw e (
                rw (sym ((eq_iff v verb).0 e))
                  (lookup-insert f feature fn (get_or_zero [] v m.commands)))
            | inr e ↦ rw e (ground arith)
          ])

    fn_at-register_aliases :
        (v : String) (fn : F) (aliases : List String) (s : CommandMapping F × List Collision)
        → fn_at verb feature (register_aliases v fn aliases s).0
          ≡ latest verb feature (for_aliases v fn aliases) (fn_at verb feature s.0)
    unfolding register_aliases
    fn_at-register_aliases v fn [] s = refl
    fn_at-register_aliases v fn (f ∷ aliases) (m, errs) =
        fn_at-register_aliases v fn aliases _
        ∙ ap (latest verb feature (for_aliases v fn aliases)) (fn_at-set_command v f fn m)

    fn_at-register_commands :
        (sub_cmd : FeatureName) (cmds : Dict F) (s : CommandMapping F × List Collision)
        → fn_at verb feature (register_commands sub_cmd cmds s).0
          ≡ latest verb feature (for_commands sub_cmd cmds) (fn_at verb feature s.0)
    unfolding register_commands register_command
    fn_at-register_commands sub_cmd [] s = refl
    fn_at-register_commands sub_cmd ((v, fn) ∷ cmds) (m, errs) =
        fn_at-register_commands sub_cmd cmds _
        ∙ ap (latest verb feature (for_commands sub_cmd cmds)) (
            fn_at-register_aliases v fn sub_cmd.aliases _
            ∙ ap (latest verb feature (for_aliases v fn sub_cmd.aliases))
                (fn_at-set_command v sub_cmd.name fn m))
        ∙ sym (
            latest-append verb feature
              (record { verb = v; feature = sub_cmd.name; fn = fn }
                ∷ for_aliases v fn sub_cmd.aliases)
              (for_commands sub_cmd cmds) (fn_at verb feature m))

    fn_at-register_executors :
        (executors : List (CommandExecutor F)) (s : CommandMapping F × List Collision)
        → fn_at verb feature (register_executors executors s).0
          ≡ latest verb feature (registrations executors) (fn_at verb feature s.0)
    unfolding register_executors
    fn_at-register_executors [] s = refl
    fn_at-register_executors (ex ∷ executors) s =
        fn_at-register_executors executors _
        ∙ ap (latest verb feature (registrations executors))
            (fn_at-register_commands ex.feature_name ex.commands s)
        ∙ sym (
            latest-append verb feature (for_commands ex.feature_name ex.commands)
              (registrations executors) (fn_at verb feature s.0))

    found_iff :
        (m : CommandMapping F) (fn : F)
        → (find_fn m verb feature ≡ some (some fn)) ↔ (fn_at verb feature m ≡ some fn)
    unfolding lookup
    found_iff m fn = elim (Option-cases (lookup verb m.commands)) [
      | inl e ↦ ground (arith, e)
      | inr (features, e) ↦ ground (arith, e)
    ]

    no_collision :
        (errs : List Collision) (m n : CommandMapping F)
        → ◌≡◌ {A = Option (CommandMapping F)} (elim errs [ [] ↦ some m | _ ∷ _ ↦ none ]) (some n)
        → m ≡ n
    no_collision [] m n e = cc
    no_collision (c ∷ errs) m n e = absurd cc

    mapped :
        (executors : List (CommandExecutor F)) (m : CommandMapping F)
        → new_cmds_mapping executors ≡ some m
        → (register_executors executors (record { commands = []; help = [] }, [])).0 ≡ m
    unfolding new_cmds_mapping
    mapped executors m e =
        let all = register_executors executors (record { commands = []; help = [] }, []) in
        no_collision all.1 all.0 m e

    nothing_at : fn_at verb feature (record { commands = []; help = [] }) ≡ none
    unfolding lookup
    nothing_at = refl

    -- In the mapping that `NewCmdsMapping` makes of executors, `FindFn` finds for a verb and a feature
    -- the function that was registered last under them, by the name or by an alias of a feature.
    pub find_fn_iff :
        (executors : List (CommandExecutor F)) (m : CommandMapping F) (fn : F)
        → new_cmds_mapping executors ≡ some m
        → (find_fn m verb feature ≡ some (some fn))
          ↔ (latest verb feature (registrations executors) none ≡ some fn)
    find_fn_iff executors m fn e =
        let at =
          ap (fn_at verb feature) (sym (mapped executors m e))
          ∙ fn_at-register_executors executors (record { commands = []; help = [] }, [])
          ∙ ap (latest verb feature (registrations executors)) nothing_at in
        let (to, from) = found_iff m fn in (λ h. sym at ∙ to h, λ h. from (at ∙ h))
