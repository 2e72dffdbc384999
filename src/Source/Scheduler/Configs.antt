-- ===== src/Source/Scheduler/Configs.antt =====
-- When `generateConfigs` of internal/source/scheduler.go succeeds, and what it leaves then.
use botkube.Base.{
  String, ◌≡◌, refl, ◌↔◌, inl, inr, Bool, Option, none, some, List, [], ◌∷◌, All, lookup,
  Option-cases,
}
use botkube.Config.{Sources, Config}
use botkube.Source.Scheduler.{Scheduler, SchedulerError, source_not_found, Result}
use botkube.Source.Scheduler.Generate.{
  then_go, generate_plugins, generate_plugin_config, generate_configs,
}
use botkube.Source.Scheduler.Bound.{Binding, bindings_of}
use botkube.Source.Scheduler.Walk.{generate_all, generate_configs-bindings_of}
use mathlib.Core.Path.{subst}
use botkube.Source.Scheduler.Planned.{Marshals, Marshals-iff}

then_go-none : (f : Scheduler → Result) (r : Result) → r.1 ≡ none → then_go f r ≡ f r.0
unfolding then_go
then_go-none f (d, none) e = refl
then_go-none f (d, some err) e = absurd cc

then_go-some :
    (f : Scheduler → Result) (r : Result) (err : SchedulerError)
    → r.1 ≡ some err
    → (then_go f r).1 ≡ some err
unfolding then_go
then_go-some f (d, none) err e = absurd cc
then_go-some f (d, some err') err e = e

module _ (marshal : Option String → Option String) (cfg : Config) where
  -- The bound source is defined and every enabled plugin's configuration can be marshalled.
  abbrev pub Defined : Binding → Type 0
  Defined b = (src : Sources) × ((lookup b.1 cfg.sources ≡ some src) × Marshals marshal src.plugins)

  pub found :
      (i : Bool) (name : String) (src : Sources) (d : Scheduler)
      → lookup name cfg.sources ≡ some src
      → generate_plugin_config marshal cfg i name d
        ≡ generate_plugins marshal i name src src.plugins d
  unfolding generate_plugin_config
  found i name src d l = rw (l, generate_plugin_config) refl

  pub missing :
      (i : Bool) (name : String) (d : Scheduler)
      → lookup name cfg.sources ≡ none
      → (generate_plugin_config marshal cfg i name d).1 ≡ some (source_not_found name)
  unfolding generate_plugin_config
  missing i name d l = rw (l, generate_plugin_config) refl

  other-eq : (other src : Sources) → some other ≡ some src → other ≡ src
  other-eq other src e = cc

  Defined-iff :
      (b : Binding) (d : Scheduler)
      → ((generate_plugin_config marshal cfg b.0 b.1 d).1 ≡ none) ↔ Defined b
  Defined-iff (i, name) d = elim (Option-cases (lookup name cfg.sources)) [
    | inl l ↦ (λ h. absurd (cc (h, missing i name d l)), λ h. absurd (cc (l, h.1.0)))
    | inr (src, l) ↦ rw (found i name src d l) (
      λ h. (src, (l, (Marshals-iff marshal i name src src.plugins d).0 h)),
      λ (other, (l', ms)).
          (Marshals-iff marshal i name src src.plugins d).1
            (subst (λ (x : Sources). Marshals marshal x.plugins) (other-eq other src cc) ms),
    )
  ]

  pub all-next :
      (b : Binding) (bs : List Binding) (d : Scheduler)
      → (generate_plugin_config marshal cfg b.0 b.1 d).1 ≡ none
      → generate_all marshal cfg (b ∷ bs) d
        ≡ generate_all marshal cfg bs (generate_plugin_config marshal cfg b.0 b.1 d).0
  unfolding generate_all
  all-next b bs d e =
      then_go-none (generate_all marshal cfg bs) (generate_plugin_config marshal cfg b.0 b.1 d) e

  pub all-stop :
      (b : Binding) (bs : List Binding) (d : Scheduler) (err : SchedulerError)
      → (generate_plugin_config marshal cfg b.0 b.1 d).1 ≡ some err
      → (generate_all marshal cfg (b ∷ bs) d).1 ≡ some err
  unfolding generate_all
  all-stop b bs d err e =
      then_go-some (generate_all marshal cfg bs) (generate_plugin_config marshal cfg b.0 b.1 d) err
        e

  All-Defined_iff :
      (bs : List Binding) (d : Scheduler)
      → ((generate_all marshal cfg bs d).1 ≡ none) ↔ All Defined bs
  All-Defined_iff [] d = (λ _. tt, λ _. unfold generate_all in refl)
  All-Defined_iff (b ∷ bs) d =
      let after = generate_plugin_config marshal cfg b.0 b.1 d in
      elim (Option-cases after.1) [
        | inl e ↦
            let (to, from) = All-Defined_iff bs after.0 in
            rw (all-next b bs d e) (λ h. ((Defined-iff b d).0 e, to h), λ h. from h.1)
        | inr (err, e) ↦ (
          λ h. absurd (cc (h, all-stop b bs d err e)),
          λ h. absurd (cc (e, (Defined-iff b d).1 h.0)),
        )
      ]

  -- `generateConfigs` returns no error exactly if every source bound to an enabled platform, sink or
  -- action is defined, and the configuration of each of its enabled plugins can be marshalled.
  pub generate_configs_iff :
      (d : Scheduler) → ((generate_configs marshal cfg d).1 ≡ none) ↔ All Defined (bindings_of cfg)
  generate_configs_iff d =
      rw (generate_configs-bindings_of marshal cfg d) (All-Defined_iff (bindings_of cfg) d)
