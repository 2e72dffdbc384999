-- ===== src/Source/Scheduler/Planned.antt =====
-- Which dispatch configurations internal/source/scheduler.go ends up with.
use botkube.Base.{
  String, ◌≡◌, refl, sym, ap, ◌∙◌, ◌↔◌, inl, inr, Bool, true, false, Option, none, some, [], ◌∷◌,
  Dict, arith, lookup, lookup-insert, ◌==◌, if◌then◌else◌, Bool-cases, Option-cases,
}
use botkube.Config.{Plugin, Plugins, Sources}
use botkube.Source.Scheduler.{PluginDispatch, Scheduler, marshal_failed}
use botkube.Source.Scheduler.Generate.{config_key, add_dispatch, generate_plugins}

module _ (marshal : Option String → Option String) where
  -- The dispatch of one plugin of a source.
  abbrev pub dispatch_of : Bool → String → Sources → String → Plugin → String → PluginDispatch
  dispatch_of interactive source_name src_config plugin_name plugin_cfg raw_yaml = record {
    plugin_name = plugin_name;
    plugin_config = raw_yaml;
    source_name = source_name;
    source_display_name = src_config.display_name;
    is_interactivity_supported = interactive;
    plugin_context = plugin_cfg.context;
  }

  -- The configuration of the last enabled plugin, alone.
  abbrev pub last_dispatch : Bool → String → Sources → Plugins → Option (Dict PluginDispatch)
  last_dispatch i name src [] = none
  last_dispatch i name src ((plugin_name, p) ∷ plugins) = elim (last_dispatch i name src plugins) [
    | some m ↦ some m
    | none ↦ elim p.enabled [
      | false ↦ none
      | true ↦ elim (marshal p.config) [
        | none ↦ none
        | some raw ↦ some ((plugin_name, dispatch_of i name src plugin_name p raw) ∷ [])
      ]
    ]
  ]

  -- Every enabled plugin's configuration can be marshalled.
  abbrev pub Marshals : Plugins → Type 0
  Marshals [] = Unit
  Marshals ((plugin_name, p) ∷ plugins) =
      (p.enabled ≡ true → (raw : String) × (marshal p.config ≡ some raw)) × Marshals plugins

  lookup-add_dispatch :
      (key j : String) (c : PluginDispatch) (d : Scheduler)
      → lookup j (add_dispatch key c d).dispatch_config
        ≡ (if key == j then some ((c.plugin_name, c) ∷ []) else lookup j d.dispatch_config)
  unfolding add_dispatch
  lookup-add_dispatch key j c d = lookup-insert key j ((c.plugin_name, c) ∷ []) d.dispatch_config

  pub plugins-off :
      (i : Bool) (name n : String) (src : Sources) (p : Plugin) (plugins : Plugins) (d : Scheduler)
      → p.enabled ≡ false
      → generate_plugins marshal i name src ((n, p) ∷ plugins) d
        ≡ generate_plugins marshal i name src plugins d
  unfolding generate_plugins
  plugins-off i name n src p plugins d off = rw off refl

  pub plugins-on :
      (i : Bool) (name n raw : String) (src : Sources) (p : Plugin) (plugins : Plugins)
      (d : Scheduler)
      → p.enabled ≡ true
      → marshal p.config ≡ some raw
      → generate_plugins marshal i name src ((n, p) ∷ plugins) d
        ≡ generate_plugins marshal i name src plugins
            (add_dispatch (config_key i name) (dispatch_of i name src n p raw) d)
  unfolding generate_plugins
  plugins-on i name n raw src p plugins d on m = rw on (rw m refl)

  plugins-bad :
      (i : Bool) (name n : String) (src : Sources) (p : Plugin) (plugins : Plugins) (d : Scheduler)
      → p.enabled ≡ true
      → marshal p.config ≡ none
      → (generate_plugins marshal i name src ((n, p) ∷ plugins) d).1 ≡ some (marshal_failed n name)
  unfolding generate_plugins
  plugins-bad i name n src p plugins d on m = ground arith

  pub lookup-generate_plugins :
      (i : Bool) (name j : String) (src : Sources) (plugins : Plugins) (d : Scheduler)
      → (generate_plugins marshal i name src plugins d).1 ≡ none
      → lookup j (generate_plugins marshal i name src plugins d).0.dispatch_config
        ≡ elim (last_dispatch i name src plugins) [
          | none ↦ lookup j d.dispatch_config
          | some m ↦ if config_key i name == j then some m else lookup j d.dispatch_config
        ]
  lookup-generate_plugins i name j src [] d e = unfold generate_plugins in refl
  lookup-generate_plugins i name j src ((n, p) ∷ plugins) d e = elim (Bool-cases p.enabled) [
    | inr off ↦
        let step = plugins-off i name n src p plugins d off in
        rw step (
          rw (lookup-generate_plugins i name j src plugins d (ap (λ r. r.1) (sym step) ∙ e))
            (ground (arith, off)))
    | inl on ↦ elim (Option-cases (marshal p.config)) [
      | inl m ↦ absurd (cc (e, plugins-bad i name n src p plugins d on m))
      | inr (raw, m) ↦
          let step = plugins-on i name n raw src p plugins d on m in
          let c = dispatch_of i name src n p raw in
          rw step (
            rw
              (lookup-generate_plugins i name j src plugins (add_dispatch (config_key i name) c d)
                (ap (λ r. r.1) (sym step) ∙ e))
              (ground (arith, on, m, lookup-add_dispatch (config_key i name) j c d)))
    ]
  ]

  pub Marshals-iff :
      (i : Bool) (name : String) (src : Sources) (plugins : Plugins) (d : Scheduler)
      → ((generate_plugins marshal i name src plugins d).1 ≡ none) ↔ Marshals plugins
  Marshals-iff i name src [] d = (λ _. tt, λ _. unfold generate_plugins in refl)
  Marshals-iff i name src ((n, p) ∷ plugins) d = elim (Bool-cases p.enabled) [
    | inr off ↦
        let (to, from) = Marshals-iff i name src plugins d in
        rw (plugins-off i name n src p plugins d off) (λ h. (λ on. absurd cc, to h), λ h. from h.1)
    | inl on ↦ elim (Option-cases (marshal p.config)) [
      | inl m ↦ (
        λ h. absurd (cc (h, plugins-bad i name n src p plugins d on m)),
        λ h. absurd (cc (m, (h.0 on).1)),
      )
      | inr (raw, m) ↦
          let (to, from) =
            Marshals-iff i name src plugins
              (add_dispatch (config_key i name) (dispatch_of i name src n p raw) d) in
          rw (plugins-on i name n raw src p plugins d on m)
            (λ h. (λ _. (raw, m), to h), λ h. from h.1)
    ]
  ]
