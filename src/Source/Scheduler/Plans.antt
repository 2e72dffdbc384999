-- ===== src/Source/Scheduler/Plans.antt =====
-- What `generateConfigs` of internal/source/scheduler.go leaves when it succeeds.
use botkube.Base.{
  String, ◌≡◌, refl, sym, ap, ◌∙◌, ◌⊎◌, inl, inr, Bool, Option, none, some, List, [], ◌∷◌, Dict, In,
  arith, lookup, ◌==◌, eq_iff, eq_refl, if◌then◌else◌, Bool-cases, Option-cases,
}
use botkube.Config.{Sources, Config}
use botkube.Source.Scheduler.{PluginDispatch, Scheduler, new_scheduler}
use botkube.Source.Scheduler.Generate.{config_key, generate_plugin_config, generate_configs}
use botkube.Source.Scheduler.Bound.{Binding, bindings_of}
use botkube.Source.Scheduler.Walk.{generate_all, generate_configs-bindings_of}
use mathlib.Core.Path.{subst}
use botkube.Source.Scheduler.Planned.{last_dispatch, lookup-generate_plugins}
use botkube.Source.Scheduler.Configs.{found, missing, all-next, all-stop}

module _ (marshal : Option String → Option String) (cfg : Config) where
  -- The binding `b` of the list asks for the dispatch configuration `m` under the key `j`.
  abbrev pub Planned : List Binding → String → Dict PluginDispatch → Type 0
  Planned bindings j m =
      (b : Binding) × (src : Sources) × In b bindings
      × (lookup b.1 cfg.sources ≡ some src)
      × (config_key b.0 b.1 ≡ j)
      × (last_dispatch marshal b.0 b.1 src src.plugins ≡ some m)

  -- What a binding that succeeds leaves under each key.
  generated :
      (i : Bool) (name j : String) (d : Scheduler)
      → (generate_plugin_config marshal cfg i name d).1 ≡ none
      → (src : Sources) × (lookup name cfg.sources ≡ some src)
        × (lookup j (generate_plugin_config marshal cfg i name d).0.dispatch_config
            ≡ elim (last_dispatch marshal i name src src.plugins) [
              | none ↦ lookup j d.dispatch_config
              | some m ↦ if config_key i name == j then some m else lookup j d.dispatch_config
            ])
  generated i name j d e = elim (Option-cases (lookup name cfg.sources)) [
    | inl gone ↦ absurd (cc (e, missing marshal cfg i name d gone))
    | inr (src, s) ↦
        let same = found marshal cfg i name src d s in
        (
          src,
          s,
          ap (λ r. lookup j r.0.dispatch_config) same
              ∙ lookup-generate_plugins marshal i name j src src.plugins d
                  (ap (λ r. r.1) (sym same) ∙ e),
        )
  ]

  step-Planned :
      (b : Binding) (bs : List Binding) (d : Scheduler) (j : String) (m : Dict PluginDispatch)
      → (generate_plugin_config marshal cfg b.0 b.1 d).1 ≡ none
      → lookup j (generate_plugin_config marshal cfg b.0 b.1 d).0.dispatch_config ≡ some m
      → (lookup j d.dispatch_config ≡ some m) ⊎ Planned (b ∷ bs) j m
  step-Planned (i, name) bs d j m e l =
      let (src, s, after) = generated i name j d e in
      let l' = sym after ∙ l in
      elim (Option-cases (last_dispatch marshal i name src src.plugins)) [
        | inl o ↦ inl (ground (arith, o, l'))
        | inr (n, o) ↦ elim (Bool-cases (config_key i name == j)) [
          | inl k ↦ inr (
            (i, name),
            src,
            inl refl,
            s,
            (eq_iff (config_key i name) j).0 k,
            ground (arith, o, l', k),
          )
          | inr k ↦ inl (ground (arith, o, l', k))
        ]
      ]

  -- A key that stands in the configurations stays, and the binding's own is added.
  step-keeps :
      (b : Binding) (d : Scheduler) (j : String) (m : Dict PluginDispatch)
      → (generate_plugin_config marshal cfg b.0 b.1 d).1 ≡ none
      → lookup j d.dispatch_config ≡ some m
      → (n : Dict PluginDispatch) × (lookup j
            (generate_plugin_config marshal cfg b.0 b.1 d).0.dispatch_config
          ≡ some n)
  step-keeps (i, name) d j m e l =
      let (src, s, after) = generated i name j d e in
      elim (Option-cases (last_dispatch marshal i name src src.plugins)) [
        | inl o ↦ (m, ground (arith, o, after, l))
        | inr (n, o) ↦ elim (Bool-cases (config_key i name == j)) [
          | inl k ↦ (n, ground (arith, o, after, k))
          | inr k ↦ (m, ground (arith, o, after, k, l))
        ]
      ]

  step-adds :
      (b : Binding) (src : Sources) (d : Scheduler) (m : Dict PluginDispatch)
      → (generate_plugin_config marshal cfg b.0 b.1 d).1 ≡ none
      → lookup b.1 cfg.sources ≡ some src
      → last_dispatch marshal b.0 b.1 src src.plugins ≡ some m
      → lookup (config_key b.0 b.1) (generate_plugin_config marshal cfg b.0 b.1 d).0.dispatch_config
        ≡ some m
  step-adds (i, name) src d m e s o =
      let same = found marshal cfg i name src d s in
      let after =
        lookup-generate_plugins marshal i name (config_key i name) src src.plugins d
          (ap (λ r. r.1) (sym same) ∙ e) in
      ap (λ r. lookup (config_key i name) r.0.dispatch_config) same
      ∙ after
      ∙ ground (arith, o, eq_refl (config_key i name))

  first_succeeds :
      (b : Binding) (bs : List Binding) (d : Scheduler)
      → (generate_all marshal cfg (b ∷ bs) d).1 ≡ none
      → (generate_plugin_config marshal cfg b.0 b.1 d).1 ≡ none
  first_succeeds b bs d e = elim (Option-cases (generate_plugin_config marshal cfg b.0 b.1 d).1) [
    | inl f ↦ f
    | inr (err, f) ↦ absurd (cc (e, all-stop marshal cfg b bs d err f))
  ]

  later :
      (b : Binding) (bs : List Binding) (j : String) (m : Dict PluginDispatch)
      → Planned bs j m
      → Planned (b ∷ bs) j m
  later b bs j m (c, src, i, l, k, o) = (c, src, inr i, l, k, o)

  all-Planned :
      (bs : List Binding) (d : Scheduler) (j : String) (m : Dict PluginDispatch)
      → (generate_all marshal cfg bs d).1 ≡ none
      → lookup j (generate_all marshal cfg bs d).0.dispatch_config ≡ some m
      → (lookup j d.dispatch_config ≡ some m) ⊎ Planned bs j m
  all-Planned [] d j m e l = inl (unfold generate_all in l)
  all-Planned (b ∷ bs) d j m e l =
      let f = first_succeeds b bs d e in
      let next = sym (all-next marshal cfg b bs d f) in
      elim (all-Planned bs (generate_plugin_config marshal cfg b.0 b.1 d).0 j m
        (ap (λ r. r.1) next ∙ e) (ap (λ r. lookup j r.0.dispatch_config) next ∙ l)) [
          | inl before ↦ step-Planned b bs d j m f before
          | inr planned ↦ inr (later b bs j m planned)
        ]

  all-keeps :
      (bs : List Binding) (d : Scheduler) (j : String) (m : Dict PluginDispatch)
      → (generate_all marshal cfg bs d).1 ≡ none
      → lookup j d.dispatch_config ≡ some m
      → (n : Dict PluginDispatch) × (lookup j (generate_all marshal cfg bs d).0.dispatch_config
          ≡ some n)
  all-keeps [] d j m e l = (m, unfold generate_all in l)
  all-keeps (b ∷ bs) d j m e l =
      let f = first_succeeds b bs d e in
      let next = all-next marshal cfg b bs d f in
      let (n, kept) = step-keeps b d j m f l in
      let (o, end) =
        all-keeps bs (generate_plugin_config marshal cfg b.0 b.1 d).0 j n
          (ap (λ r. r.1) (sym next) ∙ e) kept in
      (o, ap (λ r. lookup j r.0.dispatch_config) next ∙ end)

  all-adds :
      (b : Binding) (src : Sources) (m : Dict PluginDispatch) (bs : List Binding) (d : Scheduler)
      → (generate_all marshal cfg bs d).1 ≡ none
      → In b bs
      → lookup b.1 cfg.sources ≡ some src
      → last_dispatch marshal b.0 b.1 src src.plugins ≡ some m
      → (n : Dict PluginDispatch) × (lookup
            (config_key b.0 b.1)
            (generate_all marshal cfg bs d).0.dispatch_config
          ≡ some n)
  all-adds b src m [] d e i l o = absurd i
  all-adds b src m (c ∷ bs) d e i l o =
      let f = first_succeeds c bs d e in
      let next = all-next marshal cfg c bs d f in
      let e' = ap (λ r. r.1) (sym next) ∙ e in
      let after = (generate_plugin_config marshal cfg c.0 c.1 d).0 in
      let there : (n : Dict PluginDispatch) × (lookup (config_key b.0 b.1)
              (generate_all marshal cfg bs after).0.dispatch_config
            ≡ some n) =
        elim i [
          | inl same ↦ all-keeps bs after (config_key b.0 b.1) m e' (
              subst
                (λ (x : Binding).
                  (generate_plugin_config marshal cfg x.0 x.1 d).1 ≡ none
                  → lookup (config_key b.0 b.1)
                      (generate_plugin_config marshal cfg x.0 x.1 d).0.dispatch_config
                    ≡ some m)
                same (λ g. step-adds b src d m g l o) f)
          | inr j ↦ all-adds b src m bs after e' j l o
        ] in
      (there.0, ap (λ r. lookup (config_key b.0 b.1) r.0.dispatch_config) next ∙ there.1)

  -- Where `generateConfigs` of a new scheduler returns no error, each dispatch configuration stands
  -- under the key of a source bound to an enabled platform, sink or action, and has one plugin, the
  -- last enabled one of that source; and each such source with an enabled plugin has its key.
  pub Planned-generate_configs :
      (generate_configs marshal cfg new_scheduler).1 ≡ none
      → let configs = (generate_configs marshal cfg new_scheduler).0.dispatch_config in
        ((j : String) (m : Dict PluginDispatch)
          → lookup j configs ≡ some m
          → Planned (bindings_of cfg) j m)
        × ((b : Binding) (src : Sources) (m : Dict PluginDispatch)
            → In b (bindings_of cfg)
            → lookup b.1 cfg.sources ≡ some src
            → last_dispatch marshal b.0 b.1 src src.plugins ≡ some m
            → (n : Dict PluginDispatch) × (lookup (config_key b.0 b.1) configs ≡ some n))
  Planned-generate_configs = rw (generate_configs-bindings_of marshal cfg new_scheduler) (λ e. (
    λ j m l. elim (all-Planned (bindings_of cfg) new_scheduler j m e l) [
      | inl empty ↦ absurd (unfold lookup in cc (empty))
      | inr planned ↦ planned
    ],
    λ b src m i l o. all-adds b src m (bindings_of cfg) new_scheduler e i l o,
  ))
