-- ===== src/Plugin/Collector/Used.antt =====
-- Which plugins `GetAllEnabledAndUsedPlugins` of collector.go reports.
use botkube.Base.{
  String, ◌≡◌, refl, ◌↔◌, inl, inr, true, [], ◌∷◌, Dict, contains, if◌then◌else◌, ◌&&◌, In, arith,
  Bool-cases,
}
use botkube.Base.Adds.{Adds, Adds-none, Adds-then, Adds-map, StringSet, put, contains_iff, put-Adds}
use mathlib.Core.Path.{subst}
use botkube.Config.{Plugin, Plugins, Config}
use botkube.Plugin.Collector.{
  mark_plugins, mark_groups, executor_plugins, source_plugins, collect_bound,
  get_all_enabled_and_used_plugins,
}
use botkube.Plugin.Collector.Laws.{executor, source, IsBound, cons-map, IsBound-iff}

-- The plugin stands in the group, enabled.
abbrev pub EnabledIn : String → Plugins → Type 0
EnabledIn p plugins = (kv : String × Plugin) × In kv plugins × ((kv.1.enabled ≡ true) × (p ≡ kv.0))

-- A group that is bound has the plugin, enabled.
abbrev pub UsedIn : {T : Type 0} → (T → Plugins) → (String → Type 0) → String → Dict T → Type 0
UsedIn {T} get B p groups = (kv : String × T) × In kv groups × (B kv.0 × EnabledIn p (get kv.1))

module _ (bound : StringSet) (p : String) where
  mark_one :
      (group name : String) (plugin : Plugin) (used : StringSet)
      → Adds
          (In p used)
          (In p (if plugin.enabled && contains bound group then put name used else used))
          (In group bound × ((plugin.enabled ≡ true) × (p ≡ name)))
  mark_one group name plugin used = elim (Bool-cases (plugin.enabled && contains bound group)) [
    | inl t ↦ rw t (
        Adds-map (λ e. ((contains_iff bound group).0 (ground arith), (ground arith, e)))
          (λ h. h.1.1) (put-Adds p name used))
    | inr n ↦
        rw n (Adds-none (λ (i, (e, q)). absurd (ground (arith, (contains_iff bound group).1 i))))
  ]

  mark_plugins-Adds :
      (group : String) (plugins : Plugins) (used : StringSet)
      → Adds
          (In p used)
          (In p (mark_plugins bound group plugins used))
          (In group bound × EnabledIn p plugins)
  unfolding mark_plugins
  mark_plugins-Adds group [] used = Adds-none (λ h. h.1.1)
  mark_plugins-Adds group ((name, plugin) ∷ plugins) used =
      let next = if plugin.enabled && contains bound group then put name used else used in
      Adds-map
        (λ h. elim h [
          | inl (b, e) ↦ (b, ((name, plugin), inl refl, e))
          | inr (b, (kv, i, e)) ↦ (b, (kv, inr i, e))
        ])
        (λ (b, (kv, i, e)). elim i [
          | inl q ↦ inl (b, (subst (λ (z : String × Plugin). (z.1.enabled ≡ true) × (p ≡ z.0)) q e))
          | inr j ↦ inr (b, (kv, j, e))
        ])
        (Adds-then (mark_one group name plugin used) (mark_plugins-Adds group plugins next))

  mark_groups-Adds :
      {T : Type 0} (get : T → Plugins) (groups : Dict T) (used : StringSet)
      → Adds
          (In p used)
          (In p (mark_groups get bound groups used))
          (UsedIn get (λ g. In g bound) p groups)
  unfolding mark_groups
  mark_groups-Adds get [] used = Adds-none (λ h. h.1)
  mark_groups-Adds get ((group, items) ∷ groups) used =
      cons-map (λ kv. In kv.0 bound × EnabledIn p (get kv.1)) (group, items) groups
        (Adds-then (mark_plugins-Adds group (get items) used)
          (mark_groups-Adds get groups (mark_plugins bound group (get items) used)))

  used_iff :
      {T : Type 0} (get : T → Plugins) (groups : Dict T) (B : String → Type 0)
      → ((g : String) → In g bound ↔ B g)
      → In p (mark_groups get bound groups []) ↔ UsedIn get B p groups
  used_iff get groups B iff =
      let (to, from) = mark_groups-Adds get groups [] in
      (
        λ i. elim (to i) [ inl n ↦ absurd n | inr (kv, j, (b, e)) ↦ (kv, j, ((iff kv.0).0 b, e)) ],
        λ (kv, j, (b, e)). from (inr (kv, j, ((iff kv.0).1 b, e))),
      )

-- The collector reports exactly those executor plugins, and exactly those source plugins, that are
-- enabled in some group which an enabled platform or an enabled action binds; sinks (webhook,
-- Elasticsearch, PagerDuty) bind sources only.
pub used_plugins_iff :
    (cfg : Config) (p : String)
    → (In p (get_all_enabled_and_used_plugins cfg).0
        ↔ UsedIn executor_plugins (λ g. IsBound executor g cfg) p cfg.executors)
      × (In p (get_all_enabled_and_used_plugins cfg).1
          ↔ UsedIn source_plugins (λ g. IsBound source g cfg) p cfg.sources)
unfolding get_all_enabled_and_used_plugins
used_plugins_iff cfg p = (
  used_iff (collect_bound cfg).executors p executor_plugins cfg.executors
      (λ g. IsBound executor g cfg) (λ g. IsBound-iff executor g cfg),
  used_iff (collect_bound cfg).sources p source_plugins cfg.sources (λ g. IsBound source g cfg)
      (λ g. IsBound-iff source g cfg),
)
