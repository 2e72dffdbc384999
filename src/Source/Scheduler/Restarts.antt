-- ===== src/Source/Scheduler/Restarts.antt =====
-- How often internal/source/scheduler.go opens a stream, over the restarts of plugins.
use botkube.Base.{
  ℕ, suc, ◌+◌, ◌≤◌, String, ◌≡◌, refl, ap, ◌∙◌, Bool, Option, none, some, List, [], ◌∷◌, arith,
  ◌==◌, if◌then◌else◌, lookup, Bool-cases, Option-cases, inl, inr,
}
use botkube.Config.{Plugins, Sources, Config}
use botkube.Source.Scheduler.{
  PluginDispatch, Scheduler, new_scheduler, Result, schedule, reschedule, monitor_health,
  empty_plugin_filter, is_started_stream_with_configuration, delete_all_started_streams_for_plugin,
}
use botkube.Source.Scheduler.Streams.{is_started-delete}
use botkube.Source.Scheduler.Opened.{calls, schedule-Opens}
use botkube.Source.Scheduler.Generate.{
  then_go, start, generate_configs, generate_plugins, generate_plugin_config, add_dispatch,
  config_key,
}
use botkube.Source.Scheduler.Bound.{Binding, bindings_of}
use botkube.Source.Scheduler.Walk.{generate_all, generate_configs-bindings_of}
use botkube.Source.Scheduler.Planned.{plugins-on, plugins-off, dispatch_of}

-- The calls so far, and one more that is to come while the stream is not open.
abbrev due : String → String → Scheduler → ℕ
due p k s =
    calls p k s.dispatched
    + (if is_started_stream_with_configuration p k s.opened_streams then 0 else 1)

-- How often a plugin was restarted.
abbrev pub restarts_of : String → List (String × (PluginDispatch → Bool)) → ℕ
restarts_of p [] = 0
restarts_of p ((q, dispatch) ∷ restarts) =
    let rest = restarts_of p restarts in if q == p then suc rest else rest

due-schedule :
    (dispatch : PluginDispatch → Bool) (filter p k : String) (s : Scheduler)
    → due p k (schedule dispatch filter s).0 ≡ due p k s
due-schedule dispatch filter p k s =
    let opens = schedule-Opens dispatch filter p k s in ground (arith, opens.once, opens.stays)

due-reschedule :
    (dispatch : PluginDispatch → Bool) (q p k : String) (s : Scheduler)
    → due p k (reschedule dispatch q s) ≤ due p k s + (if q == p then 1 else 0)
unfolding reschedule
due-reschedule dispatch q p k s =
    let closed = record s {
      opened_streams = delete_all_started_streams_for_plugin q s.opened_streams;
    } in
    ground (arith, due-schedule dispatch q p k closed, is_started-delete p k q s.opened_streams)

due-monitor_health :
    (restarts : List (String × (PluginDispatch → Bool))) (p k : String) (s : Scheduler)
    → due p k (monitor_health restarts s) ≤ due p k s + restarts_of p restarts
unfolding monitor_health
due-monitor_health [] p k s = omega arith
due-monitor_health ((q, dispatch) ∷ restarts) p k s =
    let rest = due-monitor_health restarts p k (reschedule dispatch q s) in
    ground (arith, rest, due-reschedule dispatch q p k s)

module _ (marshal : Option String → Option String) (cfg : Config) (p k : String) where
  due-generate_plugins :
      (i : Bool) (name : String) (src : Sources) (plugins : Plugins) (d : Scheduler)
      → due p k (generate_plugins marshal i name src plugins d).0 ≡ due p k d
  unfolding generate_plugins add_dispatch
  due-generate_plugins i name src [] d = refl
  due-generate_plugins i name src ((n, c) ∷ plugins) d = elim (Bool-cases c.enabled) [
    | inr off ↦
        rw (plugins-off marshal i name n src c plugins d off)
          (due-generate_plugins i name src plugins d)
    | inl on ↦ elim (Option-cases (marshal c.config)) [
      | inl m ↦ ground arith
      | inr (raw, m) ↦ rw (plugins-on marshal i name n raw src c plugins d on m) (
          due-generate_plugins i name src plugins
            (add_dispatch (config_key i name) (dispatch_of marshal i name src n c raw) d))
    ]
  ]

  due-generate_plugin_config :
      (i : Bool) (name : String) (d : Scheduler)
      → due p k (generate_plugin_config marshal cfg i name d).0 ≡ due p k d
  unfolding generate_plugin_config
  due-generate_plugin_config i name d = elim (Option-cases (lookup name cfg.sources)) [
    | inl gone ↦ rw (gone, generate_plugin_config) refl
    | inr (src, l) ↦ rw (l, generate_plugin_config) (due-generate_plugins i name src src.plugins d)
  ]

  due-then_go :
      (f : Scheduler → Result) (r : Result)
      → ((d : Scheduler) → due p k (f d).0 ≡ due p k d)
      → due p k (then_go f r).0 ≡ due p k r.0
  unfolding then_go
  due-then_go f (d, none) h = h d
  due-then_go f (d, some err) h = refl

  due-generate_all :
      (bs : List Binding) (d : Scheduler) → due p k (generate_all marshal cfg bs d).0 ≡ due p k d
  unfolding generate_all
  due-generate_all [] d = refl
  due-generate_all ((i, name) ∷ bs) d =
      due-then_go (generate_all marshal cfg bs) (generate_plugin_config marshal cfg i name d)
        (due-generate_all bs)
      ∙ due-generate_plugin_config i name d

  -- From the start of a new scheduler on, whatever the dispatcher answers, the stream of a plugin with
  -- a key is opened at most once, and once more for each restart of that plugin.
  pub calls-monitor_health :
      (dispatch : PluginDispatch → Bool) (restarts : List (String × (PluginDispatch → Bool)))
      → calls p k (monitor_health restarts (start marshal cfg dispatch new_scheduler).0).dispatched
        ≤ 1 + restarts_of p restarts
  unfolding start
  calls-monitor_health dispatch restarts =
      let configs = generate_configs marshal cfg new_scheduler in
      let begun =
        due-then_go (schedule dispatch empty_plugin_filter) configs
          (due-schedule dispatch empty_plugin_filter p k) in
      let made =
        ap (λ r. due p k r.0) (generate_configs-bindings_of marshal cfg new_scheduler)
        ∙ due-generate_all (bindings_of cfg) new_scheduler in
      ground (
        arith,
        begun,
        made,
        due-monitor_health restarts p k (start marshal cfg dispatch new_scheduler).0,
      )
