-- ===== src/Source/Tests.antt =====
-- The scheduler at a configuration that binds one source with two plugins, one of them enabled.
use botkube.Base.{
  ◌≤◌, String, ◌≡◌, refl, ◌↔◌, Bool, true, false, Option, none, some, List, [], ◌∷◌, Dict, All, In,
  lookup, insert, remove,
}
use botkube.Base.Text.{sort}
use botkube.Config.{Sources}
use botkube.Config.Sample.{config}
use botkube.Source.Scheduler.{PluginDispatch, Scheduler, new_scheduler, monitor_health}
use botkube.Source.Scheduler.Opened.{calls}
use botkube.Source.Scheduler.Generate.{generate_configs, start, config_key}
use botkube.Source.Scheduler.Bound.{Binding, bindings_of}
use botkube.Source.Scheduler.Planned.{last_dispatch}
use botkube.Source.Scheduler.Configs.{Defined, generate_configs_iff}
use botkube.Source.Scheduler.Plans.{Planned, Planned-generate_configs}
use botkube.Source.Scheduler.Restarts.{calls-monitor_health}

-- A configuration that is its YAML text.
abbrev marshal : Option String → Option String
marshal c = elim c [ none ↦ some "null" | some text ↦ some text ]

abbrev succeeds : PluginDispatch → Bool
succeeds d = true

abbrev fails : PluginDispatch → Bool
fails d = false

abbrev ready : Scheduler
ready = (generate_configs marshal config new_scheduler).0

abbrev restarts : List (String × (PluginDispatch → Bool))
restarts =
    ("botkube/kubernetes", fails)
    ∷ ("botkube/helm", succeeds)
    ∷ ("botkube/kubernetes", succeeds)
    ∷ []

-- The stream is opened at the start and at the restart that succeeds.
opened_twice :
    (monitor_health restarts (start marshal config succeeds new_scheduler).0).dispatched
    ≡ ("botkube/kubernetes", "k8s_interactive/true")
      ∷ ("botkube/kubernetes", "k8s_interactive/true")
      ∷ []
unfolding monitor_health start sort lookup insert remove
opened_twice = refl

generated : (generate_configs marshal config new_scheduler).1 ≡ none
unfolding generate_configs lookup
generated = refl

calls-monitor_health_example :
    calls "botkube/kubernetes" "k8s_interactive/true"
      (monitor_health restarts (start marshal config succeeds new_scheduler).0).dispatched
    ≤ 3
calls-monitor_health_example =
    calls-monitor_health marshal config "botkube/kubernetes" "k8s_interactive/true" succeeds
      restarts

generate_configs_iff_example :
    ((generate_configs marshal config new_scheduler).1 ≡ none)
    ↔ All (Defined marshal config) (bindings_of config)
generate_configs_iff_example = generate_configs_iff marshal config new_scheduler

Planned-generate_configs_example :
    let configs = (generate_configs marshal config new_scheduler).0.dispatch_config in
    ((j : String) (m : Dict PluginDispatch)
      → lookup j configs ≡ some m
      → Planned marshal config (bindings_of config) j m)
    × ((b : Binding) (src : Sources) (m : Dict PluginDispatch)
        → In b (bindings_of config)
        → lookup b.1 config.sources ≡ some src
        → last_dispatch marshal b.0 b.1 src src.plugins ≡ some m
        → (n : Dict PluginDispatch) × (lookup (config_key b.0 b.1) configs ≡ some n))
Planned-generate_configs_example = Planned-generate_configs marshal config generated
