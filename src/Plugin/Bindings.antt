-- ===== src/Plugin/Bindings.antt =====
-- The collector at an enabled Slack platform and a disabled action.
use botkube.Base.{String, ◌≡◌, refl, ◌↔◌, [], ◌∷◌, In}
use botkube.Base.Adds.{put_all}
use botkube.Config.Sample.{config}
use botkube.Plugin.Collector.{
  get_all_enabled_and_used_plugins, executor_plugins, source_plugins, collect,
}
use botkube.Plugin.Collector.Laws.{executor, source, IsBound}
use botkube.Plugin.Collector.Used.{UsedIn, used_plugins_iff}

-- The disabled action binds nothing, and the disabled plugin is not reported.
used-config :
    get_all_enabled_and_used_plugins config ≡ ("botkube/kubectl" ∷ [], "botkube/kubernetes" ∷ [])
unfolding get_all_enabled_and_used_plugins collect put_all
used-config = refl

used_plugins_iff_example :
    (In {A = String} "botkube/kubectl" (get_all_enabled_and_used_plugins config).0
      ↔ UsedIn executor_plugins (λ g. IsBound executor g config) "botkube/kubectl" config.executors)
    × (In {A = String} "botkube/kubectl" (get_all_enabled_and_used_plugins config).1
        ↔ UsedIn source_plugins (λ g. IsBound source g config) "botkube/kubectl" config.sources)
used_plugins_iff_example = used_plugins_iff config "botkube/kubectl"
