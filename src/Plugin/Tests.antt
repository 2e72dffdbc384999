-- ===== src/Plugin/Tests.antt =====
-- The theorems on plugin supervision at a threshold of one and a plugin that fails twice.
use botkube.Base.{
  ℕ, ◌<◌, ◌≤◌, String, ◌≡◌, refl, ◌↔◌, none, some, List, [], ◌∷◌, true, false, Dict, lookup,
}
use botkube.Base.Text.{equal_lower}
use botkube.Config.{
  PluginRestartPolicy, keep_agent_running_when_threshold_reached,
  restart_agent_when_threshold_reached,
}
use botkube.Plugin.Health.{get_stats, plugin_deactivated}
use botkube.Plugin.Monitor.{EnabledPlugin, Failure, supervise_sources, supervise_executors}
use botkube.Plugin.Monitor.Bounds.{
  fresh, failures_of, occurrences, status-supervise_sources, deactivate-supervise_sources,
}
use botkube.Plugin.Monitor.Exit.{exits_iff-supervise_sources, supervise_executors-eq-sources}

abbrev client : EnabledPlugin ℕ
client = record { client = 7; cleanup = true }

abbrev failure : Failure ℕ
failure = record { plugin_key = "botkube/kubernetes"; now = "12:00"; created = some client }

abbrev failures : List (Failure ℕ)
failures = failure ∷ failure ∷ []

abbrev keep : PluginRestartPolicy
keep = record { type = "deactivateplugin"; threshold = 1 }

abbrev end_agent : PluginRestartPolicy
end_agent = record { type = "RestartAgent"; threshold = 1 }

abbrev enabled : Dict (EnabledPlugin ℕ)
enabled = ("botkube/kubernetes", client) ∷ []

keep-keeps : equal_lower keep.type keep_agent_running_when_threshold_reached ≡ true
unfolding equal_lower
keep-keeps = refl

end_agent-ends : equal_lower end_agent.type restart_agent_when_threshold_reached ≡ true
unfolding equal_lower
end_agent-ends = refl

end_agent-not_keeps : equal_lower end_agent.type keep_agent_running_when_threshold_reached ≡ false
unfolding equal_lower
end_agent-not_keeps = refl

status-supervise_sources_example :
    let stats =
      get_stats (supervise_sources keep failures (fresh keep enabled)).stats "botkube/kubernetes" in
    (stats.restarts ≡ 2) × (stats.threshold ≡ 1) × (stats.status ≡ plugin_deactivated)
status-supervise_sources_example =
    status-supervise_sources keep enabled failures "botkube/kubernetes" keep-keeps

deactivate-supervise_sources_example :
    let s = supervise_sources keep failures (fresh keep enabled) in
    (1 < 2 → lookup "botkube/kubernetes" s.enabled ≡ none)
    × (occurrences "botkube/kubernetes" s.scheduled ≤ 1)
    × (s.exited ≡ false)
deactivate-supervise_sources_example =
    deactivate-supervise_sources keep enabled failures "botkube/kubernetes" keep-keeps

exits_iff-supervise_sources_example :
    ((supervise_sources end_agent failures (fresh end_agent enabled)).exited ≡ true)
    ↔ ((p : String) × (1 < failures_of p failures))
exits_iff-supervise_sources_example =
    exits_iff-supervise_sources end_agent enabled failures end_agent-ends end_agent-not_keeps

supervise_executors-eq-sources_example :
    supervise_executors keep failures (fresh keep enabled)
    ≡ record (supervise_sources keep failures (fresh keep enabled)) { scheduled = [] }
supervise_executors-eq-sources_example =
    supervise_executors-eq-sources keep failures (fresh keep enabled)
