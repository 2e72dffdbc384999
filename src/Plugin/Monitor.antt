-- ===== src/Plugin/Monitor.antt =====
-- pkg/plugin/health_monitor.go: the two supervisor loops. Each takes a failed plugin from its
-- channel, releases and deletes its client, asks the restart policy, and starts a new client.
-- Starting a client is go-plugin's work: its outcome is a part of the event.
pub mod Bounds
pub mod Exit
use botkube.Base.{
  ℕ, String, Bool, true, false, Option, none, some, List, [], ◌∷◌, ◌++◌, Dict, lookup, insert,
  remove, ltb, leb, if◌then◌else◌,
}
use botkube.Base.Text.{equal_lower}
use botkube.Config.{
  PluginRestartPolicy, keep_agent_running_when_threshold_reached,
  restart_agent_when_threshold_reached,
}
use botkube.Plugin.Health.{HealthStats, increment, get_restart_count}

-- What `shouldRestartPlugin` decides: `log.Fatalf` ends the process.
pub data Verdict : Type 0 where
  restart deactivate exit_agent : Verdict

pub should_restart_plugin :
    PluginRestartPolicy → String → HealthStats → String → HealthStats × Verdict
should_restart_plugin policy now h plugin =
    let restarts = get_restart_count h plugin in
    let h' = increment now plugin h in
    (
      h',
      if equal_lower policy.type keep_agent_running_when_threshold_reached
          then (if ltb restarts policy.threshold then restart else deactivate)
          else if equal_lower policy.type restart_agent_when_threshold_reached
          then (if leb policy.threshold restarts then exit_agent else restart)
          else deactivate,
    )

-- A client of a plugin of type `C`, with the function that releases it (`Cleanup`, nil for `none`).
pub record EnabledPlugin (C : Type 0) : Type 0 where
  pub client : C
  pub cleanup : Bool

-- The state that the source loop reads and writes. `released` lists the keys whose `Cleanup` was
-- called and `scheduled` those sent to the scheduler, the latest last.
pub record Supervisor (C : Type 0) : Type 0 where
  pub enabled : Dict (EnabledPlugin C)
  pub stats : HealthStats
  pub released : List String
  pub scheduled : List String
  pub exited : Bool

-- One failure: the plugin, the time, and what `createGRPCClient` returns if it is called.
pub record Failure (C : Type 0) : Type 0 where
  pub plugin_key : String
  pub now : String
  pub created : Option (EnabledPlugin C)

-- `if source, ok := ...Get(key); ok && source.Cleanup != nil { source.Cleanup() }`
release : {C : Type 0} → String → Supervisor C → Supervisor C
release key s = record s {
  released = elim (lookup key s.enabled) [
    | none ↦ s.released
    | some p ↦ if p.cleanup then s.released ++ key ∷ [] else s.released
  ];
}

-- `EnabledPlugins.Delete(key)`
delete_client : {C : Type 0} → String → Supervisor C → Supervisor C
delete_client key s = record s { enabled = remove key s.enabled }

-- What follows a positive verdict in `monitorSourcePluginHealth`.
start_source : {C : Type 0} → Failure C → Supervisor C → Supervisor C
start_source f s = elim f.created [
  | none ↦ s
  | some p ↦ record s {
    enabled = insert f.plugin_key p s.enabled;
    scheduled = s.scheduled ++ f.plugin_key ∷ [];
  }
]

-- The same in `monitorExecutorPluginHealth`, which tells no scheduler.
start_executor : {C : Type 0} → Failure C → Supervisor C → Supervisor C
start_executor f s = elim f.created [
  | none ↦ s
  | some p ↦ record s { enabled = insert f.plugin_key p s.enabled }
]

-- The `switch` on the verdict: go on, skip the rest of the round, or end the process.
obey : {C : Type 0} → Verdict → Supervisor C → Supervisor C → Supervisor C
obey restart s started = started
obey deactivate s started = s
obey exit_agent s started = record s { exited = true }

module _ {C : Type 0} (policy : PluginRestartPolicy) where
  -- One round of `monitorSourcePluginHealth`.
  pub supervise_source : Failure C → Supervisor C → Supervisor C
  unfolding release delete_client start_source obey should_restart_plugin
  supervise_source f s =
      let s1 = delete_client f.plugin_key (release f.plugin_key s) in
      let (stats', verdict) = should_restart_plugin policy f.now s1.stats f.plugin_key in
      let s2 = record s1 { stats = stats' } in obey verdict s2 (start_source f s2)

  -- One round of `monitorExecutorPluginHealth`.
  pub supervise_executor : Failure C → Supervisor C → Supervisor C
  unfolding release delete_client start_executor obey should_restart_plugin
  supervise_executor f s =
      let s1 = delete_client f.plugin_key (release f.plugin_key s) in
      let (stats', verdict) = should_restart_plugin policy f.now s1.stats f.plugin_key in
      let s2 = record s1 { stats = stats' } in obey verdict s2 (start_executor f s2)

  -- A process that has ended does nothing.
  pub round_source : Failure C → Supervisor C → Supervisor C
  round_source f s = if s.exited then s else supervise_source f s

  pub round_executor : Failure C → Supervisor C → Supervisor C
  round_executor f s = if s.exited then s else supervise_executor f s

  -- The loops, over the failures in the order of the channel.
  pub supervise_sources : List (Failure C) → Supervisor C → Supervisor C
  unfolding round_source
  supervise_sources [] s = s
  supervise_sources (f ∷ fs) s = supervise_sources fs (round_source f s)

  pub supervise_executors : List (Failure C) → Supervisor C → Supervisor C
  supervise_executors [] s = s
  supervise_executors (f ∷ fs) s = supervise_executors fs (round_executor f s)
