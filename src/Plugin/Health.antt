-- ===== src/Plugin/Health.antt =====
-- pkg/plugin/health_stats.go: how often each plugin was restarted. The mutex makes every method
-- atomic, so a method is a function on the state. `time.Now().Format(time.RFC3339)` is an argument.
pub mod Laws
use botkube.Base.{
  ℕ, ◌+◌, String, Bool, true, false, Option, none, some, Dict, lookup, insert, has, ltb,
  if◌then◌else◌, get_or_zero, List, [],
}

pub record PluginStats : Type 0 where
  pub restart_count : ℕ
  pub restart_threshold : ℕ
  pub last_transition_time : String

pub record HealthStats : Type 0 where
  pub plugin_stats : Dict PluginStats
  pub global_restart_threshold : ℕ

-- `pluginStats{}`
abbrev pub zero_stats : PluginStats
zero_stats = record { restart_count = 0; restart_threshold = 0; last_transition_time = "" }

abbrev pub plugin_running : String
plugin_running = "Running"

abbrev pub plugin_deactivated : String
plugin_deactivated = "Deactivated"

unfoldable pub new_health_stats : ℕ → HealthStats
new_health_stats threshold = record { plugin_stats = []; global_restart_threshold = threshold }

-- The zero entry is written first for a plugin that has none, then read back.
unfoldable pub increment : String → String → HealthStats → HealthStats
increment now plugin h =
    let m =
      if has plugin h.plugin_stats
      then h.plugin_stats
      else insert plugin zero_stats h.plugin_stats in
    record h {
      plugin_stats =
          insert plugin
            (record {
              restart_count = (get_or_zero zero_stats plugin m).restart_count + 1;
              restart_threshold = h.global_restart_threshold;
              last_transition_time = now;
            })
            m;
    }

unfoldable pub get_restart_count : HealthStats → String → ℕ
get_restart_count h plugin = elim (lookup plugin h.plugin_stats) [
  | none ↦ 0
  | some s ↦ s.restart_count
]

-- The four named results of `GetStats`.
pub record Stats : Type 0 where
  pub status : String
  pub restarts : ℕ
  pub threshold : ℕ
  pub timestamp : String

unfoldable pub get_stats : HealthStats → String → Stats
get_stats h plugin = elim (lookup plugin h.plugin_stats) [
  | none ↦ record {
    status = plugin_running;
    restarts = 0;
    threshold = h.global_restart_threshold;
    timestamp = "";
  }
  | some s ↦ record {
    status = if ltb s.restart_threshold s.restart_count then plugin_deactivated else plugin_running;
    restarts = s.restart_count;
    threshold = s.restart_threshold;
    timestamp = s.last_transition_time;
  }
]
