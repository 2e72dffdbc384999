-- ===== src/Plugin/Health/Laws.antt =====
-- What `Increment` changes, for the plugin that it names and for every other one.
use botkube.Base.{
  ℕ, ◌+◌, ◌<◌, String, ◌≡◌, refl, Option, none, some, arith, ◌==◌, eq_iff, eq_refl, if◌then◌else◌,
  lookup, lookup-insert, ltb, Bool, true, false,
}
use botkube.Plugin.Health.{
  PluginStats, HealthStats, plugin_running, plugin_deactivated, increment, get_restart_count,
  get_stats,
}

abbrev bumped : String → String → HealthStats → PluginStats
bumped now q h = record {
  restart_count = get_restart_count h q + 1;
  restart_threshold = h.global_restart_threshold;
  last_transition_time = now;
}

lookup-increment :
    (now q p : String) (h : HealthStats)
    → lookup p (increment now q h).plugin_stats
      ≡ (if q == p then some (bumped now q h) else lookup p h.plugin_stats)
unfolding increment get_restart_count
lookup-increment now q p h = grind (arith, lookup-insert, eq_refl, eq_iff)

pub restart_count-increment :
    (now q p : String) (h : HealthStats)
    → get_restart_count (increment now q h) p
      ≡ (if q == p then get_restart_count h p + 1 else get_restart_count h p)
unfolding get_restart_count
restart_count-increment now q p h = ground (arith, lookup-increment now q p h, eq_iff q p)

pub threshold-increment :
    (now q : String) (h : HealthStats)
    → (increment now q h).global_restart_threshold ≡ h.global_restart_threshold
unfolding increment
threshold-increment now q h = refl

-- The entry of `p`, where there is one, has the threshold `t` and at least one restart.
abbrev pub HasEntry : Option PluginStats → ℕ → Type 0
HasEntry none t = Unit
HasEntry (some s) t = (s.restart_threshold ≡ t) × (0 < s.restart_count)

pub HasEntry-increment :
    (now q p : String) (t : ℕ) (h : HealthStats)
    → h.global_restart_threshold ≡ t
    → HasEntry (lookup p h.plugin_stats) t
    → HasEntry (lookup p (increment now q h).plugin_stats) t
HasEntry-increment now q p t h e i = rw lookup-increment (go (q == p))
  where
    go : (b : Bool) → HasEntry (if b then some (bumped now q h) else lookup p h.plugin_stats) t
    go true = (e, omega arith)
    go false = i

-- What `GetStats` reports is a function of the restart count and the threshold.
pub get_stats_lem :
    (h : HealthStats) (p : String)
    → HasEntry (lookup p h.plugin_stats) h.global_restart_threshold
    → ((get_stats h p).restarts ≡ get_restart_count h p)
      × ((get_stats h p).threshold ≡ h.global_restart_threshold)
      × ((get_stats h p).status ≡ (
          if ltb h.global_restart_threshold (get_restart_count h p)
          then plugin_deactivated
          else plugin_running))
unfolding get_stats get_restart_count
get_stats_lem h p i = ground arith
