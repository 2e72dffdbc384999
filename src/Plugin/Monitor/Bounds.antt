-- ===== src/Plugin/Monitor/Bounds.antt =====
-- How far the supervisors of health_monitor.go go: restarts against the threshold of the policy.
use botkube.Base.{
  ℕ, suc, ◌+◌, ◌<◌, ◌≤◌, String, ◌≡◌, refl, true, false, none, List, [], ◌∷◌, ◌++◌, arith, ◌==◌,
  eq_iff, if◌then◌else◌, Dict, lookup, lookup-insert, lookup-remove, ltb,
}
use mathlib.Core.Path.{subst}
use botkube.Base.Text.{equal_lower}
use botkube.Config.{PluginRestartPolicy, keep_agent_running_when_threshold_reached}
use botkube.Plugin.Health.{
  increment, get_restart_count, get_stats, new_health_stats, plugin_deactivated, plugin_running,
}
use botkube.Plugin.Health.Laws.{
  restart_count-increment, threshold-increment, HasEntry, HasEntry-increment, get_stats_lem,
}
use botkube.Plugin.Monitor.{EnabledPlugin, Supervisor, Failure, supervise_source, supervise_sources}

-- How often a key stands in a list.
abbrev pub occurrences : String → List String → ℕ
occurrences p [] = 0
occurrences p (q ∷ l) = let rest = occurrences p l in if q == p then suc rest else rest

abbrev pub failures_of : {C : Type 0} → String → List (Failure C) → ℕ
failures_of p [] = 0
failures_of p (f ∷ fs) = let rest = failures_of p fs in if f.plugin_key == p then suc rest else rest

occurrences-append :
    (p q : String) (l : List String)
    → occurrences p (l ++ q ∷ []) ≡ (if q == p then occurrences p l + 1 else occurrences p l)
occurrences-append p q [] = ground arith
occurrences-append p q (r ∷ l) = ground (arith, occurrences-append p q l)

-- Where the supervisor stands after `n` failures of `p`, under a policy that keeps the agent.
pub record Inv {C : Type 0} (p : String) (t n : ℕ) (s : Supervisor C) : Type 0 where
  running : s.exited ≡ false
  threshold : s.stats.global_restart_threshold ≡ t
  counted : get_restart_count s.stats p ≡ n
  entry : HasEntry (lookup p s.stats.plugin_stats) t
  scheduled : occurrences p s.scheduled ≤ n
  capped : occurrences p s.scheduled ≤ t
  disabled : t < n → lookup p s.enabled ≡ none

-- Every verdict leaves the statistics that `Increment` wrote.
pub stats-supervise_source :
    {C : Type 0} (policy : PluginRestartPolicy) (f : Failure C) (s : Supervisor C)
    → (supervise_source policy f s).stats ≡ increment f.now f.plugin_key s.stats
unfolding supervise_source
stats-supervise_source policy f s = ground arith

module _ {C : Type 0} (policy : PluginRestartPolicy)
    (keeps : equal_lower policy.type keep_agent_running_when_threshold_reached ≡ true) where
  step-Inv :
      (p : String) (n : ℕ) (f : Failure C) (s : Supervisor C)
      → Inv p policy.threshold n s
      → Inv p policy.threshold
          (if f.plugin_key == p then suc n else n)
          (supervise_source policy f s)
  unfolding supervise_source
  step-Inv p n f s i = record {
    running = ground arith;
    threshold = ground (arith, threshold-increment f.now f.plugin_key s.stats);
    counted = ground (arith, restart_count-increment f.now f.plugin_key p s.stats);
    entry =
        rw stats-supervise_source
          (HasEntry-increment f.now f.plugin_key p policy.threshold s.stats i.threshold i.entry);
    scheduled = ground (arith, occurrences-append p f.plugin_key s.scheduled);
    capped = ground (arith, occurrences-append p f.plugin_key s.scheduled, eq_iff f.plugin_key p);
    disabled = λ h.
        grind (arith, lookup-insert, lookup-remove f.plugin_key p s.enabled, eq_iff f.plugin_key p);
  }

  loop-Inv :
      (p : String) (n : ℕ) (fs : List (Failure C)) (s : Supervisor C)
      → Inv p policy.threshold n s
      → Inv p policy.threshold (n + failures_of p fs) (supervise_sources policy fs s)
  unfolding supervise_sources
  loop-Inv p n [] s i = subst (λ k. Inv p policy.threshold k s) (omega arith) i
  loop-Inv p n (f ∷ fs) s i = simp i.running (
      subst
        (λ k. Inv p policy.threshold k (supervise_sources policy fs (supervise_source policy f s)))
        (ground arith)
        (loop-Inv p (if f.plugin_key == p then suc n else n) fs (supervise_source policy f s)
          (step-Inv p n f s i)))

-- A supervisor that has seen no failure, with the clients that the manager started.
abbrev pub fresh : {C : Type 0} → PluginRestartPolicy → Dict (EnabledPlugin C) → Supervisor C
fresh policy enabled = record {
  enabled = enabled;
  stats = new_health_stats policy.threshold;
  released = [];
  scheduled = [];
  exited = false;
}

module _ {C : Type 0} (policy : PluginRestartPolicy) (enabled : Dict (EnabledPlugin C))
    (fs : List (Failure C)) (p : String)
    (keeps : equal_lower policy.type keep_agent_running_when_threshold_reached ≡ true) where
  fresh-Inv : Inv p policy.threshold 0 (fresh policy enabled)
  unfolding get_restart_count new_health_stats lookup
  fresh-Inv = record {
    running = refl;
    threshold = refl;
    counted = refl;
    entry = tt;
    scheduled = omega arith;
    capped = omega arith;
    disabled = λ h. absurd (omega arith);
  }

  end-Inv :
      Inv p policy.threshold (failures_of p fs) (supervise_sources policy fs (fresh policy enabled))
  end-Inv =
      subst (λ k. Inv p policy.threshold k (supervise_sources policy fs (fresh policy enabled)))
        (omega arith) (loop-Inv policy keeps p 0 fs (fresh policy enabled) fresh-Inv)

  -- Under the policy that keeps the agent running (its type is `DeactivatePlugin` up to case), on any
  -- failures after the start, `GetStats` reports every failure of the plugin as a restart, the
  -- threshold of the policy, and `Deactivated` exactly when there were more failures than the
  -- threshold allows.
  pub status-supervise_sources :
      let stats = get_stats (supervise_sources policy fs (fresh policy enabled)).stats p in
      (stats.restarts ≡ failures_of p fs)
      × (stats.threshold ≡ policy.threshold)
      × (stats.status ≡ (
          if ltb policy.threshold (failures_of p fs) then plugin_deactivated else plugin_running))
  status-supervise_sources =
      let h = (supervise_sources policy fs (fresh policy enabled)).stats in
      ground (
        arith,
        get_stats_lem h p (rw end-Inv.threshold end-Inv.entry),
        end-Inv.counted,
        end-Inv.threshold,
      )

  -- Under the policy that keeps the agent running (the type is `DeactivatePlugin` up to case), on any failures after the start, a
  -- plugin that failed more often than the threshold allows has no client left, the scheduler was
  -- told of no more restarts of a plugin than the threshold, and the agent runs.
  pub deactivate-supervise_sources :
      let s = supervise_sources policy fs (fresh policy enabled) in
      (policy.threshold < failures_of p fs → lookup p s.enabled ≡ none)
      × (occurrences p s.scheduled ≤ policy.threshold)
      × (s.exited ≡ false)
  deactivate-supervise_sources = (end-Inv.disabled, end-Inv.capped, end-Inv.running)
