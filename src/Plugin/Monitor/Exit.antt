-- ===== src/Plugin/Monitor/Exit.antt =====
-- The policy that ends the agent, and the executor loop against the source loop.
use botkube.Base.{
  ◌+◌, ◌<◌, ◌≤◌, String, ◌≡◌, refl, ap, ◌∙◌, ◌↔◌, true, false, List, [], ◌∷◌, arith, ◌==◌, eq_iff,
  eq_refl, if◌then◌else◌, Dict, lookup, leb, Bool-cases, inl, inr,
}
use botkube.Base.Text.{equal_lower}
use botkube.Config.{
  PluginRestartPolicy, keep_agent_running_when_threshold_reached,
  restart_agent_when_threshold_reached,
}
use botkube.Plugin.Health.{get_restart_count, new_health_stats}
use botkube.Plugin.Health.Laws.{restart_count-increment}
use botkube.Plugin.Monitor.{
  EnabledPlugin, Supervisor, Failure, supervise_source, supervise_sources, supervise_executor,
  round_source, round_executor, supervise_executors,
}
use botkube.Plugin.Monitor.Bounds.{failures_of, fresh, stats-supervise_source}

module _ {C : Type 0} (policy : PluginRestartPolicy)
    (ends : equal_lower policy.type restart_agent_when_threshold_reached ≡ true)
    (not_keeps : equal_lower policy.type keep_agent_running_when_threshold_reached ≡ false) where
  exited-step :
      (f : Failure C) (s : Supervisor C)
      → s.exited ≡ false
      → (supervise_source policy f s).exited
        ≡ leb policy.threshold (get_restart_count s.stats f.plugin_key)
  unfolding supervise_source
  exited-step f s r = ground arith

  count-step :
      (f : Failure C) (s : Supervisor C) (p : String)
      → get_restart_count (supervise_source policy f s).stats p ≡ (
          if f.plugin_key == p
          then get_restart_count s.stats p + 1
          else get_restart_count s.stats p)
  count-step f s p =
      rw stats-supervise_source (restart_count-increment f.now f.plugin_key p s.stats)

  exited-stays :
      (fs : List (Failure C)) (s : Supervisor C)
      → s.exited ≡ true
      → (supervise_sources policy fs s).exited ≡ true
  unfolding supervise_sources
  exited-stays [] s e = e
  exited-stays (f ∷ fs) s e = simp e (exited-stays fs s e)

  -- The failures so far, counted into the state, and those to come.
  exits_if :
      (p : String) (fs : List (Failure C)) (s : Supervisor C)
      → s.exited ≡ false
      → get_restart_count s.stats p ≤ policy.threshold
      → policy.threshold < get_restart_count s.stats p + failures_of p fs
      → (supervise_sources policy fs s).exited ≡ true
  unfolding supervise_sources
  exits_if p [] s r c h = absurd (omega arith)
  exits_if p (f ∷ fs) s r c h = elim (Bool-cases (supervise_source policy f s).exited) [
    | inl e ↦ simp r (exited-stays fs (supervise_source policy f s) e)
    | inr e ↦ simp r (
        exits_if p fs (supervise_source policy f s) e
          (ground (arith, count-step f s p, exited-step f s r, eq_iff f.plugin_key p))
          (ground (arith, count-step f s p)))
  ]

  exits_only_if :
      (fs : List (Failure C)) (s : Supervisor C)
      → s.exited ≡ false
      → (supervise_sources policy fs s).exited ≡ true
      → (p : String) × (policy.threshold < get_restart_count s.stats p + failures_of p fs)
  unfolding supervise_sources
  exits_only_if [] s r h = cc
  exits_only_if (f ∷ fs) s r h = elim (Bool-cases (supervise_source policy f s).exited) [
    | inl e ↦ (f.plugin_key, ground (arith, exited-step f s r, eq_refl f.plugin_key))
    | inr e ↦
        let (p, more) = exits_only_if fs (supervise_source policy f s) e (simp r at h) in
        (p, ground (arith, count-step f s p))
  ]

count-fresh :
    {C : Type 0} (policy : PluginRestartPolicy) (enabled : Dict (EnabledPlugin C)) (p : String)
    → get_restart_count (fresh policy enabled).stats p ≡ 0
unfolding get_restart_count new_health_stats lookup
count-fresh policy enabled p = refl

-- Under the policy that restarts the agent (its type is `RestartAgent` up to case, and so not
-- `DeactivatePlugin`), the agent exits exactly when some plugin failed more often than the threshold
-- allows.
pub exits_iff-supervise_sources :
    {C : Type 0} (policy : PluginRestartPolicy) (enabled : Dict (EnabledPlugin C))
    (fs : List (Failure C))
    → equal_lower policy.type restart_agent_when_threshold_reached ≡ true
    → equal_lower policy.type keep_agent_running_when_threshold_reached ≡ false
    → ((supervise_sources policy fs (fresh policy enabled)).exited ≡ true)
      ↔ ((p : String) × (policy.threshold < failures_of p fs))
exits_iff-supervise_sources policy enabled fs ends not_keeps = (
  λ h.
      let (p, more) = exits_only_if policy ends not_keeps fs (fresh policy enabled) refl h in
      (p, omega (arith, count-fresh policy enabled p)),
  λ h.
      exits_if policy ends not_keeps h.0 fs (fresh policy enabled) refl
        (omega (arith, count-fresh policy enabled h.0))
        (omega (arith, h.1, count-fresh policy enabled h.0)),
)

without_schedule : {C : Type 0} → List String → Supervisor C → Supervisor C
without_schedule l s = record s { scheduled = l }

executor-round :
    {C : Type 0} (policy : PluginRestartPolicy) (f : Failure C) (s : Supervisor C) (l : List String)
    → round_executor policy f (without_schedule l s) ≡ without_schedule l (round_source policy f s)
unfolding round_executor round_source supervise_executor supervise_source without_schedule
executor-round policy f s l = ground arith

executors-go :
    {C : Type 0} (policy : PluginRestartPolicy) (fs : List (Failure C)) (s : Supervisor C)
    (l : List String)
    → supervise_executors policy fs (without_schedule l s)
      ≡ without_schedule l (supervise_sources policy fs s)
unfolding supervise_executors supervise_sources
executors-go policy [] s l = refl
executors-go policy (f ∷ fs) s l =
    ap (supervise_executors policy fs) (executor-round policy f s l)
    ∙ executors-go policy fs (round_source policy f s) l

-- The executor supervisor does to its clients, its statistics and the process what the source
-- supervisor does, on the same failures, and tells the scheduler of no restart.
pub supervise_executors-eq-sources :
    {C : Type 0} (policy : PluginRestartPolicy) (fs : List (Failure C)) (s : Supervisor C)
    → supervise_executors policy fs s
      ≡ record (supervise_sources policy fs s) { scheduled = s.scheduled }
unfolding without_schedule
supervise_executors-eq-sources policy fs s = executors-go policy fs s s.scheduled
