-- ===== src/Reload.antt =====
-- internal/config/reloader/remote.go: the loop that polls the configuration of a deployment. The
-- answers of the service, the loader of a configuration, the comparison of two configurations and
-- the outcome of the restart are parameters or parts of an event.
pub mod Versions
pub mod Runs
pub mod InCluster
pub mod Tests
use botkube.Base.{
  ℕ, suc, String, Bool, true, false, Option, none, some, List, [], ◌∷◌, map, ltb, nat_eq,
  if◌then◌else◌,
}

-- What `GetConfigWithResourceVersion` answers.
pub record Deployment : Type 0 where
  pub yaml_config : String
  pub resource_version : ℕ

-- What `config.LoadWithDefaults` returns: an error, a nil pointer, or a configuration.
pub data Loaded (C : Type 0) : Type 0 where
  load_error nil_config : Loaded C
  config : C → Loaded C

-- `configDiff`, or the error that stands for it.
pub data Processed : Type 0 where
  process_error : Processed
  config_diff : (should_restart : Bool) → Processed

-- The reloader: `holders` has the version that each `ResourceVersionHolder` was told last, and
-- `restarts` counts the calls of `restarter.Do`.
pub record RemoteConfigReloader (C : Type 0) : Type 0 where
  pub current_cfg : C
  pub res_version : ℕ
  pub res_ver_holders : List ℕ
  pub restarts : ℕ

-- What one tick meets: both queries, `none` for an error, and whether a restart succeeds.
pub record Answers : Type 0 where
  pub version : Option ℕ
  pub deployment : Option Deployment
  pub restarted : Bool

-- What the `select` of the loop takes.
pub data Signal : Type 0 where
  tick : Answers → Signal
  done : Signal

-- The loop goes on, or `Do` has returned nil or the error of a restart.
pub data Outcome : Type 0 where
  polling returned restart_failed : Outcome

-- What `compareResVer` finds: an error, false, or true.
pub data Compared : Type 0 where
  current_is_newer same_version should_update : Compared

-- `compareResVer`
unfoldable pub compare_res_ver : {C : Type 0} → ℕ → RemoteConfigReloader C → Compared
compare_res_ver new u =
    if nat_eq new u.res_version
    then same_version
    else if ltb new u.res_version
    then current_is_newer
    else should_update

-- `setResourceVersionForAll`
unfoldable pub set_resource_version_for_all :
    {C : Type 0} → ℕ → RemoteConfigReloader C → RemoteConfigReloader C
set_resource_version_for_all version u = record u {
  res_version = version;
  res_ver_holders = map (λ _. version) u.res_ver_holders;
}

-- `yaml.Unmarshal` (whether it succeeds), `config.LoadWithDefaults` and `diff.Diff` (the paths of the
-- changes, `none` for an error).
module _ {C : Type 0} (unmarshals : String → Bool) (load_with_defaults : String → Loaded C)
    (diff : C → C → Option (List String)) where
  -- `queryConfig`
  unfoldable pub query_config : Answers → Option Deployment
  query_config a = elim a.deployment [
    | none ↦ none
    | some d ↦ if unmarshals d.yaml_config then some d else none
  ]

  -- `processNewConfig`, once the configuration is loaded.
  unfoldable pub compare_configs : RemoteConfigReloader C → C → RemoteConfigReloader C × Processed
  compare_configs u new = elim (diff u.current_cfg new) [
    | none ↦ (u, process_error)
    | some changelog ↦ elim changelog [
      | [] ↦ (u, config_diff false)
      | _ ∷ _ ↦ (record u { current_cfg = new }, config_diff true)
    ]
  ]

  unfoldable pub load_config : RemoteConfigReloader C → String → RemoteConfigReloader C × Processed
  unfolding compare_configs
  load_config u yaml = elim (load_with_defaults yaml) [
    | load_error ↦ (u, process_error)
    | nil_config ↦ (u, process_error)
    | config new ↦ compare_configs u new
  ]

  -- `processNewConfig`
  unfoldable pub process_new_config :
      Deployment → RemoteConfigReloader C → RemoteConfigReloader C × Processed
  unfolding compare_res_ver set_resource_version_for_all load_config
  process_new_config d u = elim (compare_res_ver d.resource_version u) [
    | current_is_newer ↦ (u, process_error)
    | same_version ↦ (u, config_diff false)
    | should_update ↦ load_config (set_resource_version_for_all d.resource_version u) d.yaml_config
  ]

  -- What follows `processNewConfig` in the loop.
  unfoldable pub restart_if :
      Bool → RemoteConfigReloader C × Processed → RemoteConfigReloader C × Outcome
  restart_if restarted (u, process_error) = (u, polling)
  restart_if restarted (u, config_diff false) = (u, polling)
  restart_if restarted (u, config_diff true) =
      (record u { restarts = suc u.restarts }, if restarted then polling else restart_failed)

  -- The body of `case <-ticker.C`.
  unfoldable pub poll : Answers → RemoteConfigReloader C → RemoteConfigReloader C × Outcome
  unfolding query_config process_new_config restart_if
  poll a u = elim a.version [
    | none ↦ (u, polling)
    | some version ↦ elim (compare_res_ver version u) [
      | current_is_newer ↦ (u, polling)
      | same_version ↦ (u, polling)
      | should_update ↦ elim (query_config a) [
        | none ↦ (u, polling)
        | some d ↦ restart_if a.restarted (process_new_config d u)
      ]
    ]
  ]

  -- One round of the loop; a loop that has returned does nothing.
  unfoldable pub take : Signal → RemoteConfigReloader C × Outcome → RemoteConfigReloader C × Outcome
  unfolding poll
  take (tick a) (u, polling) = poll a u
  take done (u, polling) = (u, returned)
  take signal (u, returned) = (u, returned)
  take signal (u, restart_failed) = (u, restart_failed)

  -- `Do`, over the signals in their order.
  unfoldable pub do_loop :
      List Signal → RemoteConfigReloader C × Outcome → RemoteConfigReloader C × Outcome
  do_loop [] s = s
  do_loop (signal ∷ signals) s = do_loop signals (take signal s)
