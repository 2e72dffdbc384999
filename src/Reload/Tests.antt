-- ===== src/Reload/Tests.antt =====
-- A reloader at version 3 that meets a deployment of version 5, and then the end of the agent.
use botkube.Base.{
  ◌≤◌, String, ◌≡◌, ◌≢◌, refl, ◌↔◌, inl, inr, Bool, true, false, Option, some, List, [], ◌∷◌, ◌==◌,
  if◌then◌else◌, lookup,
}
use botkube.Reload.{
  Loaded, load_error, config, RemoteConfigReloader, Answers, poll, do_loop, Signal, tick, done,
  polling, returned,
}
use botkube.Reload.Versions.{Restarts, restarts_iff-poll, poll-poll}
use botkube.Reload.Runs.{
  HoldersAgree, Reach, Loads, Differ, view, do_loop-Reach, do_loop-HoldersAgree, do_loop-returned,
}
use botkube.Reload.InCluster.{
  Unstructured, on_add, on_update, on_delete, restart_iff, label_key, label_value,
}

abbrev is_yaml : String → Bool
is_yaml text = true

-- A configuration is its text; the text "broken" does not load.
abbrev load : String → Loaded String
load text = if text == "broken" then load_error else config text

abbrev changes : String → String → Option (List String)
changes old new = some (if old == new then [] else "settings.clusterName" ∷ [])

abbrev reloader : RemoteConfigReloader String
reloader = record {
  current_cfg = "old";
  res_version = 3;
  res_ver_holders = 3 ∷ 3 ∷ [];
  restarts = 0;
}

abbrev newer : Answers
newer = record {
  version = some 4;
  deployment = some (record { yaml_config = "new"; resource_version = 5 });
  restarted = true;
}

abbrev broken : Answers
broken = record {
  version = some 6;
  deployment = some (record { yaml_config = "broken"; resource_version = 6 });
  restarted = true;
}

abbrev signals : List Signal
signals = tick newer ∷ tick broken ∷ done ∷ []

restarts_iff-poll_example :
    let after = (poll is_yaml load changes newer reloader).0 in
    ((after.restarts ≡ 1) ↔ ((new : String) × Restarts is_yaml load changes newer reloader new))
    × ((new : String) → Restarts is_yaml load changes newer reloader new → after.current_cfg ≡ new)
    × (after.restarts ≢ 1 → (after.restarts ≡ 0) × (after.current_cfg ≡ "old"))
restarts_iff-poll_example = restarts_iff-poll is_yaml load changes newer reloader

poll-poll_example :
    (poll is_yaml load changes broken (poll is_yaml load changes broken reloader).0).0
    ≡ (poll is_yaml load changes broken reloader).0
poll-poll_example = poll-poll is_yaml load changes broken reloader

-- The broken configuration takes its version all the same.
broken_is_skipped :
    (poll is_yaml load changes broken reloader).0
    ≡ record reloader { res_version = 6; res_ver_holders = 6 ∷ 6 ∷ [] }
unfolding poll
broken_is_skipped = refl

do_loop-Reach_example :
    Reach
      (Loads is_yaml load changes)
      (Differ is_yaml load changes)
      (view (do_loop is_yaml load changes signals (reloader, polling)).0)
      (view reloader)
do_loop-Reach_example = do_loop-Reach is_yaml load changes signals (reloader, polling)

do_loop-HoldersAgree_example :
    let after = (do_loop is_yaml load changes signals (reloader, polling)).0 in
    HoldersAgree after × (3 ≤ after.res_version)
do_loop-HoldersAgree_example =
    do_loop-HoldersAgree is_yaml load changes signals (reloader, polling) (refl, (refl, tt))

do_loop-returned_example : (do_loop is_yaml load changes signals (reloader, polling)).1 ≡ returned
do_loop-returned_example =
    do_loop-returned is_yaml load changes signals reloader (refl, (refl, (tt, tt)))
      (inr (inr (inl refl)))

abbrev config_map : String → String → Unstructured String
config_map version text = record {
  labels = ("botkube.io/config-watch", "true") ∷ [];
  resource_version = version;
  data_field = text;
}

restart_iff_example :
    let old = config_map "1" "a" in
    let new = config_map "2" "b" in
    ((on_add (λ a b. a == b) (some new) false ≡ true)
      ↔ ((false ≡ false) × (lookup label_key new.labels ≡ some label_value)))
    × ((on_update (λ a b. a == b) (some old) (some new) ≡ true)
        ↔ ((old.resource_version ≢ new.resource_version) × (("a" == "b") ≡ false)))
    × (on_delete (λ a b. a == b) (some new) ≡ true)
restart_iff_example = restart_iff (λ a b. a == b) (config_map "1" "a") (config_map "2" "b") false
