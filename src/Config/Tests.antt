-- ===== src/Config/Tests.antt =====
-- Plugin keys at a version, and two keys of one plugin in different versions.
use Prim.Native.String.{◌++◌ as ◌+++◌}
use botkube.Base.{String, ◌≡◌, refl, ◌↔◌, ◌≢◌, true, none, some, List, [], ◌∷◌, In, insert, lookup}
use botkube.Base.Text.{cut}
use botkube.Config.{Plugin, Plugins}
use botkube.Config.Keys.{
  decompose_plugin_key, executor_name_for_key, conflicting_plugin_version, validate_bound_plugins,
  validate_plugins, enabled_keys, compare_entries,
}
use botkube.Base.{Dict}
use botkube.Config.{Executors}
use botkube.Config.Bindings.{
  executors_plugins, validate_bindings, validate_action_executors, invalid_binding,
  conflicting_plugin, invalid_action_rbac,
}
use botkube.Config.Bindings.Reports.{
  Defined, BoundKeysAgree, Offends, validate_bindings_iff, validate_action_executors_iff,
}
use botkube.Config.Keys.Agreement.{Agree}
use botkube.Config.Keys.RoundTrip.{decompose_round_trip}
use botkube.Config.Keys.Conflicts.{validate_bound_plugins_iff, validate_plugins_iff}

abbrev two_versions : List String
two_versions = "botkube/kubectl@v1" ∷ "botkube/kubectl" ∷ []

abbrev one_plugin : Plugins
one_plugin =
    ("botkube/helm", record { enabled = true; config = none; context = record { rbac = none } })
    ∷ []

-- A key with a version conflicts with one without.
two_versions-conflict :
    validate_bound_plugins two_versions ≡ conflicting_plugin_version "botkube/kubectl" ∷ []
unfolding validate_bound_plugins decompose_plugin_key cut lookup insert compare_entries
two_versions-conflict = refl

decompose_round_trip_example :
    let key = "botkube" +++ String.◌∷◌ "/" ("helm" +++ String.◌∷◌ "@" "v1.0.0") in
    (decompose_plugin_key key ≡ some ("botkube", "helm", "v1.0.0"))
    × (executor_name_for_key key ≡ "helm")
decompose_round_trip_example =
    decompose_round_trip "botkube" "helm" "v1.0.0" (λ e. cc) (λ e. cc) refl refl

validate_bound_plugins_iff_example : (validate_bound_plugins two_versions ≡ []) ↔ Agree two_versions
validate_bound_plugins_iff_example = validate_bound_plugins_iff two_versions

validate_plugins_iff_example : (validate_plugins one_plugin ≡ []) ↔ (
    ((key : String) → In key (enabled_keys one_plugin) → decompose_plugin_key key ≢ none)
    × Agree (enabled_keys one_plugin))
validate_plugins_iff_example = validate_plugins_iff one_plugin

-- The channel's name is the policy's group subject.
abbrev by_channel : Plugin
by_channel = record {
  enabled = true;
  config = none;
  context = record {
    rbac = some (record {
      user = record { type = ""; static_value = ""; prefix = "" };
      group = record { type = "ChannelName"; static_values = []; prefix = "" };
    });
  };
}

abbrev groups : Dict Executors
groups =
    ("tools", record { display_name = "Tools"; plugins = one_plugin })
    ∷ ("old", record { display_name = "Old"; plugins = ("botkube/helm@v1", by_channel) ∷ [] })
    ∷ []

-- A name that is not defined is reported.
gone-reported :
    validate_bindings executors_plugins groups ("tools" ∷ "gone" ∷ []) ≡ invalid_binding "gone" ∷ []
unfolding validate_bindings lookup decompose_plugin_key cut insert validate_bound_plugins
    enabled_keys
gone-reported = refl

-- So are two groups with different versions of a plugin.
versions-reported :
    validate_bindings executors_plugins groups ("tools" ∷ "old" ∷ [])
    ≡ conflicting_plugin (conflicting_plugin_version "botkube/helm@v1") ∷ []
unfolding validate_bindings lookup decompose_plugin_key cut insert validate_bound_plugins
    enabled_keys compare_entries
versions-reported = refl

validate_bindings_iff_example :
    (validate_bindings executors_plugins groups ("tools" ∷ "old" ∷ []) ≡ []) ↔ (
      Defined groups ("tools" ∷ "old" ∷ [])
      × BoundKeysAgree executors_plugins groups ("tools" ∷ "old" ∷ []))
validate_bindings_iff_example =
    validate_bindings_iff executors_plugins groups ("tools" ∷ "old" ∷ [])

channel-reported :
    validate_action_executors groups ("tools" ∷ "old" ∷ [])
    ≡ invalid_action_rbac "botkube/helm@v1" "old" ∷ []
unfolding validate_action_executors lookup
channel-reported = refl

validate_action_executors_iff_example :
    In
      (invalid_action_rbac "botkube/helm@v1" "old")
      (validate_action_executors groups ("tools" ∷ "old" ∷ []))
    ↔ (In {A = String} "old" ("tools" ∷ "old" ∷ [])
        × ((group : Executors) × (lookup "old" groups ≡ some group)
            × Offends "botkube/helm@v1" group.plugins))
validate_action_executors_iff_example =
    validate_action_executors_iff groups ("tools" ∷ "old" ∷ []) "botkube/helm@v1" "old"
