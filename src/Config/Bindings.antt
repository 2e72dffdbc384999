-- ===== src/Config/Bindings.antt =====
-- The binding checks of pkg/config/validator.go: `validateSourceBindings`, `validateExecutorBindings`
-- and `validateActionExecutors`. A report is its tag with the names it is about; its text is left out.
pub mod Bound
pub mod Reports
use botkube.Base.{
  String, Bool, true, false, Option, none, some, List, [], ◌∷◌, ◌++◌, ◌==◌, ◌&&◌, Dict, lookup,
  if◌then◌else◌,
}
use botkube.Config.{
  Plugin, Plugins, PolicyRule, Executors, Sources, channel_name_policy_subject_type,
}
use botkube.Config.Keys.{Report, enabled_keys, validate_bound_plugins}

pub data BindingReport : Type 0 where
  invalid_binding : String → BindingReport
  conflicting_plugin : Report → BindingReport
  invalid_action_rbac : String → String → BindingReport

-- `pluginConfigs[name].GetPlugins()`, none for a missing key.
unfoldable pub plugins_of : {T : Type 0} → (T → Plugins) → Dict T → String → Plugins
plugins_of get configs name = elim (lookup name configs) [ none ↦ [] | some c ↦ get c ]

-- The loop over the bindings: the reports of names that are not defined, and the enabled plugins.
unfoldable pub missing_bindings : {T : Type 0} → Dict T → List String → List BindingReport
missing_bindings configs [] = []
missing_bindings configs (name ∷ names) =
    let rest = missing_bindings configs names in
    elim (lookup name configs) [ none ↦ invalid_binding name ∷ rest | some c ↦ rest ]

unfoldable pub enabled_via_bindings :
    {T : Type 0} → (T → Plugins) → Dict T → List String → List String
unfolding plugins_of
enabled_via_bindings get configs [] = []
enabled_via_bindings get configs (name ∷ names) =
    enabled_keys (plugins_of get configs name) ++ enabled_via_bindings get configs names

abbrev pub as_conflicts : List Report → List BindingReport
as_conflicts [] = []
as_conflicts (r ∷ reports) = conflicting_plugin r ∷ as_conflicts reports

-- Both `validateSourceBindings` and `validateExecutorBindings`, up to the comparison of the policies.
unfoldable pub validate_bindings :
    {T : Type 0} → (T → Plugins) → Dict T → List String → List BindingReport
unfolding missing_bindings enabled_via_bindings
validate_bindings get configs bindings =
    missing_bindings configs bindings
    ++ as_conflicts (validate_bound_plugins (enabled_via_bindings get configs bindings))

-- The group subject of the policy is the channel's name.
abbrev pub by_channel_name : Option PolicyRule → Bool
by_channel_name none = false
by_channel_name (some rbac) = rbac.group.type == channel_name_policy_subject_type

unfoldable pub action_plugins : String → Plugins → List BindingReport
action_plugins executor [] = []
action_plugins executor ((key, plugin) ∷ plugins) =
    let rest = action_plugins executor plugins in
    if plugin.enabled && by_channel_name plugin.context.rbac
    then invalid_action_rbac key executor ∷ rest
    else rest

abbrev pub executors_plugins : Executors → Plugins
executors_plugins e = e.plugins

unfoldable pub validate_action_executors : Dict Executors → List String → List BindingReport
unfolding action_plugins plugins_of
validate_action_executors executors [] = []
validate_action_executors executors (executor ∷ bindings) =
    action_plugins executor (plugins_of executors_plugins executors executor)
    ++ validate_action_executors executors bindings
