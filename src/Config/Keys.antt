-- ===== src/Config/Keys.antt =====
-- pkg/config/plugin.go: plugin keys, and the checks that a plugin is not bound or defined twice in
-- different versions or from different repositories. A report to the validator is its tag with the
-- key; its text is left out.
pub mod RoundTrip
pub mod Agreement
pub mod Conflicts
use botkube.Base.{
  ℕ, String, Bool, true, false, Option, none, some, List, [], ◌∷◌, ◌++◌, ◌==◌, ◌||◌, Dict, lookup,
  insert, if◌then◌else◌,
}
use botkube.Base.Text.{cut, sort}
use botkube.Config.{Plugin, Plugins, Executors}

abbrev pub slash : ℕ
slash = 0x2f

abbrev pub at_sign : ℕ
at_sign = 0x40

-- `before, after, _ := strings.Cut(s, sep)`
abbrev pub cut_or_all : ℕ → String → String × String
cut_or_all sep s = elim (cut sep s) [ none ↦ (s, "") | some parts ↦ parts ]

-- `validatePluginProperties`: whether it returns an error.
unfoldable pub lacks_properties : String → String → Bool
lacks_properties repo plugin = (repo == "") || (plugin == "")

-- Repository, name and version.
unfoldable pub decompose_plugin_key : String → Option (String × String × String)
unfolding lacks_properties
decompose_plugin_key key = elim (cut slash key) [
  | none ↦ none
  | some (repo, rest) ↦
      let (name, ver) = cut_or_all at_sign rest in
      if lacks_properties repo name then none else some (repo, name, ver)
]

unfoldable pub executor_name_for_key : String → String
executor_name_for_key key = elim (cut slash key) [
  | none ↦ key
  | some (prefix, name) ↦ (cut_or_all at_sign name).0
]

-- `Executors.CollectCommandPrefixes`, on the plugins.
unfoldable pub collect_command_prefixes : Plugins → List String
unfolding executor_name_for_key
collect_command_prefixes [] = []
collect_command_prefixes ((plugin_name, p) ∷ plugins) =
    executor_name_for_key plugin_name ∷ collect_command_prefixes plugins

-- `validatePluginEntry`.
pub record PluginEntry : Type 0 where
  pub repo : String
  pub version : String

pub data Report : Type 0 where
  invalid_plugin_definition conflicting_plugin_repo conflicting_plugin_version : String → Report

-- The comparison with the entry that is indexed already.
unfoldable pub compare_entries : String → PluginEntry → PluginEntry → List Report
compare_entries key indexed new_entry =
    if indexed.repo == new_entry.repo
    then (if indexed.version == new_entry.version then [] else conflicting_plugin_version key ∷ [])
    else conflicting_plugin_repo key ∷ []

-- The loop of both checks; `invalid` is what a key that cannot be decomposed is reported as.
unfoldable pub index_keys : (String → List Report) → List String → Dict PluginEntry → List Report
unfolding compare_entries
index_keys invalid [] indexed_by_name = []
index_keys invalid (key ∷ keys) indexed_by_name =
    let unchanged = index_keys invalid keys indexed_by_name in
    elim (decompose_plugin_key key) [
      | none ↦ invalid key ++ unchanged
      | some (repo, name, ver) ↦
          let new_entry : PluginEntry = record { repo = repo; version = ver } in
          let extended = index_keys invalid keys (insert name new_entry indexed_by_name) in
          elim (lookup name indexed_by_name) [
            | none ↦ extended
            | some indexed ↦ compare_entries key indexed new_entry ++ unchanged
          ]
    ]

unfoldable pub validate_bound_plugins : List String → List Report
unfolding index_keys
validate_bound_plugins keys = index_keys (λ key. []) keys []

unfoldable pub enabled_keys : Plugins → List String
enabled_keys [] = []
enabled_keys ((key, plugin) ∷ plugins) =
    let rest = enabled_keys plugins in if plugin.enabled then key ∷ rest else rest

unfoldable pub validate_plugins : Plugins → List Report
unfolding index_keys enabled_keys
validate_plugins plugins =
    index_keys (λ key. invalid_plugin_definition key ∷ []) (sort (enabled_keys plugins)) []
