-- ===== src/Execute/Listing.antt =====
-- pkg/execute/exec.go and source.go: the rows of the tables that `list executors` and `list sources`
-- print; and pkg/execute/alias/list.go.
pub mod Enabled
use Prim.Native.String.{◌++◌ as ◌+++◌}
use botkube.Base.{
  String, Bool, true, false, Option, none, some, List, [], ◌∷◌, map, ◌==◌, Dict, lookup, insert,
  get_or_zero, keys, if◌then◌else◌,
}
use botkube.Base.Text.{sort}
use botkube.Config.{Plugin, Plugins, Sources, Executors, Alias}
use botkube.Config.Keys.{executor_name_for_key}
use botkube.Execute.Alias.{strip_prefix}
use botkube.Plugin.Health.{HealthStats, Stats, get_stats}

-- An enabled plugin stays marked as enabled.
abbrev pub mark_executor : String → Plugin → Dict Bool → Dict Bool
mark_executor name plugin out =
    if get_or_zero false name out then out else insert name plugin.enabled out

abbrev pub mark_executors : Plugins → Dict Bool → Dict Bool
mark_executors [] out = out
mark_executors ((name, plugin) ∷ plugins) out =
    mark_executors plugins (mark_executor name plugin out)

abbrev pub mark_executor_groups : Dict Executors → List String → Dict Bool → Dict Bool
mark_executor_groups executors [] out = out
mark_executor_groups executors (b ∷ bindings) out =
    mark_executor_groups executors bindings (elim (lookup b executors) [
      | none ↦ out
      | some executor ↦ mark_executors executor.plugins out
    ])

unfoldable pub executors_for_bindings : Dict Executors → List String → Dict Bool
executors_for_bindings executors bindings = mark_executor_groups executors bindings []

-- A plugin is as enabled as in the last group that has it.
abbrev pub mark_sources : Plugins → Dict Bool → Dict Bool
mark_sources [] out = out
mark_sources ((name, plugin) ∷ plugins) out = mark_sources plugins (insert name plugin.enabled out)

abbrev pub mark_source_groups : Dict Sources → List String → Dict Bool → Dict Bool
mark_source_groups sources [] out = out
mark_source_groups sources (b ∷ bindings) out =
    mark_source_groups sources bindings
      (elim (lookup b sources) [ none ↦ out | some s ↦ mark_sources s.plugins out ])

unfoldable pub sources_for_bindings : Dict Sources → List String → Dict Bool
sources_for_bindings sources bindings = mark_source_groups sources bindings []

-- `listForExecutorWithFn`, before it sorts.
abbrev found_aliases : (Alias → Bool) → Dict Alias → List String
found_aliases should_include_item [] = []
found_aliases should_include_item ((alias_prefix, alias_cfg) ∷ aliases) =
    let found = found_aliases should_include_item aliases in
    if should_include_item alias_cfg then alias_prefix ∷ found else found

unfoldable pub list_for_executor_with_fn :
    String → Dict Alias → (Alias → String → Bool) → List String
list_for_executor_with_fn raw_name aliases should_include_item =
    let executor_name = executor_name_for_key raw_name in
    sort (found_aliases (λ cfg. should_include_item cfg executor_name) aliases)

abbrev pub list_exact_for_executor : String → Dict Alias → List String
list_exact_for_executor raw_name aliases =
    list_for_executor_with_fn raw_name aliases (λ cfg executor_name. executor_name == cfg.command)

-- Whether a command is the executor's name, alone or with arguments.
abbrev pub is_for_executor : Alias → String → Bool
is_for_executor cfg executor_name = elim (strip_prefix executor_name cfg.command) [
  | none ↦ false
  | some rest ↦
      if rest == ""
      then true
      else elim (strip_prefix (executor_name +++ " ") cfg.command) [ none ↦ false | some _ ↦ true ]
]

abbrev pub list_for_executor_prefix : String → Dict Alias → List String
list_for_executor_prefix raw_name aliases =
    list_for_executor_with_fn raw_name aliases is_for_executor

-- The rows of the tables of executors and of sources.
pub record ExecutorRow : Type 0 where
  pub name : String
  pub enabled : Bool
  pub aliases : List String
  pub stats : Stats

pub record SourceRow : Type 0 where
  pub name : String
  pub enabled : Bool
  pub stats : Stats

unfoldable pub executor_rows :
    Dict Executors → Dict Alias → List String → HealthStats → List ExecutorRow
executor_rows executors_cfg aliases bindings stats =
    let executors = executors_for_bindings executors_cfg bindings in
    map
      (λ name. record {
        name = name;
        enabled = get_or_zero false name executors;
        aliases = list_exact_for_executor name aliases;
        stats = get_stats stats name;
      })
      (sort (keys executors))

unfoldable pub source_rows : Dict Sources → List String → HealthStats → List SourceRow
source_rows sources_cfg bindings stats =
    let sources = sources_for_bindings sources_cfg bindings in
    map
      (λ name. record {
        name = name;
        enabled = get_or_zero false name sources;
        stats = get_stats stats name;
      })
      (sort (keys sources))
