-- ===== src/Plugin/Collector.antt =====
-- pkg/plugin/collector.go: the plugins that are enabled and bound to an enabled platform or action.
-- A `map[string]struct{}` is a list without repetition; `maps.Keys` leaves the order open.
pub mod Laws
pub mod Used
use botkube.Base.{
  String, Bool, true, false, List, [], ◌∷◌, Dict, contains, if◌then◌else◌, ◌&&◌, not,
}
use botkube.Base.Adds.{StringSet, put, put_all}
use botkube.Config.{
  BotBindings, Action, Plugin, Plugins, Sources, Executors, ChannelBindingsByName,
  ChannelBindingsById, TeamsBindings, ElsIndex, Communications, Config,
}

-- `boundExecutors` and `boundSources`.
pub record Bound : Type 0 where
  pub executors : StringSet
  pub sources : StringSet

abbrev pub add_bindings : BotBindings → Bound → Bound
add_bindings b s = record {
  executors = put_all b.executors s.executors;
  sources = put_all b.sources s.sources;
}

abbrev pub add_sources : List String → Bound → Bound
add_sources names s = record s { sources = put_all names s.sources }

-- `collect`; `get` is `GetBotBindings`.
unfoldable pub collect : {T : Type 0} → (T → BotBindings) → Dict T → Bound → Bound
collect get [] s = s
collect get ((k, ch) ∷ channels) s = collect get channels (add_bindings (get ch) s)

abbrev pub by_name : ChannelBindingsByName → BotBindings
by_name ch = ch.bindings

abbrev pub by_id : ChannelBindingsById → BotBindings
by_id ch = ch.bindings

unfoldable pub collect_teams : List TeamsBindings → Bound → Bound
collect_teams [] s = s
collect_teams (team ∷ teams) s = collect_teams teams (collect by_id team.channels s)

unfoldable pub collect_indices : Dict ElsIndex → Bound → Bound
collect_indices [] s = s
collect_indices ((k, index) ∷ indices) s =
    collect_indices indices (add_sources index.bindings.sources s)

-- An `if` around a step.
abbrev pub if_enabled : Bool → (Bound → Bound) → Bound → Bound
if_enabled true f s = f s
if_enabled false f s = s

-- The body of the loop over the communication groups.
unfoldable pub collect_group : Communications → Bound → Bound
unfolding collect collect_teams collect_indices
collect_group c s =
    let s1 = if_enabled c.socket_slack.enabled (collect by_name c.socket_slack.channels) s in
    let s2 = if_enabled c.cloud_slack.enabled (collect by_name c.cloud_slack.channels) s1 in
    let s3 = if_enabled c.mattermost.enabled (collect by_name c.mattermost.channels) s2 in
    let s4 = if_enabled c.cloud_teams.enabled (collect_teams c.cloud_teams.teams) s3 in
    let s5 = if_enabled c.discord.enabled (collect by_id c.discord.channels) s4 in
    let s6 = if_enabled c.webhook.enabled (add_sources c.webhook.bindings.sources) s5 in
    let s7 = if_enabled c.elasticsearch.enabled (collect_indices c.elasticsearch.indices) s6 in
    if_enabled c.pager_duty.enabled (add_sources c.pager_duty.bindings.sources) s7

unfoldable pub collect_groups : Dict Communications → Bound → Bound
unfolding collect_group
collect_groups [] s = s
collect_groups ((k, c) ∷ groups) s = collect_groups groups (collect_group c s)

abbrev pub action_bindings : Action → BotBindings
action_bindings a = record { sources = a.bindings.sources; executors = a.bindings.executors }

unfoldable pub collect_actions : Dict Action → Bound → Bound
collect_actions [] s = s
collect_actions ((k, act) ∷ actions) s =
    collect_actions actions (if_enabled act.enabled (add_bindings (action_bindings act)) s)

-- The loop over the plugins of one group.
unfoldable pub mark_plugins : StringSet → String → Plugins → StringSet → StringSet
mark_plugins bound group [] used = used
mark_plugins bound group ((name, plugin) ∷ plugins) used =
    mark_plugins bound group plugins
      (if plugin.enabled && contains bound group then put name used else used)

-- The loop over the groups, executors or sources; `get` is the group's plugins.
unfoldable pub mark_groups :
    {T : Type 0} → (T → Plugins) → StringSet → Dict T → StringSet → StringSet
unfolding mark_plugins
mark_groups get bound [] used = used
mark_groups get bound ((group, items) ∷ groups) used =
    mark_groups get bound groups (mark_plugins bound group (get items) used)

abbrev pub executor_plugins : Executors → Plugins
executor_plugins e = e.plugins

abbrev pub source_plugins : Sources → Plugins
source_plugins s = s.plugins

-- The bound names of the configuration.
unfoldable pub collect_bound : Config → Bound
unfolding collect_groups collect_actions
collect_bound cfg =
    collect_actions cfg.actions
      (collect_groups cfg.communications (record { executors = []; sources = [] }))

-- `GetAllEnabledAndUsedPlugins`.
unfoldable pub get_all_enabled_and_used_plugins : Config → StringSet × StringSet
unfolding mark_groups collect_bound
get_all_enabled_and_used_plugins cfg =
    let bound = collect_bound cfg in
    (
      mark_groups executor_plugins bound.executors cfg.executors [],
      mark_groups source_plugins bound.sources cfg.sources [],
    )
