-- ===== src/Source/Scheduler.antt =====
-- internal/source/scheduler.go: the dispatch configurations that the bindings ask for, the streams
-- that are open, and the scheduling at the start and after the restart of a plugin.
pub mod Streams
pub mod Opened
pub mod Complete
pub mod Generate
pub mod Bound
pub mod Walk
pub mod Planned
pub mod Configs
pub mod Plans
pub mod Restarts
use botkube.Base.{
  ℕ, String, Bool, true, false, not, ◌&&◌, ◌||◌, Option, none, some, List, [], ◌∷◌, ◌++◌, ◌==◌,
  Dict, lookup, insert, remove, get_or_zero, keys, contains, if◌then◌else◌,
}
use botkube.Base.Adds.{StringSet, put}
use botkube.Base.Text.{sort}
use Prim.Native.String.{◌++◌ as ◌+++◌}
use botkube.Config.{
  PluginContext, Plugin, Plugins, Sources, ChannelBindingsByName, ChannelBindingsById,
  TeamsBindings, ElsIndex, Communications, Action, Config, is_interactive, cloud_slack,
  socket_slack, mattermost, cloud_teams, discord,
}

-- `PluginDispatch`, less the context, the whole configuration and the webhook's address, which are
-- the same for every dispatch. `plugin_config` is the raw YAML.
pub record PluginDispatch : Type 0 where
  pub plugin_name : String
  pub plugin_config : String
  pub source_name : String
  pub source_display_name : String
  pub is_interactivity_supported : Bool
  pub plugin_context : PluginContext

pub record StartedSource : Type 0 where
  pub source_display_name : String
  pub plugin_name : String
  pub plugin_config : String
  pub is_interactivity_supported : Bool

-- `StartedSources`, a map from Booleans: one entry for each.
pub record StartedSources : Type 0 where
  pub plain : Option StartedSource
  pub interactive : Option StartedSource

-- `openedStreams`: for a plugin, the keys of the configurations that it streams.
abbrev pub OpenedStreams : Type 0
OpenedStreams = Dict StringSet

unfoldable pub report_started_stream_with_configuration :
    String → String → OpenedStreams → OpenedStreams
report_started_stream_with_configuration plugin configuration streams =
    insert plugin (put configuration (get_or_zero [] plugin streams)) streams

unfoldable pub delete_all_started_streams_for_plugin : String → OpenedStreams → OpenedStreams
delete_all_started_streams_for_plugin plugin streams = remove plugin streams

unfoldable pub is_started_stream_with_configuration : String → String → OpenedStreams → Bool
is_started_stream_with_configuration plugin configuration streams =
    contains (get_or_zero [] plugin streams) configuration

-- The scheduler; `dispatched` lists the plugin and key of each successful call of `Dispatch`, the
-- latest first.
pub record Scheduler : Type 0 where
  pub dispatch_config : Dict (Dict PluginDispatch)
  pub opened_streams : OpenedStreams
  pub started_source_plugins : Dict StartedSources
  pub dispatched : List (String × String)

-- `NewScheduler`
abbrev pub new_scheduler : Scheduler
new_scheduler = record {
  dispatch_config = [];
  opened_streams = [];
  started_source_plugins = [];
  dispatched = [];
}

-- The errors that the methods return.
pub data SchedulerError : Type 0 where
  source_not_found : String → SchedulerError
  marshal_failed : (plugin source : String) → SchedulerError
  dispatch_failed : String → SchedulerError

-- What a method leaves and returns; `none` is nil.
abbrev pub Result : Type 0
Result = Scheduler × Option SchedulerError

abbrev pub empty_plugin_filter : String
empty_plugin_filter = ""

-- `pluginFilter != emptyPluginFilter && pluginFilter != pluginName`
abbrev pub is_filtered_out : String → String → Bool
is_filtered_out plugin_filter plugin_name =
    not (plugin_filter == empty_plugin_filter) && not (plugin_filter == plugin_name)

-- The successful call of `Dispatch`, with `reportStartedStreamWithConfiguration`.
unfoldable pub open_stream : String → String → Scheduler → Scheduler
unfolding report_started_stream_with_configuration
open_stream plugin_name config_key s = record s {
  opened_streams = report_started_stream_with_configuration plugin_name config_key s.opened_streams;
  dispatched = (plugin_name, config_key) ∷ s.dispatched;
}

-- The dispatcher: whether `Dispatch` succeeds.
module _ (dispatch : PluginDispatch → Bool) (plugin_filter : String) where
  -- The loop over the plugins of one key.
  unfoldable pub schedule_source : String → Dict PluginDispatch → Scheduler → Result
  unfolding is_started_stream_with_configuration open_stream
  schedule_source config_key [] s = (s, none)
  schedule_source config_key ((plugin_name, src_cfg) ∷ source_config) s =
      elim (is_filtered_out plugin_filter plugin_name
        || is_started_stream_with_configuration plugin_name config_key s.opened_streams) [
          | true ↦ schedule_source config_key source_config s
          | false ↦ elim (dispatch src_cfg) [
            | true ↦ schedule_source config_key source_config (open_stream plugin_name config_key s)
            | false ↦ (s, some (dispatch_failed plugin_name))
          ]
        ]

  -- The loop over the keys.
  unfoldable pub schedule_keys : List String → Scheduler → Result
  unfolding schedule_source
  schedule_keys [] s = (s, none)
  schedule_keys (config_key ∷ sorted_keys) s =
      let (s', err) = schedule_source config_key (get_or_zero [] config_key s.dispatch_config) s in
      elim err [ none ↦ schedule_keys sorted_keys s' | some e ↦ (s', some e) ]

  -- `schedule`
  unfoldable pub schedule : Scheduler → Result
  unfolding schedule_keys
  schedule s = schedule_keys (sort (keys s.dispatch_config)) s

-- One round of `monitorHealth`: a plugin was restarted. An error is only logged.
unfoldable pub reschedule : (PluginDispatch → Bool) → String → Scheduler → Scheduler
unfolding schedule delete_all_started_streams_for_plugin
reschedule dispatch plugin s =
    (schedule dispatch plugin (record s {
      opened_streams = delete_all_started_streams_for_plugin plugin s.opened_streams;
    })).0

-- `monitorHealth`, over the plugins that it receives, with what the dispatcher does each time.
unfoldable pub monitor_health : List (String × (PluginDispatch → Bool)) → Scheduler → Scheduler
unfolding reschedule
monitor_health [] s = s
monitor_health ((plugin, dispatch) ∷ restarts) s =
    monitor_health restarts (reschedule dispatch plugin s)
