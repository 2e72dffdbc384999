-- ===== src/Source/Scheduler/Generate.antt =====
-- internal/source/scheduler.go: `generateConfigs` and `Start`.
use botkube.Base.{
  String, Bool, true, false, Option, none, some, List, [], ◌∷◌, Dict, lookup, insert, get_or_zero,
  if◌then◌else◌,
}
use Prim.Native.String.{◌++◌ as ◌+++◌}
use botkube.Config.{
  Plugins, Sources, TeamsBindings, Communications, Action, Config, is_interactive, cloud_slack,
  socket_slack, mattermost, cloud_teams, discord,
}
use botkube.Source.Scheduler.{
  PluginDispatch, StartedSource, StartedSources, Scheduler, source_not_found, marshal_failed,
  Result, schedule, empty_plugin_filter,
}

-- `fmt.Sprintf("%s_interactive/%v", sourceName, isInteractivitySupported)`
abbrev pub config_key : Bool → String → String
config_key is_interactivity_supported source_name =
    source_name +++ "_interactive/" +++ (if is_interactivity_supported then "true" else "false")

-- `StartedSources{}`
abbrev pub no_sources : StartedSources
no_sources = record { plain = none; interactive = none }

-- `m[b] = started`
unfoldable pub set_started : StartedSource → StartedSources → StartedSources
set_started started m =
    if started.is_interactivity_supported
    then record m { interactive = some started }
    else record m { plain = some started }

-- What the loop does with the configuration of an enabled plugin.
unfoldable pub add_dispatch : String → PluginDispatch → Scheduler → Scheduler
unfolding set_started
add_dispatch key config d =
    let sources = get_or_zero no_sources config.source_name d.started_source_plugins in
    record d {
      dispatch_config = insert key ((config.plugin_name, config) ∷ []) d.dispatch_config;
      started_source_plugins =
          insert config.source_name
            (set_started
              (record {
                source_display_name = config.source_display_name;
                plugin_name = config.plugin_name;
                plugin_config = config.plugin_config;
                is_interactivity_supported = config.is_interactivity_supported;
              })
              sources)
            d.started_source_plugins;
    }

-- The next step, unless there is an error: `if err := ...; err != nil { return err }`.
unfoldable pub then_go : (Scheduler → Result) → Result → Result
then_go f (d, none) = f d
then_go f (d, some err) = (d, some err)

-- An `if` around a step.
abbrev pub when_enabled : Bool → (Scheduler → Result) → Scheduler → Result
when_enabled true f d = f d
when_enabled false f d = (d, none)

-- `yaml.Marshal`, `none` for an error.
module _ (marshal : Option String → Option String) where
  -- The loop over the plugins of a source.
  unfoldable pub generate_plugins : Bool → String → Sources → Plugins → Scheduler → Result
  unfolding add_dispatch
  generate_plugins interactive source_name src_config [] d = (d, none)
  generate_plugins interactive source_name src_config ((plugin_name, plugin_cfg) ∷ plugins) d =
      elim plugin_cfg.enabled [
        | false ↦ generate_plugins interactive source_name src_config plugins d
        | true ↦ elim (marshal plugin_cfg.config) [
          | none ↦ (d, some (marshal_failed plugin_name source_name))
          | some raw_yaml ↦ generate_plugins interactive source_name src_config plugins (
              add_dispatch (config_key interactive source_name)
                (record {
                  plugin_name = plugin_name;
                  plugin_config = raw_yaml;
                  source_name = source_name;
                  source_display_name = src_config.display_name;
                  is_interactivity_supported = interactive;
                  plugin_context = plugin_cfg.context;
                })
                d)
        ]
      ]

  -- `d.cfg`
  module _ (cfg : Config) where
    -- `generatePluginConfig`
    unfoldable pub generate_plugin_config : Bool → String → Scheduler → Result
    unfolding generate_plugins
    generate_plugin_config interactive source_name d = elim (lookup source_name cfg.sources) [
      | none ↦ (d, some (source_not_found source_name))
      | some src_config ↦ generate_plugins interactive source_name src_config src_config.plugins d
    ]

    -- `generateSourceConfigs`
    unfoldable pub generate_source_configs : Bool → List String → Scheduler → Result
    unfolding then_go generate_plugin_config
    generate_source_configs interactive [] d = (d, none)
    generate_source_configs interactive (bound_source ∷ bound_sources) d =
        then_go (generate_source_configs interactive bound_sources)
          (generate_plugin_config interactive bound_source d)

    -- The loop over the channels of a platform, or the indices of Elasticsearch; `get` is their
    -- `Bindings.Sources`.
    unfoldable pub generate_channels :
        {T : Type 0} → (T → List String) → Bool → Dict T → Scheduler → Result
    unfolding then_go generate_source_configs
    generate_channels get interactive [] d = (d, none)
    generate_channels get interactive ((k, channel) ∷ channels) d =
        then_go (generate_channels get interactive channels)
          (generate_source_configs interactive (get channel) d)

    unfoldable pub generate_teams : Bool → List TeamsBindings → Scheduler → Result
    unfolding then_go generate_channels
    generate_teams interactive [] d = (d, none)
    generate_teams interactive (team ∷ teams) d =
        then_go (generate_teams interactive teams)
          (generate_channels (λ ch. ch.bindings.sources) interactive team.channels d)

    -- The body of the loop over the communication groups.
    unfoldable pub generate_group : Communications → Scheduler → Result
    unfolding then_go generate_channels generate_teams generate_source_configs is_interactive
    generate_group c d =
        let r1 =
          when_enabled c.cloud_slack.enabled
            (generate_channels (λ ch. ch.bindings.sources) (is_interactive cloud_slack)
              c.cloud_slack.channels)
            d in
        let r2 =
          then_go
            (when_enabled c.socket_slack.enabled (
              generate_channels (λ ch. ch.bindings.sources) (is_interactive socket_slack)
                c.socket_slack.channels))
            r1 in
        let r3 =
          then_go
            (when_enabled c.mattermost.enabled (
              generate_channels (λ ch. ch.bindings.sources) (is_interactive mattermost)
                c.mattermost.channels))
            r2 in
        let r4 =
          then_go
            (when_enabled c.cloud_teams.enabled
              (generate_teams (is_interactive cloud_teams) c.cloud_teams.teams))
            r3 in
        let r5 =
          then_go
            (when_enabled c.discord.enabled (
              generate_channels (λ ch. ch.bindings.sources) (is_interactive discord)
                c.discord.channels))
            r4 in
        let r6 =
          then_go
            (when_enabled c.webhook.enabled
              (generate_source_configs false c.webhook.bindings.sources))
            r5 in
        let r7 =
          then_go
            (when_enabled c.elasticsearch.enabled
              (generate_channels (λ index. index.bindings.sources) false c.elasticsearch.indices))
            r6 in
        then_go
          (when_enabled c.pager_duty.enabled
            (generate_source_configs false c.pager_duty.bindings.sources))
          r7

    unfoldable pub generate_groups : Dict Communications → Scheduler → Result
    unfolding then_go generate_group
    generate_groups [] d = (d, none)
    generate_groups ((k, c) ∷ groups) d = then_go (generate_groups groups) (generate_group c d)

    unfoldable pub generate_actions : Dict Action → Scheduler → Result
    unfolding then_go generate_source_configs
    generate_actions [] d = (d, none)
    generate_actions ((k, act) ∷ actions) d =
        then_go (generate_actions actions)
          (when_enabled act.enabled (generate_source_configs false act.bindings.sources) d)

    -- `generateConfigs`
    unfoldable pub generate_configs : Scheduler → Result
    unfolding then_go generate_groups generate_actions
    generate_configs d =
        then_go (generate_actions cfg.actions) (generate_groups cfg.communications d)

    -- `Start`
    unfoldable pub start : (PluginDispatch → Bool) → Scheduler → Result
    unfolding then_go generate_configs schedule
    start dispatch d = then_go (schedule dispatch empty_plugin_filter) (generate_configs d)
