-- ===== src/Config.antt =====
-- pkg/config/config.go: the Botkube configuration, as far as the agent's logic reads it. A Go map is
-- a `Dict`; a string type (`CommPlatformIntegration`, `PluginRestartPolicyType`) is a `String`; an
-- `int` is a natural number; a plugin's `any` configuration is its YAML text, `none` for nil.
pub mod Keys
pub mod Bindings
pub mod Sample
pub mod Aliases
pub mod Tests
use botkube.Base.{ℕ, String, Bool, Option, List, ◌==◌, ◌||◌, Dict}

-- `CommPlatformIntegration` and its constants.
abbrev pub CommPlatformIntegration : Type 0
CommPlatformIntegration = String

abbrev pub cloud_slack : CommPlatformIntegration
cloud_slack = "cloudSlack"

abbrev pub socket_slack : CommPlatformIntegration
socket_slack = "socketSlack"

abbrev pub mattermost : CommPlatformIntegration
mattermost = "mattermost"

abbrev pub cloud_teams : CommPlatformIntegration
cloud_teams = "cloudTeams"

abbrev pub discord : CommPlatformIntegration
discord = "discord"

-- Only the Slack platforms and the cloud Teams platform are interactive.
unfoldable pub is_interactive : CommPlatformIntegration → Bool
is_interactive c = (c == socket_slack) || ((c == cloud_slack) || (c == cloud_teams))

pub record BotBindings : Type 0 where
  pub sources : List String
  pub executors : List String

pub record SinkBindings : Type 0 where
  pub sources : List String

pub record ActionBindings : Type 0 where
  pub sources : List String
  pub executors : List String

pub record Action : Type 0 where
  pub enabled : Bool
  pub display_name : String
  pub command : String
  pub bindings : ActionBindings

-- `PolicyRule` with its user and group subjects.
pub record UserPolicySubject : Type 0 where
  pub type : String
  pub static_value : String
  pub prefix : String

pub record GroupPolicySubject : Type 0 where
  pub type : String
  pub static_values : List String
  pub prefix : String

pub record PolicyRule : Type 0 where
  pub user : UserPolicySubject
  pub group : GroupPolicySubject

-- The policy subject type that actions must not use.
abbrev pub channel_name_policy_subject_type : String
channel_name_policy_subject_type = "ChannelName"

pub record PluginContext : Type 0 where
  pub rbac : Option PolicyRule

pub record Plugin : Type 0 where
  pub enabled : Bool
  pub config : Option String
  pub context : PluginContext

abbrev pub Plugins : Type 0
Plugins = Dict Plugin

pub record Sources : Type 0 where
  pub display_name : String
  pub plugins : Plugins

pub record Executors : Type 0 where
  pub display_name : String
  pub plugins : Plugins

pub record Alias : Type 0 where
  pub command : String
  pub display_name : String

-- A channel known by its name, with the bindings that the agent reads.
pub record ChannelBindingsByName : Type 0 where
  pub name : String
  pub notification_disabled : Bool
  pub bindings : BotBindings

pub record ChannelBindingsById : Type 0 where
  pub id : String
  pub notification_disabled : Bool
  pub bindings : BotBindings

pub record SocketSlack : Type 0 where
  pub enabled : Bool
  pub channels : Dict ChannelBindingsByName
  pub bot_token : String
  pub app_token : String

-- The channel of `CloudSlack` embeds `ChannelBindingsByName`.
pub record CloudSlack : Type 0 where
  pub enabled : Bool
  pub channels : Dict ChannelBindingsByName

pub record Mattermost : Type 0 where
  pub enabled : Bool
  pub channels : Dict ChannelBindingsByName

pub record Discord : Type 0 where
  pub enabled : Bool
  pub channels : Dict ChannelBindingsById

pub record TeamsBindings : Type 0 where
  pub id : String
  pub channels : Dict ChannelBindingsById

pub record CloudTeams : Type 0 where
  pub enabled : Bool
  pub teams : List TeamsBindings

pub record Webhook : Type 0 where
  pub enabled : Bool
  pub bindings : SinkBindings

pub record ElsIndex : Type 0 where
  pub name : String
  pub bindings : SinkBindings

pub record Elasticsearch : Type 0 where
  pub enabled : Bool
  pub indices : Dict ElsIndex

pub record PagerDuty : Type 0 where
  pub enabled : Bool
  pub bindings : SinkBindings

pub record Communications : Type 0 where
  pub socket_slack : SocketSlack
  pub cloud_slack : CloudSlack
  pub mattermost : Mattermost
  pub discord : Discord
  pub cloud_teams : CloudTeams
  pub webhook : Webhook
  pub elasticsearch : Elasticsearch
  pub pager_duty : PagerDuty

pub record Config : Type 0 where
  pub actions : Dict Action
  pub sources : Dict Sources
  pub executors : Dict Executors
  pub aliases : Dict Alias
  pub communications : Dict Communications
  pub cluster_name : String
  pub config_watcher_enabled : Bool

-- `PluginRestartPolicy`; the threshold is a count of restarts.
pub record PluginRestartPolicy : Type 0 where
  pub type : String
  pub threshold : ℕ

-- `KeepAgentRunningWhenThresholdReached` and `RestartAgentWhenThresholdReached`.
abbrev pub keep_agent_running_when_threshold_reached : String
keep_agent_running_when_threshold_reached = "DeactivatePlugin"

abbrev pub restart_agent_when_threshold_reached : String
restart_agent_when_threshold_reached = "RestartAgent"
