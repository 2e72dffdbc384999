-- ===== src/Config/Aliases.antt =====
-- pkg/config/validator.go: the checks of aliases, of include patterns, and of the Slack, Discord and
-- Mattermost platforms. A report is its tag; the regular expressions of channels are parameters.
pub mod Commands
use botkube.Base.{
  ℕ, String, Bool, true, false, not, ◌&&◌, Option, none, some, List, [], ◌∷◌, ◌++◌, ◌==◌, Dict,
  length, ltb, contains, if◌then◌else◌,
}
use botkube.Base.Text.{cut}
use botkube.Config.{
  Alias, Executors, Config, ChannelBindingsByName, ChannelBindingsById, SocketSlack, CloudSlack,
  Discord, Mattermost,
}
use botkube.Config.Keys.{collect_command_prefixes, cut_or_all}
use botkube.Execute.Alias.{strip_prefix}

-- The constants of pkg/execute/command/verb.go, and `AllVerbs`.
abbrev pub all_verbs : List String
all_verbs =
    "ping" ∷ "help" ∷ "version" ∷ "feedback" ∷ "list" ∷ "enable" ∷ "disable" ∷ "edit" ∷ "status"
    ∷ "show" ∷ []

-- What a check reports: the field and the tag, or the command prefix that is not known.
pub data FieldReport : Type 0 where
  required invalid_slack_token : (field : String) → FieldReport
  invalid_channel_name : (channel_alias field : String) → FieldReport
  multiple_include_constraints : FieldReport
  invalid_alias_command : (prefix : String) → FieldReport

-- The prefixes of all executors.
unfoldable pub executor_prefixes : Dict Executors → List String
executor_prefixes [] = []
executor_prefixes ((name, exec) ∷ executors) =
    collect_command_prefixes exec.plugins ++ executor_prefixes executors

abbrev pub space : ℕ
space = 0x20

-- `aliasesStructValidator`
unfoldable pub validate_alias : Config → Alias → List FieldReport
unfolding executor_prefixes
validate_alias conf alias =
    let cmd_prefix = (cut_or_all space alias.command).0 in
    if alias.command == ""
    then []
    else if contains (executor_prefixes conf.executors ++ all_verbs) cmd_prefix
    then []
    else invalid_alias_command cmd_prefix ∷ []

-- `regexConstraintsStructValidator`, on the include patterns.
unfoldable pub validate_include : List String → List FieldReport
validate_include include =
    if ltb (length include) 2
    then []
    else if contains include ".*"
    then multiple_include_constraints ∷ []
    else []

-- `NormalizeChannelIdentifier`, and the pattern of a platform.
module _ (normalize : String → String) (matches : String → Bool) where
  -- The loop over the channels, up to one without an identifier.
  unfoldable pub validate_identifiers :
      {T : Type 0} → (T → String) → Bool → String → Dict T → List FieldReport
  validate_identifiers identifier should_normalize field_name [] = []
  validate_identifiers identifier should_normalize field_name
        ((channel_alias, channel) ∷ channels) =
      let later = validate_identifiers identifier should_normalize field_name channels in
      let id = identifier channel in
      if id == ""
      then required field_name ∷ []
      else if matches (if should_normalize then normalize id else id)
      then later
      else invalid_channel_name channel_alias field_name ∷ later

  -- `validateChannels`
  unfoldable pub validate_channels :
      {T : Type 0} → (T → String) → Bool → String → Dict T → List FieldReport
  unfolding validate_identifiers
  validate_channels identifier should_normalize field_name [] = required "Channels" ∷ []
  validate_channels identifier should_normalize field_name (c ∷ channels) =
      validate_identifiers identifier should_normalize field_name (c ∷ channels)

  abbrev pub report_if : Bool → FieldReport → List FieldReport
  report_if cond r = if cond then r ∷ [] else []

  -- `strings.HasPrefix`
  unfoldable pub has_prefix : String → String → Bool
  unfolding strip_prefix
  has_prefix s prefix = elim (strip_prefix prefix s) [ none ↦ false | some _ ↦ true ]

  abbrev pub bot_token_prefix : String
  bot_token_prefix = "xoxb-"

  abbrev pub app_token_prefix : String
  app_token_prefix = "xapp-"

  -- `socketSlackValidator`
  unfoldable pub validate_socket_slack : SocketSlack → List FieldReport
  unfolding has_prefix validate_channels
  validate_socket_slack slack =
      if not slack.enabled
      then []
      else report_if (slack.app_token == "") (required "AppToken")
        ++ report_if (slack.bot_token == "") (required "BotToken")
        ++ report_if (not (has_prefix slack.bot_token bot_token_prefix))
            (invalid_slack_token "BotToken")
        ++ report_if (not (has_prefix slack.app_token app_token_prefix))
            (invalid_slack_token "AppToken")
        ++ validate_channels (λ (c : ChannelBindingsByName). c.name) true "Name" slack.channels

  -- `cloudSlackValidator`
  unfoldable pub validate_cloud_slack : CloudSlack → List FieldReport
  unfolding validate_channels
  validate_cloud_slack slack =
      if not slack.enabled
      then []
      else validate_channels (λ (c : ChannelBindingsByName). c.name) true "Name" slack.channels

  -- `discordValidator`
  unfoldable pub validate_discord : Discord → List FieldReport
  unfolding validate_channels
  validate_discord discord =
      if not discord.enabled
      then []
      else validate_channels (λ (c : ChannelBindingsById). c.id) true "ID" discord.channels

  -- `mattermostValidator`
  unfoldable pub validate_mattermost : Mattermost → List FieldReport
  unfolding validate_channels
  validate_mattermost mattermost =
      if not mattermost.enabled
      then []
      else validate_channels (λ (c : ChannelBindingsByName). c.name) false "Name"
          mattermost.channels
