-- ===== src/Execute/Executor.antt =====
-- pkg/execute/executor.go: which of its executors answers a command, and which command is not
-- answered at all.
pub mod Answers
use botkube.Base.{
  String, Bool, true, false, not, ◌&&◌, ◌||◌, Option, none, some, List, [], ◌∷◌, ◌++◌, ◌==◌, Dict,
  lookup, if◌then◌else◌,
}
use Prim.Native.String.{◌++◌ as ◌+++◌}
use botkube.Base.Text.{cut}
use botkube.Config.{Alias, Plugin, Plugins, Executors, Config, CommPlatformIntegration}
use botkube.Config.Keys.{decompose_plugin_key}
use botkube.Execute.Alias.{expand_prefix}
use botkube.Execute.Mapping.{CommandMapping, find_fn}

-- The conversation, as far as `Execute` reads it.
pub record Conversation : Type 0 where
  pub executor_bindings : List String
  pub is_known : Bool

-- `Flags`
pub record Flags : Type 0 where
  pub clean_cmd : String
  pub filter : String
  pub cluster_name : String
  pub tokenized_cmd : List String
  pub cmd_header : String

-- The fields of `CommandContext` that `Execute` sets from the flags.
pub record CommandContext : Type 0 where
  pub expanded_raw_cmd : String
  pub cluster_name : String
  pub provided_cluster_name : String
  pub clean_cmd : String
  pub cmd_header : String
  pub args : List String
  pub filter : String

-- `ProvidedClusterNameEqualOrEmpty`
unfoldable pub provided_cluster_name_equal_or_empty : CommandContext → Bool
provided_cluster_name_equal_or_empty c =
    (c.provided_cluster_name == "") || (c.provided_cluster_name == c.cluster_name)

-- What a function of the bot returns: a message, or one of the errors that `Execute` tells apart.
pub data Outcome (M : Type 0) : Type 0 where
  message : M → Outcome M
  invalid_command unsupported_command other_error : Outcome M
  execution_error : String → Outcome M

-- What `Execute` returns: a message, the text that flags cannot be read, or a text that `respond`
-- filters and formats.
pub data Reply (M : Type 0) : Type 0 where
  cannot_parse : Reply M
  plain : M → Reply M
  respond : String → Reply M

-- `reportCommand`
pub record ReportedCommand : Type 0 where
  pub plugin_name : String
  pub command : String
  pub with_filter : Bool

abbrev pub unsupported_cmd_msg : String
unsupported_cmd_msg = "Command not supported. Please use 'help' to see supported commands."

abbrev pub incomplete_cmd_msg : String
incomplete_cmd_msg =
    "You missed to pass options for the command. Please use 'help' to see command options."

abbrev pub anonymized_invalid_verb : String
anonymized_invalid_verb = "{invalid verb}"

-- The plugins of one binding with the name of the command; the full name is the last one found.
unfoldable pub enabled_in : String → Plugins → List Plugin × String → List Plugin × String
enabled_in cmd_name [] found = found
enabled_in cmd_name ((plugin_key, details) ∷ plugins) (out, full) =
    let name : String = elim (decompose_plugin_key plugin_key) [ none ↦ "" | some (_, n, _) ↦ n ] in
    enabled_in cmd_name plugins (
      if details.enabled && (name == cmd_name)
      then (out ++ details ∷ [], plugin_key)
      else (out, full))

-- The loop over the bindings.
unfoldable pub enabled_for :
    Dict Executors → String → List String → List Plugin × String → List Plugin × String
unfolding enabled_in
enabled_for executors cmd_name [] found = found
enabled_for executors cmd_name (binding ∷ bindings) found =
    enabled_for executors cmd_name bindings (elim (lookup binding executors) [
      | none ↦ found
      | some ex ↦ enabled_in cmd_name ex.plugins found
    ])

-- `getEnabledPlugins`
unfoldable pub get_enabled_plugins : Dict Executors → List String → String → List Plugin × String
unfolding enabled_for
get_enabled_plugins executors bindings cmd_name = enabled_for executors cmd_name bindings ([], "")

-- `CanHandle`
unfoldable pub can_handle : Dict Executors → List String → List String → Bool
unfolding get_enabled_plugins
can_handle executors bindings [] = false
can_handle executors bindings (cmd_name ∷ args) =
    elim (get_enabled_plugins executors bindings cmd_name).0 [ [] ↦ false | _ ∷ _ ↦ true ]

abbrev pub is_help_cmd : List String → Bool
is_help_cmd [] = false
is_help_cmd (_ ∷ []) = false
is_help_cmd (_ ∷ verb ∷ _) = verb == "help"

-- `staticPluginDiscovery` and `GetInstallHelpForKnownPlugin`
abbrev pub static_plugin_discovery : Dict String
static_plugin_discovery =
    (
      "kubectl",
      "`kubectl` commands are disabled for this channel. To learn how to enable Kubectl executor, visit https://docs.botkube.io/configuration/executor/kubectl",
    )
    ∷ (
      "helm",
      "`helm` commands are disabled for this channel. To learn how to enable Helm executor, visit https://docs.botkube.io/configuration/executor/helm",
    )
    ∷ []

abbrev pub get_install_help_for_known_plugin : String → Option String
get_install_help_for_known_plugin cmd_name = lookup cmd_name static_plugin_discovery

-- What stands outside: the readers of the message and of the flags, the executors of plugins and
-- of help, the verb's help text, and `strings.ToLower`.
pub record Outside (M : Type 0) : Type 0 where
  -- `interactive.CoreMessage{}`, the empty message
  pub no_message : M
  pub sanitize_command : String → String
  pub parse_flags : String → Option Flags
  pub to_lower : String → String
  pub help : CommandContext → Outcome M
  pub execute_plugin : CommandContext → Outcome M
  pub plugin_help : CommandContext → Option M
  pub help_error : CommandContext → String
  pub command_prefix : List String → String
  pub help_message_for_verb : String → String
  pub internal_error : CommandContext → String

module _ {M : Type 0} (o : Outside M) (cfg : Config)
    (mapping : CommandMapping (CommandContext → Outcome M)) where
  -- The commands of plugins.
  unfoldable pub run_plugin :
      Conversation → CommandContext → String → List String → Reply M × List ReportedCommand
  unfolding get_enabled_plugins
  run_plugin conv ctx cmd_name args =
      let reported : ReportedCommand = record {
        plugin_name = (get_enabled_plugins cfg.executors conv.executor_bindings cmd_name).1;
        command = o.command_prefix (cmd_name ∷ args);
        with_filter = not (ctx.filter == "");
      } in
      (
        if is_help_cmd (cmd_name ∷ args)
            then elim (o.plugin_help ctx) [ none ↦ plain o.no_message | some m ↦ plain m ]
            else elim (o.execute_plugin ctx) [
              | message m ↦ plain m
              | execution_error text ↦ respond text
              | _ ↦ plain o.no_message
            ],
        reported ∷ [],
      )

  -- The reply to what a function of the mapping returns.
  unfoldable pub reply_of : CommandContext → Outcome M → Reply M
  reply_of ctx result = elim result [
    | message m ↦ plain m
    | invalid_command ↦ respond incomplete_cmd_msg
    | unsupported_command ↦ respond unsupported_cmd_msg
    | execution_error text ↦ respond text
    | other_error ↦ respond (o.internal_error ctx)
  ]

  abbrev pub second : List String → String
  second [] = ""
  second (res ∷ _) = o.to_lower res

  abbrev pub report : String → List ReportedCommand
  report cmd = record { plugin_name = ""; command = cmd; with_filter = false } ∷ []

  -- The commands of the bot.
  unfoldable pub run_builtin :
      CommandContext → String → List String → Reply M × List ReportedCommand
  unfolding reply_of
  run_builtin ctx cmd_name args =
      let verb = o.to_lower cmd_name in
      let res = second args in
      elim (find_fn mapping verb res) [
        | none ↦ (respond unsupported_cmd_msg, report anonymized_invalid_verb)
        | some found ↦ elim found [
          | none ↦ (
            respond (
                "error: unknown option `"
                +++ res
                +++ "`\nusage: "
                +++ o.help_message_for_verb verb),
            report (if res == "" then verb else verb +++ " {invalid feature}"),
          )
          | some fn ↦
              (reply_of ctx (fn ctx), report (if res == "" then verb else verb +++ " " +++ res))
        ]
      ]

  -- What `Execute` does once the command is read.
  unfoldable pub execute_args : Conversation → CommandContext → Reply M × List ReportedCommand
  unfolding run_plugin run_builtin can_handle provided_cluster_name_equal_or_empty
  execute_args conv ctx = elim ctx.args [
    | [] ↦ (
      if conv.is_known
          then elim (o.help ctx) [ message m ↦ plain m | _ ↦ respond (o.help_error ctx) ]
          else plain o.no_message,
      [],
    )
    | cmd_name ∷ args ↦
        if not (provided_cluster_name_equal_or_empty ctx)
        then (plain o.no_message, [])
        else if not conv.is_known
        then (plain o.no_message, [])
        else if can_handle cfg.executors conv.executor_bindings (cmd_name ∷ args)
        then run_plugin conv ctx cmd_name args
        else elim (get_install_help_for_known_plugin cmd_name) [
          | some help ↦ (respond help, [])
          | none ↦ run_builtin ctx cmd_name args
        ]
  ]

  -- The command context of the flags.
  abbrev pub context_of : String → Flags → CommandContext
  context_of expanded flags = record {
    expanded_raw_cmd = expanded;
    cluster_name = cfg.cluster_name;
    provided_cluster_name = flags.cluster_name;
    clean_cmd = flags.clean_cmd;
    cmd_header = flags.cmd_header;
    args = flags.tokenized_cmd;
    filter = flags.filter;
  }

  -- `Execute`
  unfoldable pub execute : Conversation → String → Reply M × List ReportedCommand
  unfolding expand_prefix execute_args
  execute conv text =
      let expanded = expand_prefix (o.sanitize_command text) cfg.aliases in
      elim (o.parse_flags expanded) [
        | none ↦ (cannot_parse, [])
        | some flags ↦ execute_args conv (context_of expanded flags)
      ]
