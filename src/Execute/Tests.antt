-- ===== src/Execute/Tests.antt =====
-- Commands in a conversation that is configured for kubectl, and in one that is not.
use botkube.Base.{
  String, ◌≡◌, ◌≢◌, ◌↔◌, ◌⊎◌, refl, true, false, none, some, List, [], ◌∷◌, ◌==◌, Dict, lookup,
  insert, get_or_zero, if◌then◌else◌,
}
use botkube.Base.Text.{cut, sort, insert_sorted}
use botkube.Config.{Alias, Executors, Sources}
use botkube.Config.Keys.{decompose_plugin_key, executor_name_for_key}
use botkube.Config.Sample.{config, plugin}
use botkube.Execute.Alias.{expand_prefix, strip_prefix}
use botkube.Execute.Listing.{
  executors_for_bindings, sources_for_bindings, list_for_executor_with_fn, list_for_executor_prefix,
}
use botkube.Execute.Listing.Enabled.{some_group_enables, enabled-executors_for_bindings}
use botkube.Execute.Mapping.{CommandExecutor, CommandMapping, new_cmds_mapping, find_fn}
use botkube.Execute.Mapping.Found.{latest, registrations, find_fn_iff}
use botkube.Execute.Executor.{
  Conversation, Flags, CommandContext, Outcome, message, plain, cannot_parse, get_enabled_plugins,
  enabled_for, enabled_in, Outside, execute, can_handle,
}
use botkube.Execute.Executor.Answers.{context, SentBy, flags_of, IsForOther, execute_silent}

abbrev alias : Alias
alias = record { command = "kubectl get pods"; display_name = "Pods" }

-- The alias is expanded where a word ends.
expanded :
    (expand_prefix "kgp -A" (("kgp", alias) ∷ []) ≡ "kubectl get pods -A")
    × (expand_prefix "kgpods" (("kgp", alias) ∷ []) ≡ "kgpods")
unfolding expand_prefix
expanded = (refl, refl)

abbrev pinger : CommandExecutor String
pinger = record {
  commands = ("ping", "first") ∷ [];
  feature_name = record { name = ""; aliases = [] };
}

abbrev other_pinger : CommandExecutor String
other_pinger = record {
  commands = ("ping", "second") ∷ [];
  feature_name = record { name = ""; aliases = [] };
}

abbrev executors : List (CommandExecutor String)
executors = pinger ∷ other_pinger ∷ []

-- A name that is registered twice is no collision: the later function replaces the first.
abbrev mapping : CommandMapping String
mapping = record {
  commands = ("ping", ("", "second") ∷ []) ∷ [];
  help = ("ping", pinger.feature_name ∷ other_pinger.feature_name ∷ []) ∷ [];
}

replaced : new_cmds_mapping executors ≡ some mapping
unfolding new_cmds_mapping lookup insert
replaced = refl

find_fn_iff_example :
    (find_fn mapping "ping" "" ≡ some (some "second"))
    ↔ (latest "ping" "" (registrations executors) none ≡ some "second")
find_fn_iff_example = find_fn_iff "ping" "" executors mapping "second" replaced

abbrev flags : Flags
flags = record {
  clean_cmd = "kubectl get pods";
  filter = "";
  cluster_name = "";
  tokenized_cmd = "kubectl" ∷ "get" ∷ "pods" ∷ [];
  cmd_header = "";
}

-- A command "'" cannot be read, and every other but the status of source bindings is read as the same.
abbrev outside : Outside String
outside = record {
  no_message = "";
  sanitize_command = λ text. text;
  parse_flags = λ text.
      if text == "'"
      then none
      else some (
          if text == "status sourcebindings"
          then record flags { tokenized_cmd = "status" ∷ "sourcebindings" ∷ [] }
          else flags);
  to_lower = λ text. text;
  help = λ ctx. message "help";
  execute_plugin = λ ctx. message "pods";
  plugin_help = λ ctx. some "plugin help";
  help_error = λ ctx. "";
  command_prefix = λ args. "kubectl get";
  help_message_for_verb = λ verb. "";
  internal_error = λ ctx. "";
}

-- The status of source bindings is the empty message, as where none is bound.
abbrev builtins : CommandMapping (CommandContext → Outcome String)
builtins = record {
  commands = ("status", ("sourcebindings", λ ctx. message "") ∷ []) ∷ [];
  help = [];
}

abbrev known : Conversation
known = record { executor_bindings = "tools" ∷ []; is_known = true }

abbrev unknown : Conversation
unknown = record { executor_bindings = "tools" ∷ []; is_known = false }

-- A command that cannot be read is answered in any conversation.
unreadable : (execute outside config builtins unknown "'").0 ≡ cannot_parse
unfolding execute
unreadable = refl

-- No plugin handles the status of source bindings, and the empty message is sent.
empty_status :
    ((execute outside config builtins known "status sourcebindings").0 ≡ plain "")
    × (can_handle config.executors known.executor_bindings ("status" ∷ "sourcebindings" ∷ [])
        ≡ false)
unfolding execute can_handle lookup decompose_plugin_key cut get_enabled_plugins enabled_for
    enabled_in
empty_status = (refl, refl)

execute_silent_example :
    ((f : Flags)
      → flags_of outside config builtins "status sourcebindings" ≡ some f
      → ((known.is_known ≡ false) ⊎ ((f.tokenized_cmd ≢ []) × IsForOther outside config builtins f)
          → execute outside config builtins known "status sourcebindings" ≡ (plain "", []))
        × (known.is_known ≡ true
            → (f.tokenized_cmd ≡ []) ⊎ ¬ IsForOther outside config builtins f
            → (execute outside config builtins known "status sourcebindings").0 ≡ plain ""
            → SentBy outside config builtins known
                (context outside config builtins "status sourcebindings" f)))
    × (flags_of outside config builtins "status sourcebindings" ≡ none
        → execute outside config builtins known "status sourcebindings" ≡ (cannot_parse, []))
execute_silent_example = execute_silent outside config builtins known "status sourcebindings"

abbrev two_groups : Dict Executors
two_groups =
    ("on", record { display_name = ""; plugins = ("botkube/helm", plugin true) ∷ [] })
    ∷ ("off", record { display_name = ""; plugins = ("botkube/helm", plugin false) ∷ [] })
    ∷ []

enabled-executors_for_bindings_example :
    get_or_zero false "botkube/helm" (executors_for_bindings two_groups ("on" ∷ "off" ∷ []))
    ≡ some_group_enables "botkube/helm" two_groups ("on" ∷ "off" ∷ [])
enabled-executors_for_bindings_example =
    enabled-executors_for_bindings "botkube/helm" two_groups ("on" ∷ "off" ∷ [])

-- The table of executors keeps the plugin enabled, and that of sources shows what the last group says.
enabled_executor :
    executors_for_bindings two_groups ("on" ∷ "off" ∷ []) ≡ ("botkube/helm", true) ∷ []
unfolding executors_for_bindings lookup insert
enabled_executor = refl

abbrev two_source_groups : Dict Sources
two_source_groups =
    ("on", record { display_name = ""; plugins = ("botkube/kubernetes", plugin true) ∷ [] })
    ∷ ("off", record { display_name = ""; plugins = ("botkube/kubernetes", plugin false) ∷ [] })
    ∷ []

disabled_source :
    sources_for_bindings two_source_groups ("on" ∷ "off" ∷ []) ≡ ("botkube/kubernetes", false) ∷ []
unfolding sources_for_bindings lookup insert
disabled_source = refl

-- An alias of a longer word is not one of the executor.
listed_aliases :
    list_for_executor_prefix "botkube/kubectl" (
      ("kgp", alias)
      ∷ ("kx", record { command = "kubectlx"; display_name = "" })
      ∷ ("k", record { command = "kubectl"; display_name = "" })
      ∷ [])
    ≡ "k" ∷ "kgp" ∷ []
unfolding list_for_executor_with_fn executor_name_for_key strip_prefix cut sort insert_sorted
listed_aliases = refl
