-- ===== src/Execute/Executor/Answers.antt =====
-- Which commands pkg/execute/executor.go answers.
use botkube.Base.{
  nil_cases, String, ◌≡◌, ◌≢◌, ◌↔◌, ◌⊎◌, inl, inr, refl, sym, ap, ◌∙◌, true, false, Option, none,
  some, List, [], ◌∷◌, arith, eq_iff, Bool-cases, Option-cases,
}
use botkube.Config.{Config}
use botkube.Execute.Alias.{expand_prefix}
use botkube.Execute.Mapping.{CommandMapping, find_fn}
use mathlib.Core.Path.{subst}
use botkube.Execute.Executor.{
  Conversation, Flags, CommandContext, Outcome, message, invalid_command, unsupported_command,
  other_error, execution_error, plain, cannot_parse, Outside, context_of, execute, second,
  get_install_help_for_known_plugin, execute_args, run_builtin, reply_of, can_handle,
  provided_cluster_name_equal_or_empty,
}

module _ {M : Type 0} (o : Outside M) (cfg : Config)
    (mapping : CommandMapping (CommandContext → Outcome M)) where
  -- The command that the flags leave of a message.
  abbrev pub flags_of : String → Option Flags
  flags_of text = o.parse_flags (expand_prefix (o.sanitize_command text) cfg.aliases)

  -- The command is for another cluster.
  abbrev pub IsForOther : Flags → Type 0
  IsForOther flags = (flags.cluster_name ≢ "") × (flags.cluster_name ≢ cfg.cluster_name)

  read :
      (conv : Conversation) (text : String) (flags : Flags)
      → flags_of text ≡ some flags
      → execute o cfg mapping conv text
        ≡ execute_args o cfg mapping conv
            (context_of o cfg mapping (expand_prefix (o.sanitize_command text) cfg.aliases) flags)
  unfolding execute execute_args
  read conv text flags e = rw (e, execute) refl

  -- The command is for this cluster or for any.
  abbrev IsForUs : CommandContext → Type 0
  IsForUs ctx = provided_cluster_name_equal_or_empty ctx ≡ true

  silent_args :
      (conv : Conversation) (ctx : CommandContext)
      → (conv.is_known ≡ false)
        ⊎ ((ctx.args ≢ []) × (provided_cluster_name_equal_or_empty ctx ≡ false))
      → execute_args o cfg mapping conv ctx ≡ (plain o.no_message, [])
  unfolding execute_args
  silent_args conv ctx h = elim (nil_cases ctx.args) [
    | inl n ↦ ground (arith, n, h)
    | inr (cmd, args, n) ↦ ground (arith, n, h)
  ]

  -- The bot's function for the command.
  abbrev pub BuiltinFor : List String → (CommandContext → Outcome M) → Type 0
  BuiltinFor [] fn = ⊥
  BuiltinFor (cmd_name ∷ args) fn =
      find_fn mapping (o.to_lower cmd_name) (second o cfg mapping args) ≡ some (some fn)

  plain_message : (a b : M) → plain a ≡ plain b → a ≡ b
  plain_message a b e = ap (λ r. elim r [ plain m ↦ m | _ ↦ a ]) e

  reply-empty :
      (ctx : CommandContext) (result : Outcome M)
      → reply_of o cfg mapping ctx result ≡ plain o.no_message
      → result ≡ message o.no_message
  unfolding reply_of
  reply-empty ctx (message m) h = ap message (plain_message m o.no_message h)
  reply-empty ctx invalid_command h = cc
  reply-empty ctx unsupported_command h = cc
  reply-empty ctx other_error h = cc
  reply-empty ctx (execution_error text) h = cc

  builtin_empty :
      (ctx : CommandContext) (cmd_name : String) (args : List String)
      → (run_builtin o cfg mapping ctx cmd_name args).0 ≡ plain o.no_message
      → (fn : CommandContext → Outcome M) × BuiltinFor (cmd_name ∷ args) fn
        × (fn ctx ≡ message o.no_message)
  unfolding run_builtin
  builtin_empty ctx cmd_name args h =
      elim (Option-cases (find_fn mapping (o.to_lower cmd_name) (second o cfg mapping args))) [
        | inl n ↦ absurd (ground (arith, n, h))
        | inr (none, f) ↦ absurd (ground (arith, f, h))
        | inr (some fn, f) ↦ (fn, f, reply-empty ctx (fn ctx) (ground (arith, f, h)))
      ]

  help_empty :
      (conv : Conversation) (ctx : CommandContext)
      → ctx.args ≡ []
      → conv.is_known ≡ true
      → (execute_args o cfg mapping conv ctx).0 ≡ plain o.no_message
      → o.help ctx ≡ message o.no_message
  unfolding execute_args
  help_empty conv ctx n k h = go (o.help ctx) refl
    where
      go : (r : Outcome M) → o.help ctx ≡ r → r ≡ message o.no_message
      go (message m) e = ap message (plain_message m o.no_message (ground (arith, n, k, e, h)))
      go invalid_command e = absurd (ground (arith, n, k, e, h))
      go unsupported_command e = absurd (ground (arith, n, k, e, h))
      go other_error e = absurd (ground (arith, n, k, e, h))
      go (execution_error text) e = absurd (ground (arith, n, k, e, h))

  -- Who sends the empty message in a conversation that is configured: a plugin handles the command, or
  -- the bot's help or its function for the command returns the empty message.
  abbrev pub SentBy : Conversation → CommandContext → Type 0
  SentBy conv ctx =
      (can_handle cfg.executors conv.executor_bindings ctx.args ≡ true)
      ⊎ (((ctx.args ≡ []) × (o.help ctx ≡ message o.no_message))
          ⊎ ((fn : CommandContext → Outcome M) × BuiltinFor ctx.args fn
              × (fn ctx ≡ message o.no_message)))

  answered_args :
      (conv : Conversation) (ctx : CommandContext)
      → conv.is_known ≡ true
      → (ctx.args ≡ []) ⊎ IsForUs ctx
      → (execute_args o cfg mapping conv ctx).0 ≡ plain o.no_message
      → SentBy conv ctx
  unfolding execute_args
  answered_args conv ctx k u h = elim (nil_cases ctx.args) [
    | inl n ↦ inr (inl (n, help_empty conv ctx n k h))
    | inr (cmd, args, n) ↦
        elim (Bool-cases (can_handle cfg.executors conv.executor_bindings (cmd ∷ args))) [
          | inl c ↦ inl (rw n c)
          | inr c ↦ elim (Option-cases (get_install_help_for_known_plugin cmd)) [
            | inr (text, g) ↦ absurd (ground (arith, n, k, u, h, c, g))
            | inl g ↦
                let (fn, f, e) = builtin_empty ctx cmd args (ground (arith, n, k, u, h, c, g)) in
                inr (inr (fn, subst (λ z. BuiltinFor z fn) (sym n) f, e))
          ]
        ]
  ]

  provided_iff :
      (ctx : CommandContext)
      → (provided_cluster_name_equal_or_empty ctx ≡ false)
        ↔ ((ctx.provided_cluster_name ≢ "") × (ctx.provided_cluster_name ≢ ctx.cluster_name))
  unfolding provided_cluster_name_equal_or_empty
  provided_iff ctx = ground (
    arith,
    eq_iff ctx.provided_cluster_name "",
    eq_iff ctx.provided_cluster_name ctx.cluster_name,
  )

  unread :
      (conv : Conversation) (text : String)
      → flags_of text ≡ none
      → execute o cfg mapping conv text ≡ (cannot_parse, [])
  unfolding execute
  unread conv text e = rw (e, execute) refl

  -- The context in which a message is executed.
  abbrev pub context : String → Flags → CommandContext
  context text = context_of o cfg mapping (expand_prefix (o.sanitize_command text) cfg.aliases)

  -- Where the flags of a message can be read: in a conversation that is not configured, or with the
  -- name of another cluster in front of a command, `Execute` returns the empty message and reports
  -- nothing. Otherwise it returns the empty message only if a plugin bound to the conversation handles
  -- the command, or the bot's help (for no command), or the bot's function for the command, returns the
  -- empty message itself. Where the flags cannot be read, every conversation gets the same text, be it
  -- configured or not.
  pub execute_silent :
      (conv : Conversation) (text : String)
      → ((flags : Flags)
          → flags_of text ≡ some flags
          → ((conv.is_known ≡ false) ⊎ ((flags.tokenized_cmd ≢ []) × IsForOther flags)
              → execute o cfg mapping conv text ≡ (plain o.no_message, []))
            × (conv.is_known ≡ true
                → (flags.tokenized_cmd ≡ []) ⊎ ¬ IsForOther flags
                → (execute o cfg mapping conv text).0 ≡ plain o.no_message
                → SentBy conv (context text flags)))
        × (flags_of text ≡ none → execute o cfg mapping conv text ≡ (cannot_parse, []))
  execute_silent conv text = (
    λ flags e.
        let ctx =
          context_of o cfg mapping (expand_prefix (o.sanitize_command text) cfg.aliases) flags in
        (
          λ h. rw (read conv text flags e) (
              silent_args conv ctx
                (elim h [ inl k ↦ inl k | inr (n, f) ↦ inr (n, (provided_iff ctx).1 f) ])),
          λ k u h.
              answered_args conv ctx k
                (elim u [ inl n ↦ inl n | inr f ↦ inr (ground (arith, provided_iff ctx, f)) ])
                (ap (λ r. r.0) (sym (read conv text flags e)) ∙ h),
        ),
    unread conv text,
  )
