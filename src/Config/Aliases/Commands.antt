-- ===== src/Config/Aliases/Commands.antt =====
-- When the checks of aliases and channels in pkg/config/validator.go have nothing to report.
use botkube.Base.{
  String, ◌≡◌, ◌≢◌, ◌↔◌, ◌⊎◌, inl, inr, refl, Bool, true, false, [], ◌∷◌, ◌++◌, ◌==◌, Dict, In,
  In-append, All, contains, if◌then◌else◌, arith, eq_iff,
}
use mathlib.Core.Path.{subst}
use botkube.Base.Adds.{contains_iff}
use botkube.Config.{Alias, Executors, Config}
use botkube.Config.Keys.{collect_command_prefixes, cut_or_all}
use botkube.Config.Aliases.{
  FieldReport, invalid_alias_command, all_verbs, executor_prefixes, space, validate_alias,
  validate_identifiers, validate_channels,
}

-- The name of some plugin of some executor, enabled or not.
abbrev pub NamesPlugin : String → Dict Executors → Type 0
NamesPlugin prefix executors =
    (name : String) × (exec : Executors) × In (name, exec) executors
    × In prefix (collect_command_prefixes exec.plugins)

executor_prefixes_iff :
    (prefix : String) (executors : Dict Executors)
    → In prefix (executor_prefixes executors) ↔ NamesPlugin prefix executors
unfolding executor_prefixes
executor_prefixes_iff prefix [] = (λ i. absurd i, λ h. absurd (h.2))
executor_prefixes_iff prefix ((name, exec) ∷ executors) =
    let (split, join) =
      In-append prefix (collect_command_prefixes exec.plugins) (executor_prefixes executors) in
    let (to, from) = executor_prefixes_iff prefix executors in
    (
      λ i. elim (split i) [
        | inl j ↦ (name, exec, inl refl, j)
        | inr j ↦ let (n, e, k, l) = to j in (n, e, inr k, l)
      ],
      λ (n, e, k, l). join (elim k [
        | inl same ↦ inl (
            subst (λ (q : String × Executors). In prefix (collect_command_prefixes q.1.plugins))
              same l)
        | inr m ↦ inr (from (n, e, m, l))
      ]),
    )

unless-nil :
    (blank known : Bool) (r : FieldReport)
    → ((if blank then [] else if known then [] else r ∷ []) ≡ [])
      ↔ ((blank ≡ true) ⊎ (known ≡ true))
unless-nil true known r = (λ _. inl refl, λ _. refl)
unless-nil false true r = (λ _. inr refl, λ _. refl)
unless-nil false false r = (λ h. absurd cc, λ h. elim h [ inl e ↦ absurd cc | inr e ↦ absurd cc ])

-- An alias is accepted exactly if its command is empty, or starts with the name of a plugin of some
-- executor or with a verb of the bot.
pub validate_alias_iff :
    (conf : Config) (alias : Alias)
    → let prefix = (cut_or_all space alias.command).0 in
      (validate_alias conf alias ≡ [])
      ↔ ((alias.command ≡ "") ⊎ (NamesPlugin prefix conf.executors ⊎ In prefix all_verbs))
unfolding validate_alias
validate_alias_iff conf alias =
    let prefix = (cut_or_all space alias.command).0 in
    let known = contains_iff (executor_prefixes conf.executors ++ all_verbs) prefix in
    let split = In-append prefix (executor_prefixes conf.executors) all_verbs in
    let named = executor_prefixes_iff prefix conf.executors in
    let checked =
      unless-nil (alias.command == "")
        (contains (executor_prefixes conf.executors ++ all_verbs) prefix)
        (invalid_alias_command prefix) in
    (
      λ h. elim (checked.0 h) [
        | inl e ↦ inl ((eq_iff alias.command "").0 e)
        | inr c ↦ inr (elim (split.0 (known.0 c)) [ inl i ↦ inl (named.0 i) | inr i ↦ inr i ])
      ],
      λ h. checked.1 (elim h [
        | inl e ↦ inl ((eq_iff alias.command "").1 e)
        | inr k ↦ inr (known.1 (split.1 (elim k [ inl n ↦ inl (named.1 n) | inr i ↦ inr i ])))
      ]),
    )

module _ {T : Type 0} (normalize : String → String) (matches : String → Bool)
    (identifier : T → String) (should_normalize : Bool) (field : String) where
  -- The channel has an identifier that fits the platform's pattern.
  abbrev pub Fits : String × T → Type 0
  Fits c =
      (identifier c.1 ≢ "")
      × (matches (if should_normalize then normalize (identifier c.1) else identifier c.1) ≡ true)

  validate_identifiers_iff :
      (channels : Dict T)
      → (validate_identifiers normalize matches identifier should_normalize field channels ≡ [])
        ↔ All Fits channels
  unfolding validate_identifiers
  validate_identifiers_iff [] = (λ _. tt, λ _. refl)
  validate_identifiers_iff ((name, channel) ∷ channels) =
      ground (arith, validate_identifiers_iff channels, eq_iff (identifier channel) "")

  -- The channels of a platform are accepted exactly if there is one, and each has an identifier that
  -- fits the platform's pattern, trimmed first where the platform asks for it.
  pub validate_channels_iff :
      (channels : Dict T)
      → (validate_channels normalize matches identifier should_normalize field channels ≡ [])
        ↔ ((channels ≢ []) × All Fits channels)
  unfolding validate_channels
  validate_channels_iff [] = (λ h. absurd cc, λ h. absurd (h.0 refl))
  validate_channels_iff (c ∷ channels) =
      let (to, from) = validate_identifiers_iff (c ∷ channels) in
      (λ h. (λ e. absurd cc, to h), λ h. from h.1)
