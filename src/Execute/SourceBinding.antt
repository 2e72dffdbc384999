-- ===== src/Execute/SourceBinding.antt =====
-- pkg/execute/sourcebinding.go: reading and editing the sources that a conversation is bound to. A
-- message is the data that its text is made of.
pub mod Edits
use Prim.Native.Char.{code}
use botkube.Base.{
  ℕ, String, Bool, true, false, Option, none, some, List, [], ◌∷◌, ◌++◌, ◌==◌, Dict, lookup, has,
  nat_eq, if◌then◌else◌, select,
}
use botkube.Base.Text.{split, sort}
use botkube.Config.{
  CommPlatformIntegration, BotBindings, ChannelBindingsByName, ChannelBindingsById, Communications,
  Sources, Config, cloud_slack, socket_slack, mattermost, discord,
}

-- The executor: the display names of the sources, and the configuration.
pub record SourceBindingExecutor : Type 0 where
  pub sources : Dict String
  pub cfg : Config

-- The loop of `NewSourceBindingExecutor`; the keys of the configuration are distinct.
unfoldable pub normalized_sources : Dict Sources → Dict String
normalized_sources [] = []
normalized_sources ((key, item) ∷ sources) =
    (key, if item.display_name == "" then key else item.display_name) ∷ normalized_sources sources

-- `NewSourceBindingExecutor`
abbrev pub new_source_binding_executor : Config → SourceBindingExecutor
unfolding normalized_sources
new_source_binding_executor cfg = record { sources = normalized_sources cfg.sources; cfg = cfg }

-- The loop over the channels of a platform: the sources of the first with the identifier.
unfoldable pub sources_of_channel :
    {T : Type 0} → (T → String) → (T → BotBindings) → String → Dict T → List String
sources_of_channel identifier bindings conversation_id [] = []
sources_of_channel identifier bindings conversation_id ((k, channel) ∷ channels) =
    let rest = sources_of_channel identifier bindings conversation_id channels in
    if identifier channel == conversation_id then (bindings channel).sources else rest

abbrev pub sources_by_name : String → Dict ChannelBindingsByName → List String
unfolding sources_of_channel
sources_by_name conversation_id channels =
    sources_of_channel (λ c. c.name) (λ c. c.bindings) conversation_id channels

-- The `switch` of `currentlySelectedOptions`, on a communication group.
unfoldable pub selected_in : CommPlatformIntegration → String → Communications → List String
unfolding sources_by_name
selected_in platform conversation_id comms =
    if platform == cloud_slack
    then sources_by_name conversation_id comms.cloud_slack.channels
    else if platform == socket_slack
    then sources_by_name conversation_id comms.socket_slack.channels
    else if platform == mattermost
    then sources_by_name conversation_id comms.mattermost.channels
    else if platform == discord
    then sources_by_name conversation_id comms.mattermost.channels
    else []

-- `currentlySelectedOptions`; a group that is missing has no channels.
unfoldable pub currently_selected_options :
    SourceBindingExecutor → String → CommPlatformIntegration → String → List String
unfolding selected_in
currently_selected_options e comm_group_name platform conversation_id =
    elim (lookup comm_group_name e.cfg.communications) [
      | none ↦ []
      | some comms ↦ selected_in platform conversation_id comms
    ]

-- `strings.ReplaceAll(s, c, "")`, at one character.
unfoldable pub remove_char : ℕ → String → String
remove_char c String.[] = String.[]
remove_char c (String.◌∷◌ d s) =
    let rest = remove_char c s in if nat_eq (code d) c then rest else String.◌∷◌ d rest

-- The items of one argument: without spaces, backquotes and line ends, split at commas.
abbrev pub items_of : String → List String
unfolding remove_char
items_of item =
    select (λ i. if i == "" then false else true)
      (split 0x2c (remove_char 0x0a (remove_char 0x60 (remove_char 0x20 item))))

-- `normalizeSourceItems`; `remove_quotation_marks` is none for an error.
unfoldable pub normalize_source_items :
    (String → Option String) → List String → Option (List String)
unfolding items_of
normalize_source_items remove_quotation_marks [] = some []
normalize_source_items remove_quotation_marks (arg ∷ args) =
    let rest = normalize_source_items remove_quotation_marks args in
    elim (remove_quotation_marks arg) [
      | none ↦ none
      | some item ↦ elim rest [ none ↦ none | some out ↦ some (items_of item ++ out) ]
    ]

-- `getUnknownInputSourceBindings`
unfoldable pub get_unknown_input_source_bindings : Dict String → List String → List String
get_unknown_input_source_bindings sources [] = []
get_unknown_input_source_bindings sources (item ∷ items) =
    let rest = get_unknown_input_source_bindings sources items in
    elim (lookup item sources) [ none ↦ item ∷ rest | some _ ↦ rest ]

-- `mapToDisplayNames`; a missing key has the empty name.
unfoldable pub map_to_display_names : Dict String → List String → List String
map_to_display_names sources [] = []
map_to_display_names sources (key ∷ keys) =
    elim (lookup key sources) [ none ↦ "" | some name ↦ name ] ∷ map_to_display_names sources keys

-- An `OptionItem`.
pub record OptionItem : Type 0 where
  pub name : String
  pub value : String

-- `mapToOptions`
unfoldable pub map_to_options : Dict String → List String → List OptionItem
map_to_options sources [] = []
map_to_options sources (key ∷ keys) =
    let rest = map_to_options sources keys in
    elim (lookup key sources) [
      | none ↦ rest
      | some name ↦ record { name = name; value = key } ∷ rest
    ]

-- What `Edit` answers: an error, the text that no source is configured, the choice of sources, the
-- unknown sources, or the sources that were stored, with who did it and whether the agent reloads.
pub data Edited : Type 0 where
  invalid_command normalizing_failed persisting_failed no_sources_configured : Edited
  choose : (options : List String) (selected : List OptionItem) → Edited
  unknown_sources : List String → Edited
  edited : (user : String) (names : List String) (reloads : Bool) → Edited

-- The conversation's place: the group, the platform, the alias and identifier of the channel.
pub record Place : Type 0 where
  pub comm_group_name : String
  pub platform : CommPlatformIntegration
  pub channel_alias : String
  pub conversation_id : String

abbrev pub value_keys : Dict String → List String
value_keys [] = []
value_keys ((k, _) ∷ sources) = k ∷ value_keys sources

-- `removeQuotationMarks`, and whether `PersistSourceBindings` succeeds.
module _ (remove_quotation_marks : String → Option String) (persists : List String → Bool) where
  -- What `editSourceBindingHandler` does with the sources that it is given: the answer, and the
  -- sources that it hands to the storage.
  unfoldable pub edit_bindings :
      SourceBindingExecutor → Place → String → List String → Edited × List (List String)
  unfolding get_unknown_input_source_bindings map_to_display_names map_to_options
      currently_selected_options
  edit_bindings e place user_id [] =
      let selected =
        currently_selected_options e place.comm_group_name place.platform place.conversation_id in
      elim (sort (value_keys e.sources)) [
        | [] ↦ (no_sources_configured, [])
        | o ∷ os ↦ (choose (o ∷ os) (map_to_options e.sources selected), [])
      ]
  edit_bindings e place user_id (b ∷ bs) =
      elim (get_unknown_input_source_bindings e.sources (b ∷ bs)) [
        | u ∷ us ↦ (unknown_sources (u ∷ us), [])
        | [] ↦ (
          if persists (b ∷ bs)
              then edited (if user_id == "" then "Anonymous" else user_id)
                  (map_to_display_names e.sources (b ∷ bs)) e.cfg.config_watcher_enabled
              else persisting_failed,
          (b ∷ bs) ∷ [],
        )
      ]

  -- `Edit`
  unfoldable pub edit :
      SourceBindingExecutor → Place → String → List String → Edited × List (List String)
  unfolding normalize_source_items edit_bindings
  edit e place user_id [] = (invalid_command, [])
  edit e place user_id (_ ∷ []) = (invalid_command, [])
  edit e place user_id (_ ∷ _ ∷ cmd_args) =
      elim (normalize_source_items remove_quotation_marks cmd_args) [
        | none ↦ (normalizing_failed, [])
        | some bindings ↦ edit_bindings e place user_id bindings
      ]
