-- ===== src/Execute/SourceBinding/Edits.antt =====
-- What pkg/execute/sourcebinding.go stores, and what it reads for Discord.
use botkube.Base.{
  nil_cases, sym, ◌∙◌, String, ◌≡◌, ◌≢◌, ◌↔◌, ◌⊎◌, inl, inr, refl, Bool, Option, none, some, List,
  [], ◌∷◌, Dict, lookup, arith, Option-cases,
}
use botkube.Base.Text.{sort}
use botkube.Config.{discord, mattermost, Communications}
use botkube.Execute.SourceBinding.{
  SourceBindingExecutor, Place, get_unknown_input_source_bindings, edit, edit_bindings,
  normalize_source_items, selected_in, value_keys,
}

not_empty : {A : Type 0} (x : A) (xs : List A) → x ∷ xs ≡ [] → ⊥
not_empty x xs e = absurd cc

-- Every name is a source.
abbrev pub AreSources : Dict String → List String → Type 0
AreSources sources [] = Unit
AreSources sources (s ∷ names) = (lookup s sources ≢ none) × AreSources sources names

unknown-nil :
    (sources : Dict String) (names : List String)
    → (get_unknown_input_source_bindings sources names ≡ []) ↔ AreSources sources names
unfolding get_unknown_input_source_bindings
unknown-nil sources [] = (λ _. tt, λ _. refl)
unknown-nil sources (s ∷ names) = elim (Option-cases (lookup s sources)) [
  | inl e ↦ ground (arith, e, unknown-nil sources names)
  | inr (v, e) ↦ ground (arith, e, unknown-nil sources names)
]

module _ (remove_quotation_marks : String → Option String) (persists : List String → Bool) where
  stored_bindings :
      (e : SourceBindingExecutor) (place : Place) (user_id : String) (bindings : List String)
      → let stored = (edit_bindings remove_quotation_marks persists e place user_id bindings).1 in
        ((bindings ≢ []) → AreSources e.sources bindings → stored ≡ bindings ∷ [])
        × ((bindings ≡ []) ⊎ ¬ AreSources e.sources bindings → stored ≡ [])
  unfolding edit_bindings
  stored_bindings e place user_id [] = (
    λ n. absurd (n refl),
    λ _. elim (nil_cases (sort (value_keys e.sources))) [
      | inl o ↦ ground (arith, o)
      | inr (x, xs, o) ↦ ground (arith, o)
    ],
  )
  stored_bindings e place user_id (b ∷ bs) =
      let known = unknown-nil e.sources (b ∷ bs) in
      elim (nil_cases (get_unknown_input_source_bindings e.sources (b ∷ bs))) [
        | inl u ↦ (
          λ _ _. rw (u, edit_bindings) refl,
          λ h. absurd (elim h [ inl z ↦ not_empty b bs z | inr bad ↦ bad (known.0 u) ]),
        )
        | inr (x, xs, u) ↦
            (λ _ s. absurd (not_empty x xs (sym u ∙ known.1 s)), λ _. rw (u, edit_bindings) refl)
      ]

  -- The command hands to the storage exactly the sources that its arguments name, and only if there
  -- are some and all of them are sources of the configuration.
  pub stored-edit :
      (e : SourceBindingExecutor) (place : Place) (user_id verb feature : String)
      (args bindings : List String)
      → normalize_source_items remove_quotation_marks args ≡ some bindings
      → let stored =
          (edit remove_quotation_marks persists e place user_id (verb ∷ feature ∷ args)).1 in
        ((bindings ≢ []) → AreSources e.sources bindings → stored ≡ bindings ∷ [])
        × ((bindings ≡ []) ⊎ ¬ AreSources e.sources bindings → stored ≡ [])
  unfolding edit
  stored-edit e place user_id verb feature args bindings n =
      rw (n, edit) (stored_bindings e place user_id bindings)

-- In a group, the sources that are shown as selected for a Discord channel are those of the
-- Mattermost channel with that identifier.
pub discord-selected_in :
    (conversation_id : String) (comms : Communications)
    → selected_in discord conversation_id comms ≡ selected_in mattermost conversation_id comms
unfolding selected_in
discord-selected_in conversation_id comms = refl
