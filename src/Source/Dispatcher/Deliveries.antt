-- ===== src/Source/Dispatcher/Deliveries.antt =====
-- Which bots internal/source/dispatcher.go sends an event to.
use botkube.Base.{
  ◌≡◌, ◌↔◌, inl, inr, refl, List, [], ◌∷◌, ◌++◌, In, In-append, arith, if◌then◌else◌, Bool-cases,
}
use botkube.Config.{CommPlatformIntegration, is_interactive}
use botkube.Base.Adds.{Adds, Adds-none, Adds-then, Adds-map, Adds-empty}
use botkube.Source.Scheduler.{PluginDispatch}
use botkube.Source.Dispatcher.{
  Dispatcher, sort_notifiers, new_dispatcher, get_bot_notifiers, get_sink_notifiers,
}

append-Adds : {B : Type 0} (x n : B) (xs : List B) → Adds (In x xs) (In x (xs ++ n ∷ [])) (x ≡ n)
append-Adds x n xs =
    let (to, from) = In-append x xs (n ∷ []) in
    (
      λ i. elim (to i) [ inl j ↦ inl j | inr j ↦ elim j [ inl e ↦ inr e | inr k ↦ absurd k ] ],
      λ h. from (elim h [ inl j ↦ inl j | inr e ↦ inr (inl e) ]),
    )

module _ {B : Type 0} (integration_name : B → CommPlatformIntegration) (x : B)
    (dispatch : PluginDispatch) where
  -- The bot stands in the list, and is interactive exactly where the dispatch is.
  abbrev pub IsServed : List B → Type 0
  IsServed notifiers =
      In x notifiers × (is_interactive (integration_name x) ≡ dispatch.is_interactivity_supported)

  -- The bots that a dispatch is sent to, with one more in its list.
  add_notifier-Adds :
      {K : Type 0} (n : B) (d : Dispatcher B K)
      → Adds
          (In x (get_bot_notifiers dispatch d))
          (In x (
            get_bot_notifiers dispatch (
              if is_interactive (integration_name n)
              then record d { interactive_notifiers = d.interactive_notifiers ++ n ∷ [] }
              else record d { markdown_notifiers = d.markdown_notifiers ++ n ∷ [] })))
          ((x ≡ n) × (is_interactive (integration_name n) ≡ dispatch.is_interactivity_supported))
  unfolding get_bot_notifiers
  add_notifier-Adds n d = elim (Bool-cases (is_interactive (integration_name n))) [
    | inl i ↦ elim (Bool-cases dispatch.is_interactivity_supported) [
      | inl b ↦
          rw i
            (rw b (Adds-map (λ e. (e, refl)) (λ h. h.0) (append-Adds x n d.interactive_notifiers)))
      | inr b ↦ rw i (rw b (Adds-none (λ h. absurd cc)))
    ]
    | inr i ↦ elim (Bool-cases dispatch.is_interactivity_supported) [
      | inl b ↦ rw i (rw b (Adds-none (λ h. absurd cc)))
      | inr b ↦
          rw i (rw b (Adds-map (λ e. (e, refl)) (λ h. h.0) (append-Adds x n d.markdown_notifiers)))
    ]
  ]

  sort_notifiers-Adds :
      {K : Type 0} (notifiers : List B) (d : Dispatcher B K)
      → Adds
          (In x (get_bot_notifiers dispatch d))
          (In x (get_bot_notifiers dispatch (sort_notifiers integration_name notifiers d)))
          (IsServed notifiers)
  unfolding sort_notifiers
  sort_notifiers-Adds [] d = Adds-none (λ h. h.0)
  sort_notifiers-Adds (n ∷ notifiers) d =
      Adds-map (λ h. elim h [ inl (e, s) ↦ (inl e, rw e s) | inr (i, s) ↦ (inr i, s) ])
        (λ (i, s). elim i [ inl e ↦ inl (e, rw⁻¹ e s) | inr j ↦ inr (j, s) ])
        (Adds-then (add_notifier-Adds n d) (sort_notifiers-Adds notifiers _))

  no_bots :
      {K : Type 0} (sinks : List K)
      → ¬ In x (
          get_bot_notifiers dispatch (record {
            markdown_notifiers = [];
            interactive_notifiers = [];
            sink_notifiers = sinks;
          }))
  unfolding get_bot_notifiers
  no_bots sinks h = elim (Bool-cases dispatch.is_interactivity_supported) [
    | inl b ↦ absurd (ground (arith, b, h))
    | inr b ↦ absurd (ground (arith, b, h))
  ]

  sort_notifiers-sinks :
      {K : Type 0} (notifiers : List B) (d : Dispatcher B K)
      → (sort_notifiers integration_name notifiers d).sink_notifiers ≡ d.sink_notifiers
  unfolding sort_notifiers
  sort_notifiers-sinks [] d = refl
  sort_notifiers-sinks (n ∷ notifiers) d = elim (Bool-cases (is_interactive (integration_name n))) [
    | inl i ↦ rw (i, sort_notifiers) (sort_notifiers-sinks notifiers _)
    | inr i ↦ rw (i, sort_notifiers) (sort_notifiers-sinks notifiers _)
  ]

  -- A dispatch is sent to exactly the bots of the dispatcher that are interactive where the dispatch
  -- is and are not where it is not, and to the sinks only where it is not interactive.
  pub IsServed-iff-new_dispatcher :
      {K : Type 0} (notifiers : List B) (sinks : List K)
      → let d = new_dispatcher integration_name notifiers sinks in
        (In x (get_bot_notifiers dispatch d) ↔ IsServed notifiers)
        × (get_sink_notifiers dispatch d
            ≡ (if dispatch.is_interactivity_supported then [] else sinks))
  unfolding new_dispatcher get_sink_notifiers
  IsServed-iff-new_dispatcher notifiers sinks = (
    Adds-empty (no_bots sinks) (sort_notifiers-Adds notifiers _),
    rw (sort_notifiers-sinks notifiers) refl,
  )
