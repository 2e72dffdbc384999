-- ===== src/Kube/Handle/Leak.antt =====
-- How the sources of one event depend on each other in `handleEventFn`.
use botkube.Base.{
  String, ◌≡◌, refl, ◌∙◌, Bool, true, false, Option, none, some, List, [], ◌∷◌, arith, Dict, lookup,
  if◌then◌else◌, Option-cases, inl, inr, ◌≢◌,
}
use botkube.Kube.Config.{Recommendations}
use botkube.Kube.Event.{Event}
use botkube.Kube.Recommend.{should_ignore_event}
use botkube.Kube.Checks.{Recommendation}
use botkube.Kube.Runner.{do_all}
use botkube.Kube.Filter.{FilterEngine, run}
use botkube.Kube.Handle.{SourceConfig, handle_sources}

-- No filter engine of the store takes a skip back.
abbrev pub KeepSkips : Dict SourceConfig → Type 0
KeepSkips store =
    (key : String) (src : SourceConfig) (engine : FilterEngine) (e : Event)
    → lookup key store ≡ some src
    → src.active ≡ some engine
    → e.skip ≡ true
    → (run engine e).skip ≡ true

-- The filter engines of the store leave the event as it is.
abbrev pub LeaveAlone : Dict SourceConfig → Event → Type 0
LeaveAlone store e =
    (key : String) (src : SourceConfig) (engine : FilterEngine)
    → lookup key store ≡ some src
    → src.active ≡ some engine
    → run engine e ≡ e

-- Every source has settings for recommendations.
abbrev pub Configured : Dict SourceConfig → Type 0
Configured store =
    (key : String) (src : SourceConfig)
    → lookup key store ≡ some src
    → src.cfg.recommendations ≢ none

module _ (checks : Recommendations → List Recommendation) (builds_message : Event → Bool) where
  sent-unknown :
      (store : Dict SourceConfig) (e : Event) (key : String) (sources : List String)
      → lookup key store ≡ none
      → (handle_sources checks builds_message store e (key ∷ sources)).sent
        ≡ (handle_sources checks builds_message store e sources).sent
  unfolding handle_sources
  sent-unknown store e key sources h = ground arith

  sent-inactive :
      (store : Dict SourceConfig) (e : Event) (key : String) (sources : List String)
      (src : SourceConfig)
      → lookup key store ≡ some src
      → src.active ≡ none
      → (handle_sources checks builds_message store e (key ∷ sources)).sent
        ≡ (handle_sources checks builds_message store e sources).sent
  unfolding handle_sources
  sent-inactive store e key sources src h a = ground arith

  sent-skipped :
      (store : Dict SourceConfig) (e : Event) (key : String) (sources : List String)
      (src : SourceConfig) (engine : FilterEngine)
      → lookup key store ≡ some src
      → src.active ≡ some engine
      → (run engine e).skip ≡ true
      → (handle_sources checks builds_message store e (key ∷ sources)).sent
        ≡ (handle_sources checks builds_message store (run engine e) sources).sent
  unfolding handle_sources
  sent-skipped store e key sources src engine h a s = ground arith

  skipped-sends_none :
      (store : Dict SourceConfig) (e : Event) (sources : List String)
      → KeepSkips store
      → e.skip ≡ true
      → (handle_sources checks builds_message store e sources).sent ≡ []
  skipped-sends_none store e [] keep s = unfold handle_sources in refl
  skipped-sends_none store e (key ∷ sources) keep s = elim (Option-cases (lookup key store)) [
    | inl h ↦ sent-unknown store e key sources h ∙ skipped-sends_none store e sources keep s
    | inr (src, h) ↦ elim (Option-cases src.active) [
      | inl a ↦
          sent-inactive store e key sources src h a ∙ skipped-sends_none store e sources keep s
      | inr (engine, a) ↦
          let t = keep key src engine e h a s in
          sent-skipped store e key sources src engine h a t
          ∙ skipped-sends_none store (run engine e) sources keep t
    ]
  ]

  -- Where the filters of one source skip the event, no source after it is sent anything, whatever
  -- its own filters: the filtered event is the one that the loop goes on with. The engines of the
  -- store are those that do not take a skip back.
  pub skip-stops_others :
      (store : Dict SourceConfig) (e : Event) (key : String) (sources : List String)
      (src : SourceConfig) (engine : FilterEngine)
      → KeepSkips store
      → lookup key store ≡ some src
      → src.active ≡ some engine
      → (run engine e).skip ≡ true
      → (handle_sources checks builds_message store e (key ∷ sources)).sent ≡ []
  skip-stops_others store e key sources src engine keep h a s =
      sent-skipped store e key sources src engine h a s
      ∙ skipped-sends_none store (run engine e) sources keep s

  -- What one source is sent of an event that its filters leave alone, given its entry in the store.
  abbrev after_checks : Recommendations → Event × Bool → Option Event
  after_checks rec_cfg (copy, true) = none
  after_checks rec_cfg (copy, false) =
      if should_ignore_event (some rec_cfg) copy
      then none
      else if builds_message copy
      then some copy
      else none

  abbrev pub delivery : Option SourceConfig → Event → Option Event
  delivery none e = none
  delivery (some src) e = elim src.active [
    | none ↦ none
    | some engine ↦ elim src.cfg.recommendations [
      | none ↦ none
      | some rec_cfg ↦ after_checks rec_cfg (do_all (checks rec_cfg) e)
    ]
  ]

  -- The deliveries of the sources, each on its own.
  abbrev pub deliveries : Dict SourceConfig → Event → List String → List (String × Event)
  deliveries store e [] = []
  deliveries store e (key ∷ sources) =
      let rest = deliveries store e sources in
      elim (delivery (lookup key store) e) [ none ↦ rest | some copy ↦ (key, copy) ∷ rest ]

  sent-active :
      (store : Dict SourceConfig) (e : Event) (key : String) (sources : List String)
      (src : SourceConfig) (engine : FilterEngine) (rec_cfg : Recommendations)
      → lookup key store ≡ some src
      → src.active ≡ some engine
      → src.cfg.recommendations ≡ some rec_cfg
      → run engine e ≡ e
      → e.skip ≡ false
      → (handle_sources checks builds_message store e sources).sent ≡ deliveries store e sources
      → (handle_sources checks builds_message store e sources).panicked ≡ false
      → ((handle_sources checks builds_message store e (key ∷ sources)).sent
          ≡ deliveries store e (key ∷ sources))
        × ((handle_sources checks builds_message store e (key ∷ sources)).panicked ≡ false)
  unfolding handle_sources
  sent-active store e key sources src engine rec_cfg h a r f s ih p = (ground arith, ground arith)

  -- Where the filters leave an event alone that is not to be skipped, and every source has settings
  -- for recommendations, the handler does not panic, and every source is sent what it would be sent
  -- alone: an error of one source, or its missing configuration, changes nothing for the others.
  pub sent-independent :
      (store : Dict SourceConfig) (e : Event) (sources : List String)
      → LeaveAlone store e
      → Configured store
      → e.skip ≡ false
      → ((handle_sources checks builds_message store e sources).sent ≡ deliveries store e sources)
        × ((handle_sources checks builds_message store e sources).panicked ≡ false)
  unfolding handle_sources
  sent-independent store e [] alone conf s = (refl, refl)
  sent-independent store e (key ∷ sources) alone conf s =
      let (ih, p) = sent-independent store e sources alone conf s in
      elim (Option-cases (lookup key store)) [
        | inl h ↦ (ground arith, ground arith)
        | inr (src, h) ↦ elim (Option-cases src.active) [
          | inl a ↦ (ground arith, ground arith)
          | inr (engine, a) ↦ elim (Option-cases src.cfg.recommendations) [
            | inl n ↦ absurd (conf key src h n)
            | inr (rec_cfg, r) ↦
                sent-active store e key sources src engine rec_cfg h a r (alone key src engine h a)
                  s ih p
          ]
        ]
      ]
