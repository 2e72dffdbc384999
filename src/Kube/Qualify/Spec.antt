-- ===== src/Kube/Qualify/Spec.antt =====
-- Which sources an update reaches, and what an invalid pattern costs.
use botkube.Base.{
  String, ◌≡◌, refl, ◌≢◌, ◌↔◌, ◌∙◌, ◌⊎◌, inl, inr, Bool, true, false, Option, none, some, List, [],
  ◌∷◌, ◌++◌, arith, ◌==◌, eq_iff, In, All, In-append, ne_of_test, Bool-cases, if◌then◌else◌,
}
use mathlib.Core.Path.{subst}
use botkube.Kube.Config.{UpdateSetting, update_event}
use botkube.Kube.Event.{Event, Route, has_actionable_update_setting}
use botkube.Kube.Allowed.{MatchError}
use botkube.Kube.Match.Meets.{Accepts, RouteCompiles}
use botkube.Kube.Match.Spec.{match_event_iff}
use botkube.Kube.Match.{Check, pass, skip, check_route, match_event}
use botkube.Kube.Qualify.{qualify_routes, qualify_event_for_update, handle_event}

module _ (diff : UpdateSetting → String) where
  -- The route lets an update through: it names no fields, or one of them differs.
  abbrev pub Qualifies : Route → Type 0
  Qualifies rt =
      (has_actionable_update_setting rt ≡ false)
      ⊎ ((u : UpdateSetting) × (rt.update_setting ≡ some u) × (diff u ≢ ""))

  abbrev Someone : List Route → Type 0
  Someone routes = (rt : Route) × In rt routes × Qualifies rt

  actionable-setting :
      (rt : Route)
      → has_actionable_update_setting rt ≡ true
      → (u : UpdateSetting) × (rt.update_setting ≡ some u)
  unfolding has_actionable_update_setting
  actionable-setting rt h = ground arith

  routes-always :
      (source : String) (rt : Route) (routes : List Route)
      → has_actionable_update_setting rt ≡ false
      → (qualify_routes diff source (rt ∷ routes)).0
        ≡ source ∷ (qualify_routes diff source routes).0
  unfolding qualify_routes
  routes-always source rt routes h = ground arith

  routes-by_diff :
      (source : String) (rt : Route) (routes : List Route) (u : UpdateSetting)
      → has_actionable_update_setting rt ≡ true
      → rt.update_setting ≡ some u
      → (qualify_routes diff source (rt ∷ routes)).0 ≡ (
          if diff u == ""
          then (qualify_routes diff source routes).0
          else source ∷ (qualify_routes diff source routes).0)
  unfolding qualify_routes
  routes-by_diff source rt routes u h e = ground arith

  -- One route either reports the candidate once and lets the update through, or does neither.
  abbrev Step : String → Route → List Route → Type 0
  Step source rt routes =
      (((qualify_routes diff source (rt ∷ routes)).0
          ≡ source ∷ (qualify_routes diff source routes).0)
        × Qualifies rt)
      ⊎ (((qualify_routes diff source (rt ∷ routes)).0 ≡ (qualify_routes diff source routes).0)
          × (¬ Qualifies rt))

  routes-cons : (source : String) (rt : Route) (routes : List Route) → Step source rt routes
  routes-cons source rt routes = elim (Bool-cases (has_actionable_update_setting rt)) [
    | inl h ↦
        let (u, e) = actionable-setting rt h in
        elim (Bool-cases (diff u == "")) [
          | inl d ↦ inr (
            routes-by_diff source rt routes u h e ∙ (rw d),
            λ q. elim q [ inl f ↦ cc (h, f) | inr w ↦ w.2 (cc (w.1, e, (eq_iff (diff u) "").0 d)) ],
          )
          | inr d ↦
              inl (
                routes-by_diff source rt routes u h e ∙ (rw d),
                inr (u, e, ne_of_test (diff u) "" d),
              )
        ]
    | inr h ↦ inl (routes-always source rt routes h, inl h)
  ]

  routes_iff :
      (source : String) (routes : List Route) (s : String)
      → In s (qualify_routes diff source routes).0 ↔ ((s ≡ source) × Someone routes)
  routes_iff source [] s = unfold qualify_routes in (λ i. absurd i, λ h. h.1.1)
  routes_iff source (rt ∷ routes) s = elim (routes-cons source rt routes) [
    | inl (e, q) ↦ rw e (
      λ i. elim i [
        | inl f ↦ (f, (rt, inl refl, q))
        | inr j ↦ let (f, (r, k, p)) = (routes_iff source routes s).0 j in (f, (r, inr k, p))
      ],
      λ h. inl h.0,
    )
    | inr (e, n) ↦ rw e (
      λ j. let (f, (r, k, p)) = (routes_iff source routes s).0 j in (f, (r, inr k, p)),
      λ (f, (r, k, p)). elim k [
        | inl x ↦ absurd (n (subst Qualifies x p))
        | inr j ↦ (routes_iff source routes s).1 (f, (r, j, p))
      ],
    )
  ]

  candidates-cons :
      (routes : List Route) (c : String) (candidates : List String)
      → (qualify_event_for_update diff routes (c ∷ candidates)).0
        ≡ (qualify_routes diff c routes).0 ++ (qualify_event_for_update diff routes candidates).0
  unfolding qualify_event_for_update
  candidates-cons routes c candidates = refl

  -- After an update a candidate source is kept exactly if some route of the resource lets the update
  -- through, be it a route of that source or of another one.
  pub qualify_for_update_iff :
      (routes : List Route) (candidates : List String) (s : String)
      → In s (qualify_event_for_update diff routes candidates).0
        ↔ (In s candidates × ((rt : Route) × In rt routes × Qualifies rt))
  qualify_for_update_iff routes [] s = unfold qualify_event_for_update in (λ i. absurd i, λ h. h.0)
  qualify_for_update_iff routes (c ∷ candidates) s =
      let (inner_to, inner_from) = routes_iff c routes s in
      let (rest_to, rest_from) = qualify_for_update_iff routes candidates s in
      rw (candidates-cons _ _ _) (
        λ i.
            elim ((In-append s (qualify_routes diff c routes).0
                (qualify_event_for_update diff routes candidates).0).0
              i) [
                | inl j ↦ let (e, w) = inner_to j in (inl e, w)
                | inr j ↦ let (k, w) = rest_to j in (inr k, w)
              ],
        λ h.
            (In-append s (qualify_routes diff c routes).0
                (qualify_event_for_update diff routes candidates).0).1
              (elim h.0 [ inl e ↦ inl (inner_from (e, h.1)) | inr k ↦ inr (rest_from (k, h.1)) ]),
      )

module _ (diff : UpdateSetting → String) (match_string : String → String → Option Bool) where
  abbrev pub errors_of : Check → List MatchError
  errors_of (pass es) = es
  errors_of (skip es) = es

  errors-cons :
      (rt : Route) (routes : List Route) (e : Event)
      → (match_event match_string (rt ∷ routes) e).1
        ≡ errors_of (check_route match_string rt e) ++ (match_event match_string routes e).1
  unfolding match_event
  errors-cons rt routes e = ground arith

  append-ne-nil : (xs ys : List MatchError) → (xs ≢ []) ⊎ (ys ≢ []) → xs ++ ys ≢ []
  append-ne-nil [] ys (inl n) e = n refl
  append-ne-nil [] ys (inr n) e = n e
  append-ne-nil (x ∷ xs) ys h e = cc

  errors-append :
      (before after : List Route) (rt : Route) (e : Event)
      → errors_of (check_route match_string rt e) ≢ []
      → (match_event match_string (before ++ rt ∷ after) e).1 ≢ []
  errors-append [] after rt e h = rw errors-cons (append-ne-nil _ _ (inl h))
  errors-append (b ∷ before) after rt e h =
      rw errors-cons (append-ne-nil _ _ (inr (errors-append before after rt e h)))

  -- Where the test of one route appends an error, the handler notifies no source at all, not even
  -- those whose routes accept the event.
  pub handle_event_error :
      (before after : List Route) (rt : Route) (e : Event)
      → errors_of (check_route match_string rt e) ≢ []
      → handle_event diff match_string e (before ++ rt ∷ after) ≡ none
  handle_event_error before after rt e h =
      unfold handle_event in ground (arith, errors-append before after rt e h)

  -- The sources that the handler notifies.
  abbrev pub notified : Option (List String × List String) → List String
  notified none = []
  notified (some (sources, diffs)) = sources

  notified-handle_event :
      (e : Event) (routes : List Route)
      → (match_event match_string routes e).1 ≡ []
      → notified (handle_event diff match_string e routes) ≡ (
          if e.type == update_event
          then (qualify_event_for_update diff routes (match_event match_string routes e).0).0
          else (match_event match_string routes e).0)
  unfolding handle_event
  notified-handle_event e routes h = ground arith

  -- Where the patterns of all routes compile, the handler notifies exactly the sources with a route
  -- that accepts the event; for an update, none unless some route of the resource lets it through.
  pub handle_event_iff :
      (e : Event) (routes : List Route) (s : String)
      → All (RouteCompiles match_string) routes
      → In s (notified (handle_event diff match_string e routes)) ↔ (
          ((rt : Route) × In rt routes × (s ≡ rt.source) × Accepts match_string rt e)
          × (e.type ≡ update_event → (rt : Route) × In rt routes × Qualifies diff rt))
  handle_event_iff e routes s c =
      let (clean, matched) = match_event_iff match_string routes e c in
      let (to, from) = matched s in
      let update = qualify_for_update_iff diff routes (match_event match_string routes e).0 s in
      rw (notified-handle_event e routes clean) (elim (Bool-cases (e.type == update_event)) [
        | inl u ↦ rw u (
          λ i. let (j, w) = update.0 i in (to j, λ t. w),
          λ h. update.1 (from h.0, h.1 ((eq_iff e.type update_event).0 u)),
        )
        | inr n ↦
            rw n (λ i. (to i, λ t. absurd (ne_of_test e.type update_event n t)), λ h. from h.0)
      ])
