-- ===== src/Kube/Match/Spec.antt =====
-- What `matchEvent` promises: the sources of the routes that accept the event.
use botkube.Base.{
  String, ◌≡◌, refl, ◌↔◌, ◌∙◌, ap, inl, inr, Bool, Option, List, [], ◌∷◌, arith, In, All,
}
use mathlib.Core.Path.{subst}
use botkube.Kube.Event.{Event, Route}
use botkube.Kube.Match.{pass, skip, check_route, match_event}
use botkube.Kube.Match.Meets.{
  Accepts, RouteCompiles, Decides, Decides-then, Decides-map, check_value-Decides, labels-Decides,
  reason-Decides, message-Decides, namespace-Decides,
}

module _ (match_string : String → String → Option Bool) where
  -- The tests of the loop body together.
  check_route-Decides :
      (rt : Route) (e : Event)
      → RouteCompiles match_string rt
      → Decides match_string (check_route match_string rt e) (Accepts match_string rt e)
  unfolding check_route
  check_route-Decides rt e c =
      Decides-map match_string (check_route match_string rt e)
        (λ h. record {
          reason = h.0.0.0.0;
          message = h.0.0.0.1;
          name = h.0.0.1;
          namespace = h.0.1;
          annotations = h.1.0;
          labels = h.1.1;
        })
        (λ a. ((((a.reason, a.message), a.name), a.namespace), (a.annotations, a.labels)))
        (Decides-then match_string _ _
          (Decides-then match_string _ _
            (Decides-then match_string _ _
              (Decides-then match_string _ _ (reason-Decides match_string rt.event e.reason c.0)
                (message-Decides match_string rt.event e.messages c.0))
              (check_value-Decides match_string rt.resource_name e.name c.1))
            (namespace-Decides match_string rt.namespaces e.namespace c.2))
          (labels-Decides match_string rt e))

  abbrev Meaning : List Route → Event → Type 0
  Meaning routes e =
      ((match_event match_string routes e).1 ≡ [])
      × ((source : String)
          → In source (match_event match_string routes e).0
            ↔ ((rt : Route) × In rt routes × (source ≡ rt.source) × Accepts match_string rt e))

  sources-accepted :
      (rt : Route) (routes : List Route) (e : Event)
      → check_route match_string rt e ≡ pass []
      → match_event match_string (rt ∷ routes) e
        ≡ (rt.source ∷ (match_event match_string routes e).0, (match_event match_string routes e).1)
  unfolding match_event
  sources-accepted rt routes e h = ground arith

  sources-ignored :
      (rt : Route) (routes : List Route) (e : Event)
      → check_route match_string rt e ≡ skip []
      → match_event match_string (rt ∷ routes) e ≡ match_event match_string routes e
  unfolding match_event
  sources-ignored rt routes e h = ground arith

  match_event-cons :
      (rt : Route) (routes : List Route) (e : Event)
      → Decides match_string (check_route match_string rt e) (Accepts match_string rt e)
      → Meaning routes e
      → Meaning (rt ∷ routes) e
  match_event-cons rt routes e (inl (p, a)) (clean, iff) = rw (sources-accepted rt routes e p) (
    clean,
    λ s. (
      λ i. elim i [
        | inl q ↦ (rt, inl refl, q, a)
        | inr j ↦ let (r, k, q, b) = (iff s).0 j in (r, inr k, q, b)
      ],
      λ (r, k, q, b). elim k [
        | inl x ↦ inl (q ∙ ap (λ (t : Route). t.source) x)
        | inr j ↦ inr ((iff s).1 (r, j, q, b))
      ],
    ),
  )
  match_event-cons rt routes e (inr (p, n)) (clean, iff) = rw (sources-ignored rt routes e p) (
    clean,
    λ s. (
      λ i. let (r, k, q, b) = (iff s).0 i in (r, inr k, q, b),
      λ (r, k, q, b). elim k [
        | inl x ↦ absurd (n (subst (λ t. Accepts match_string t e) x b))
        | inr j ↦ (iff s).1 (r, j, q, b)
      ],
    ),
  )

  -- Where the patterns of all routes compile, `matchEvent` returns no error, and the sources of
  -- exactly those routes that accept the event.
  pub match_event_iff :
      (routes : List Route) (e : Event)
      → All (RouteCompiles match_string) routes
      → ((match_event match_string routes e).1 ≡ [])
        × ((source : String)
            → In source (match_event match_string routes e).0
              ↔ ((rt : Route) × In rt routes × (source ≡ rt.source) × Accepts match_string rt e))
  match_event_iff [] e c = unfold match_event in (refl, λ s. (λ i. absurd i, λ h. h.1))
  match_event_iff (rt ∷ routes) e (c, cs) =
      match_event-cons rt routes e (check_route-Decides rt e c) (match_event_iff routes e cs)
