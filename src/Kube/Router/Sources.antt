-- ===== src/Kube/Router/Sources.antt =====
-- Which sources the loops of router.go add to the routes of an event type.
use botkube.Base.{
  String, ◌≡◌, refl, sym, ◌∙◌, ap, ◌⊎◌, inl, inr, true, false, none, some, List, [], ◌∷◌, ◌++◌,
  ◌==◌, eq_iff, arith, Dict, lookup, insert, get_or_zero, In, Bool-cases, ne_of_test, Option-cases,
}
use mathlib.Core.Path.{subst}
use botkube.Base.Adds.{Adds, Adds-none, Adds-then, Adds-map}
use botkube.Kube.Config.{EventType, Resource, Config}
use botkube.Kube.Event.{Route}
use botkube.Kube.Recommend.{resource_events_for_config}
use botkube.Kube.Router.{
  flatten_event_types, route_for, append_route, add_routes, add_resources, override_route,
  set_event_route_for_recommendations_if_should, merge_event_routes,
}
use botkube.Kube.Router.Routes.{insert-Adds, sources_of, sources-append, Has}

append_route-Has :
    (s : String) (e k : EventType) (rt : Route) (out : Dict (List Route))
    → Adds (Has s e out) (Has s e (append_route k rt out)) ((k ≡ e) × In s (rt.source ∷ []))
unfolding append_route
append_route-Has s e k rt out =
    insert-Adds (λ rs. In s (sources_of rs)) (In s (rt.source ∷ [])) k e
      (get_or_zero [] k out ++ rt ∷ []) out (sources-append s (get_or_zero [] k out) (rt ∷ []))

module _ (resource source : String) (cfg : Config) (s : String) (e : EventType) where
  add_routes-Has :
      (r : Resource) (es : List EventType) (out : Dict (List Route))
      → Adds
          (Has s e out)
          (Has s e (add_routes resource source cfg r es out))
          ((resource ≡ r.type) × In e es × (s ≡ source))
  unfolding add_routes route_for
  add_routes-Has r [] out = Adds-none (λ h. h.1)
  add_routes-Has r (k ∷ es) out = elim (Bool-cases (resource == r.type)) [
    | inl t ↦ rw t (
        Adds-map
          (λ h. elim h [
            | inl a ↦ (
              (eq_iff resource r.type).0 t,
              inl (sym a.0),
              elim a.1 [ inl q ↦ q | inr n ↦ absurd n ],
            )
            | inr b ↦ (b.0, inr b.1, b.2)
          ])
          (λ h. elim h.1 [ inl q ↦ inl (sym q, inl h.2) | inr i ↦ inr (h.0, i, h.2) ])
          (Adds-then (append_route-Has s e k (route_for source cfg r k) out)
            (add_routes-Has r es (append_route k (route_for source cfg r k) out))))
    | inr n ↦ rw n (
        Adds-map (λ h. (h.0, inr h.1, h.2)) (λ h. absurd (ne_of_test resource r.type n h.0))
          (add_routes-Has r es out))
  ]

  add_resources-Has :
      (resources : List Resource) (out : Dict (List Route))
      → Adds (Has s e out) (Has s e (add_resources resource source cfg resources out)) (
          ((r : Resource) × In r resources
            × (resource ≡ r.type)
            × In e (flatten_event_types cfg.event.types r.event.types))
          × (s ≡ source))
  unfolding add_resources
  add_resources-Has [] out = Adds-none (λ h. h.0.1)
  add_resources-Has (r ∷ resources) out =
      let types = flatten_event_types cfg.event.types r.event.types in
      Adds-map
        (λ h. elim h [
          | inl a ↦ ((r, inl refl, a.0, a.1), a.2)
          | inr b ↦ ((b.0.0, inr b.0.1, b.0.2, b.0.3), b.1)
        ])
        (λ ((q, i, t, k), p). elim i [
          | inl x ↦ inl (
              subst
                (λ z.
                  (resource ≡ z.type)
                  × In e (flatten_event_types cfg.event.types z.event.types)
                  × (s ≡ source))
                x (t, k, p))
          | inr j ↦ inr ((q, j, t, k), p)
        ])
        (Adds-then (add_routes-Has r types out)
          (add_resources-Has resources (add_routes resource source cfg r types out)))

override-here :
    (source : String) (cfg : Config) (r : Route) (routes : List Route)
    → (r.source == source) ≡ true
    → sources_of (override_route source cfg (r ∷ routes)) ≡ source ∷ sources_of routes
unfolding override_route
override-here source cfg r routes h = ground arith

override-there :
    (source : String) (cfg : Config) (r : Route) (routes : List Route)
    → (r.source == source) ≡ false
    → sources_of (override_route source cfg (r ∷ routes))
      ≡ r.source ∷ sources_of (override_route source cfg routes)
unfolding override_route
override-there source cfg r routes h = ground arith

override_route-sources :
    (s source : String) (cfg : Config) (routes : List Route)
    → Adds
        (In s (sources_of routes))
        (In s (sources_of (override_route source cfg routes)))
        (s ≡ source)
unfolding override_route
override_route-sources s source cfg [] = (
  λ i. elim i [ inl e ↦ inr e | inr n ↦ absurd n ],
  λ h. elim h [ inl n ↦ absurd n | inr e ↦ inl e ],
)
override_route-sources s source cfg (r ∷ routes) = elim (Bool-cases (r.source == source)) [
  | inl t ↦
      let p = (eq_iff r.source source).0 t in
      rw (override-here source cfg r routes t) (
        λ i. elim i [ inl q ↦ inr q | inr j ↦ inl (inr j) ],
        λ h. elim h [ inl i ↦ elim i [ inl q ↦ inl (q ∙ p) | inr j ↦ inr j ] | inr q ↦ inl q ],
      )
  | inr n ↦
      let (to, from) = override_route-sources s source cfg routes in
      rw (override-there source cfg r routes n) (
        λ i. elim i [
          | inl q ↦ inl (inl q)
          | inr j ↦ elim (to j) [ inl k ↦ inl (inr k) | inr q ↦ inr q ]
        ],
        λ h. elim h [
          | inl i ↦ elim i [ inl q ↦ inl q | inr j ↦ inr (from (inl j)) ]
          | inr q ↦ inr (from (inr q))
        ],
      )
]

recommend-none :
    (recs : Dict EventType) (source resource : String) (cfg : Config) (out : Dict (List Route))
    → lookup resource recs ≡ none
    → set_event_route_for_recommendations_if_should recs source resource cfg out ≡ out
unfolding set_event_route_for_recommendations_if_should
recommend-none recs source resource cfg out h = ground arith

recommend-some :
    (recs : Dict EventType) (source resource : String) (cfg : Config) (out : Dict (List Route))
    (k : EventType)
    → lookup resource recs ≡ some k
    → set_event_route_for_recommendations_if_should recs source resource cfg out
      ≡ insert k (override_route source cfg (get_or_zero [] k out)) out
unfolding set_event_route_for_recommendations_if_should
recommend-some recs source resource cfg out k h = ground arith

recommendations-Has :
    (recs : Dict EventType) (source resource : String) (cfg : Config) (s : String) (e : EventType)
    (out : Dict (List Route))
    → Adds
        (Has s e out)
        (Has s e (set_event_route_for_recommendations_if_should recs source resource cfg out))
        ((lookup resource recs ≡ some e) × (s ≡ source))
recommendations-Has recs source resource cfg s e out = elim (Option-cases (lookup resource recs)) [
  | inl f ↦ rw (recommend-none recs source resource cfg out f) (Adds-none (λ h. cc (f, h.0)))
  | inr (k, f) ↦ rw (recommend-some recs source resource cfg out k f) (
      Adds-map (λ h. (f ∙ ap some h.0, h.1)) (λ h. (cc (f, h.0), h.1))
        (insert-Adds (λ rs. In s (sources_of rs)) (s ≡ source) k e
          (override_route source cfg (get_or_zero [] k out)) out
          (override_route-sources s source cfg (get_or_zero [] k out))))
]

-- The configuration asks for the event type of the resource, itself or through a recommendation.
abbrev pub Wants : Config → String → EventType → Type 0
Wants cfg resource e =
    ((r : Resource) × In r cfg.resources
      × (resource ≡ r.type)
      × In e (flatten_event_types cfg.event.types r.event.types))
    ⊎ (lookup resource (resource_events_for_config cfg.recommendations) ≡ some e)

pub merge_event_routes-Has :
    (resource s : String) (e : EventType) (cfgs : Dict Config) (out : Dict (List Route))
    → Adds
        (Has s e out)
        (Has s e (merge_event_routes resource cfgs out))
        ((cfg : Config) × In (s, cfg) cfgs × Wants cfg resource e)
unfolding merge_event_routes
merge_event_routes-Has resource s e [] out = Adds-none (λ h. h.1)
merge_event_routes-Has resource s e ((source, cfg) ∷ cfgs) out =
    let recs = resource_events_for_config cfg.recommendations in
    let added = add_resources resource source cfg cfg.resources out in
    Adds-map
      (λ h. elim h [
        | inl a ↦ elim a [
          | inl x ↦ (cfg, inl (ap (λ z. (z, cfg)) x.1), inl x.0)
          | inr y ↦ (cfg, inl (ap (λ z. (z, cfg)) y.1), inr y.0)
        ]
        | inr b ↦ (b.0, inr b.1, b.2)
      ])
      (λ (c, i, w). elim i [
        | inl p ↦ inl (elim (subst (λ z. Wants z resource e) (ap (λ z. z.1) p) w) [
          | inl x ↦ inl (x, ap (λ z. z.0) p)
          | inr y ↦ inr (y, ap (λ z. z.0) p)
        ])
        | inr j ↦ inr (c, j, w)
      ])
      (Adds-then
        (Adds-then (add_resources-Has resource source cfg s e cfg.resources out)
          (recommendations-Has recs source resource cfg s e added))
        (merge_event_routes-Has resource s e cfgs
          (set_event_route_for_recommendations_if_should recs source resource cfg added)))
