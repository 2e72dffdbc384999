-- ===== src/Kube/Router/Table.antt =====
-- What `BuildTable` of router.go promises: the sources that an event of a resource is routed to.
use botkube.Base.{
  String, ◌≡◌, sym, ap, ◌↔◌, inl, inr, true, false, List, [], ◌∷◌, ◌++◌, ◌==◌, eq_iff, arith, Dict,
  get_or_zero, In, Bool-cases, keys, ne_of_test, lookup, insert,
}
use mathlib.Core.Path.{subst}
use botkube.Base.Adds.{Adds, Adds-none, Adds-then, Adds-map}
use botkube.Kube.Config.{EventType, Config}
use botkube.Kube.Event.{Route}
use botkube.Kube.Router.{
  EventSet, Entry, Table, merge_resource_events, merge_event_routes, add_entries, build_loop,
  build_table, entry_routes, event_routes,
}
use botkube.Kube.Router.Routes.{insert-Adds, sources_of, sources-append, Has}
use botkube.Kube.Router.Sources.{Wants, merge_event_routes-Has}
use botkube.Kube.Router.Events.{Asked, merged-add}

entry_routes-hit :
    (en : Entry) (es : List Entry) (e : EventType)
    → (en.event == e) ≡ true
    → entry_routes (en ∷ es) e ≡ en.routes ++ entry_routes es e
unfolding entry_routes
entry_routes-hit en es e h = ground arith

entry_routes-miss :
    (en : Entry) (es : List Entry) (e : EventType)
    → (en.event == e) ≡ false
    → entry_routes (en ∷ es) e ≡ entry_routes es e
unfolding entry_routes
entry_routes-miss en es e h = ground arith

-- An entry at the end adds its sources under its own event type.
entry_routes-append :
    (s : String) (e : EventType) (en : Entry) (entries : List Entry)
    → Adds
        (In s (sources_of (entry_routes entries e)))
        (In s (sources_of (entry_routes (entries ++ en ∷ []) e)))
        ((e ≡ en.event) × In s (sources_of en.routes))
entry_routes-append s e en [] = elim (Bool-cases (en.event == e)) [
  | inl t ↦ rw (entry_routes-hit en [] e t) (
    λ i. elim ((sources-append s en.routes (entry_routes [] e)).0 i) [
      | inl j ↦ inr (sym ((eq_iff en.event e).0 t), j)
      | inr k ↦ inl k
    ],
    λ h.
        (sources-append s en.routes (entry_routes [] e)).1
          (elim h [ inl k ↦ inr k | inr m ↦ inl m.1 ]),
  )
  | inr n ↦ rw (entry_routes-miss en [] e n) (Adds-none (λ h. ne_of_test en.event e n (sym h.0)))
]
entry_routes-append s e en (x ∷ entries) =
    let (to, from) = entry_routes-append s e en entries in
    elim (Bool-cases (x.event == e)) [
      | inl t ↦
          let before = sources-append s x.routes (entry_routes entries e) in
          let after = sources-append s x.routes (entry_routes (entries ++ en ∷ []) e) in
          rw (entry_routes-hit x entries e t, entry_routes-hit x (entries ++ en ∷ []) e t)
            (
              λ i. elim (after.0 i) [
                | inl j ↦ inl (before.1 (inl j))
                | inr k ↦ elim (to k) [ inl l ↦ inl (before.1 (inr l)) | inr m ↦ inr m ]
              ],
              λ h. after.1 (elim h [
                | inl b ↦ elim (before.0 b) [ inl j ↦ inl j | inr k ↦ inr (from (inl k)) ]
                | inr m ↦ inr (from (inr m))
              ]),
            )
      | inr n ↦
          rw (entry_routes-miss x entries e n, entry_routes-miss x (entries ++ en ∷ []) e n)
            (to, from)
    ]

-- The table routes the event to the source.
abbrev pub Routed : String → String → EventType → Table → Type 0
Routed s resource e table = In s (sources_of (event_routes table resource e))

module _ (s resource : String) (e : EventType) where
  add_entries-Routed :
      (k : String) (routes : Dict (List Route)) (events : EventSet) (table : Table)
      → Adds
          (Routed s resource e table)
          (Routed s resource e (add_entries k routes events table))
          ((k ≡ resource) × In e (keys events) × Has s e routes)
  unfolding add_entries event_routes
  add_entries-Routed k routes [] table = Adds-none (λ h. h.1)
  add_entries-Routed k routes ((evt, t) ∷ events) table =
      let en : Entry = record { event = evt; routes = get_or_zero [] evt routes } in
      let entries = get_or_zero [] k table in
      Adds-map
        (λ h. elim h [
          | inl (p, (q, i)) ↦
              (p, inl q, subst (λ z. In s (sources_of (get_or_zero [] z routes))) (sym q) i)
          | inr (p, j, i) ↦ (p, inr j, i)
        ])
        (λ (p, j, i). elim j [
          | inl q ↦ inl (p, (q, subst (λ z. In s (sources_of (get_or_zero [] z routes))) q i))
          | inr l ↦ inr (p, l, i)
        ])
        (Adds-then
          (insert-Adds (λ es. In s (sources_of (entry_routes es e)))
            ((e ≡ evt) × In s (sources_of en.routes)) k resource (entries ++ en ∷ []) table
            (entry_routes-append s e en entries))
          (add_entries-Routed k routes events (insert k (entries ++ en ∷ []) table)))

  build_loop-Routed :
      (cfgs : Dict Config) (merged : Dict EventSet) (table : Table)
      → Adds
          (Routed s resource e table)
          (Routed s resource e (build_loop cfgs merged table))
          (Asked resource e merged × Has s e (merge_event_routes resource cfgs []))
  unfolding build_loop
  build_loop-Routed cfgs [] table = Adds-none (λ h. h.0.1)
  build_loop-Routed cfgs ((k, events) ∷ merged) table =
      let routes = merge_event_routes k cfgs [] in
      let has : String → Type 0 = λ z. Has s e (merge_event_routes z cfgs []) in
      Adds-map
        (λ h. elim h [
          | inl (p, j, i) ↦ ((events, inl (ap (λ z. (z, events)) (sym p)), j), subst has p i)
          | inr ((evs, m, j), i) ↦ ((evs, inr m, j), i)
        ])
        (λ ((evs, m, j), i). elim m [
          | inl q ↦
              let p = sym (ap (λ z. z.0) q) in
              inl (p, subst (λ z. In e (keys z.1)) q j, subst has (sym p) i)
          | inr n ↦ inr ((evs, n, j), i)
        ])
        (Adds-then (add_entries-Routed k routes events table)
          (build_loop-Routed cfgs merged (add_entries k routes events table)))

-- The table that `BuildTable` builds routes an event type of a resource to exactly those sources
-- whose configuration asks for it: by a resource of that type with the event type (its own or the
-- source's, `all` spelt out), or by an enabled recommendation.
pub build_table_iff :
    (cfgs : Dict Config) (s resource : String) (e : EventType)
    → In s (sources_of (event_routes (build_table cfgs) resource e))
      ↔ ((cfg : Config) × In (s, cfg) cfgs × Wants cfg resource e)
unfolding build_table lookup
build_table_iff cfgs s resource e =
    let loop = build_loop-Routed s resource e cfgs (merge_resource_events cfgs []) [] in
    let routes = merge_event_routes-Has resource s e cfgs [] in
    (
      λ i. elim (loop.0 i) [
        | inl n ↦ absurd (unfold event_routes in n)
        | inr m ↦ elim (routes.0 m.1) [ inl n ↦ absurd n | inr w ↦ w ]
      ],
      λ (cfg, i, w).
          loop.1 (inr (merged-add resource e cfgs [] s cfg i w, routes.1 (inr (cfg, i, w)))),
    )
