-- ===== src/Kube/Router/Events.antt =====
-- The event types that `mergeResourceEvents` of router.go collects for a resource.
use botkube.Base.{
  String, ◌≡◌, refl, sym, ◌∙◌, ap, ◌⊎◌, inl, inr, some, List, [], ◌∷◌, ◌==◌, eq_iff, arith, Dict,
  lookup, insert, get_or_zero, In, Bool-cases, keys,
}
use mathlib.Core.Path.{subst}
use botkube.Kube.Config.{EventType, Resource, Config}
use botkube.Kube.Recommend.{resource_events_for_config}
use botkube.Kube.Router.{
  EventSet, flatten_event_types, add_events, merge_resources, merge_recommendations,
  merge_resource_events,
}
use botkube.Kube.Router.Sources.{Wants}

-- The event type stands among the events of the resource.
abbrev pub Asked : String → EventType → Dict EventSet → Type 0
Asked resource e out = (events : EventSet) × In (resource, events) out × In e (keys events)

keys-insert :
    {A : Type 0} (e k : String) (v : A) (m : Dict A) → In e (keys m) → In e (keys (insert k v m))
unfolding insert
keys-insert e k v [] i = absurd i
keys-insert e k v ((j, w) ∷ m) i = ground (arith, eq_iff j k, keys-insert e k v m)

keys-inserted : {A : Type 0} (k : String) (v : A) (m : Dict A) → In k (keys (insert k v m))
unfolding insert
keys-inserted k v [] = inl refl
keys-inserted k v ((j, w) ∷ m) = ground (arith, keys-inserted k v m)

add_events-keep :
    (e : EventType) (es : List EventType) (set : EventSet)
    → In e (keys set)
    → In e (keys (add_events es set))
unfolding add_events
add_events-keep e [] set i = i
add_events-keep e (k ∷ es) set i = add_events-keep e es (insert k tt set) (keys-insert e k tt set i)

add_events-add :
    (e : EventType) (es : List EventType) (set : EventSet)
    → In e es
    → In e (keys (add_events es set))
unfolding add_events
add_events-add e [] set i = absurd i
add_events-add e (k ∷ es) set (inl p) =
    add_events-keep e es (insert k tt set)
      (subst (λ z. In z (keys (insert k tt set))) (sym p) (keys-inserted k tt set))
add_events-add e (k ∷ es) set (inr j) = add_events-add e es (insert k tt set) j

In-inserted : {A : Type 0} (k : String) (v : A) (m : Dict A) → In (k, v) (insert k v m)
unfolding insert
In-inserted k v [] = inl refl
In-inserted k v ((j, w) ∷ m) = elim (Bool-cases (j == k)) [
  | inl t ↦ rw t (inl refl)
  | inr n ↦ rw n (inr (In-inserted k v m))
]

-- The entries of an association list outlive an update, but for the one that it replaces.
In-insert :
    {A : Type 0} (j k : String) (w v : A) (m : Dict A)
    → In (j, w) m
    → In (j, w) (insert k v m) ⊎ ((j ≡ k) × (lookup k m ≡ some w))
unfolding insert lookup
In-insert j k w v [] i = absurd i
In-insert j k w v ((l, x) ∷ m) i = elim (Bool-cases (l == k)) [
  | inl t ↦ rw t (elim i [
    | inl p ↦ inr (ap (λ z. z.0) p ∙ (eq_iff l k).0 t, ap some (sym (ap (λ z. z.1) p)))
    | inr q ↦ inl (inr q)
  ])
  | inr n ↦ rw n (elim i [
    | inl p ↦ inl (inl p)
    | inr q ↦ elim (In-insert j k w v m q) [ inl a ↦ inl (inr a) | inr b ↦ inr b ]
  ])
]

zero-of-found :
    (k : String) (v : EventSet) (m : Dict EventSet) → lookup k m ≡ some v → get_or_zero [] k m ≡ v
zero-of-found k v m h = ground arith

insert-Asked :
    (resource k : String) (e : EventType) (v : EventSet) (m : Dict EventSet)
    → (In e (keys (get_or_zero [] k m)) → In e (keys v))
    → Asked resource e m
    → Asked resource e (insert k v m)
insert-Asked resource k e v m grows (events, i, j) = elim (In-insert resource k events v m i) [
  | inl a ↦ (events, a, j)
  | inr (p, f) ↦ (
    v,
    subst (λ z. In (z, v) (insert k v m)) (sym p) (In-inserted k v m),
    grows (subst (λ z. In e (keys z)) (sym (zero-of-found k events m f)) j),
  )
]

inserted-Asked :
    (k : String) (e : EventType) (v : EventSet) (m : Dict EventSet)
    → In e (keys v)
    → Asked k e (insert k v m)
inserted-Asked k e v m i = (v, In-inserted k v m, i)

module _ (resource : String) (e : EventType) where
  resources-keep :
      (cfg : Config) (rs : List Resource) (out : Dict EventSet)
      → Asked resource e out
      → Asked resource e (merge_resources cfg rs out)
  unfolding merge_resources
  resources-keep cfg [] out a = a
  resources-keep cfg (r ∷ rs) out a =
      let set = get_or_zero [] r.type out in
      let types = flatten_event_types cfg.event.types r.event.types in
      resources-keep cfg rs (insert r.type (add_events types set) out)
        (insert-Asked resource r.type e (add_events types set) out (add_events-keep e types set) a)

  resources-add :
      (cfg : Config) (rs : List Resource) (out : Dict EventSet) (q : Resource)
      → In q rs
      → resource ≡ q.type
      → In e (flatten_event_types cfg.event.types q.event.types)
      → Asked resource e (merge_resources cfg rs out)
  unfolding merge_resources
  resources-add cfg [] out q i t k = absurd i
  resources-add cfg (r ∷ rs) out q i t k =
      let set = get_or_zero [] r.type out in
      let types = flatten_event_types cfg.event.types r.event.types in
      let out' = insert r.type (add_events types set) out in
      elim i [
        | inl p ↦ resources-keep cfg rs out' (
            subst (λ z. Asked z e out') (sym (t ∙ ap (λ (z : Resource). z.type) p))
              (inserted-Asked r.type e (add_events types set) out (
                add_events-add e types set
                  (subst (λ z. In e (flatten_event_types cfg.event.types z.event.types)) p k))))
        | inr j ↦ resources-add cfg rs out' q j t k
      ]

  recommendations-keep :
      (recs : Dict EventType) (out : Dict EventSet)
      → Asked resource e out
      → Asked resource e (merge_recommendations recs out)
  unfolding merge_recommendations
  recommendations-keep [] out a = a
  recommendations-keep ((k, v) ∷ recs) out a =
      let set = get_or_zero [] k out in
      recommendations-keep recs (insert k (insert v tt set) out)
        (insert-Asked resource k e (insert v tt set) out (keys-insert e v tt set) a)

  recommendations-add :
      (recs : Dict EventType) (out : Dict EventSet)
      → lookup resource recs ≡ some e
      → Asked resource e (merge_recommendations recs out)
  unfolding merge_recommendations lookup
  recommendations-add [] out f = cc
  recommendations-add ((k, v) ∷ recs) out f =
      let set = get_or_zero [] k out in
      elim (Bool-cases (k == resource)) [
        | inl t ↦ recommendations-keep recs (insert k (insert v tt set) out) (
            subst (λ z. Asked z e (insert k (insert v tt set) out)) ((eq_iff k resource).0 t)
              (inserted-Asked k e (insert v tt set) out (
                subst (λ z. In z (keys (insert v tt set))) (ground arith)
                  (keys-inserted v tt set))))
        | inr n ↦ recommendations-add recs (insert k (insert v tt set) out) (ground arith)
      ]

  merged-keep :
      (cfgs : Dict Config) (out : Dict EventSet)
      → Asked resource e out
      → Asked resource e (merge_resource_events cfgs out)
  unfolding merge_resource_events
  merged-keep [] out a = a
  merged-keep ((name, cfg) ∷ cfgs) out a =
      let recs = resource_events_for_config cfg.recommendations in
      merged-keep cfgs (merge_recommendations recs (merge_resources cfg cfg.resources out)) (
        recommendations-keep recs (merge_resources cfg cfg.resources out)
          (resources-keep cfg cfg.resources out a))

  wanted-Asked :
      (cfg : Config) (out : Dict EventSet)
      → Wants cfg resource e
      → Asked resource e (
          merge_recommendations
            (resource_events_for_config cfg.recommendations)
            (merge_resources cfg cfg.resources out))
  wanted-Asked cfg out (inl (r, i, t, k)) =
      recommendations-keep (resource_events_for_config cfg.recommendations)
        (merge_resources cfg cfg.resources out) (resources-add cfg cfg.resources out r i t k)
  wanted-Asked cfg out (inr f) =
      recommendations-add (resource_events_for_config cfg.recommendations)
        (merge_resources cfg cfg.resources out) f

  pub merged-add :
      (cfgs : Dict Config) (out : Dict EventSet) (s : String) (cfg : Config)
      → In (s, cfg) cfgs
      → Wants cfg resource e
      → Asked resource e (merge_resource_events cfgs out)
  unfolding merge_resource_events
  merged-add [] out s cfg i w = absurd i
  merged-add ((name, c) ∷ cfgs) out s cfg i w =
      let out' =
        merge_recommendations (resource_events_for_config c.recommendations)
          (merge_resources c c.resources out) in
      elim i [
        | inl p ↦
            merged-keep cfgs out'
              (wanted-Asked c out (subst (λ z. Wants z resource e) (ap (λ z. z.1) p) w))
        | inr j ↦ merged-add cfgs out' s cfg j w
      ]
