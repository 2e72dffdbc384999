-- ===== src/Kube/Register/Handlers.antt =====
-- What the loops of router.go register for a resource, and which handlers they add.
use botkube.Base.{
  String, ◌≡◌, refl, sym, ◌∙◌, ap, inl, inr, Bool, true, false, none, some, List, [], ◌∷◌, ◌==◌,
  eq_iff, ◌≢◌, arith, Dict, lookup, insert, get_or_zero, lookup-insert, In, In-append, nat_eq,
  Bool-cases, Option-cases,
}
use mathlib.Core.Path.{subst}
use Prim.Native.Nat.{ℕ}
use Prim.Native.Char.{code}
use botkube.Base.Unique.{NoDup, NoDup-insert}
use botkube.Base.Text.{equal_fold, fold}
use botkube.Kube.Config.{EventType}
use botkube.Kube.Event.{Route}
use botkube.Kube.Router.{Entry, Table, event_routes, entry_routes}
use botkube.Kube.Router.Routes.{sources_of}
use botkube.Kube.Register.{
  Callback, callback_for, Registration, has_event, resources_with, resources_for_events, events_of,
  resource_events, register_loop, can_handle, can_handle_event, register_event_handler,
}

nat_eq_refl : (n : ℕ) → nat_eq n n ≡ true
nat_eq_refl n = ground arith

equal_fold_refl : (s : String) → equal_fold s s ≡ true
unfolding equal_fold
equal_fold_refl String.[] = refl
equal_fold_refl (String.◌∷◌ c s) = ground (arith, nat_eq_refl (fold (code c)), equal_fold_refl s)

pub some_value : {A : Type 0} (a b : A) → some a ≡ some b → a ≡ b
some_value a b e = cc

pub In-lookup : {A : Type 0} (k : String) (v : A) (m : Dict A) → lookup k m ≡ some v → In (k, v) m
unfolding lookup
In-lookup k v [] h = cc
In-lookup k v ((j, w) ∷ m) h = elim (Bool-cases (j == k)) [
  | inl t ↦ inl (cc ((eq_iff j k).0 t, some_value w v (ground arith)))
  | inr n ↦ inr (In-lookup k v m (ground arith))
]

-- An entry that contributes a route has the event type.
pub routed-event :
    (s : String) (entries : List Entry) (e : EventType)
    → In s (sources_of (entry_routes entries e))
    → has_event entries e ≡ true
unfolding has_event entry_routes
routed-event s [] e i = absurd i
routed-event s (x ∷ entries) e i = elim (Bool-cases (x.event == e)) [
  | inl t ↦ rw t refl
  | inr n ↦ rw n (routed-event s entries e (rw n at i))
]

with-In :
    (e : EventType) (resource : String) (entries : List Entry) (table : Table)
    → In (resource, entries) table
    → has_event entries e ≡ true
    → In resource (resources_with e table)
unfolding resources_with
with-In e resource entries [] i h = absurd i
with-In e resource entries ((r, es) ∷ table) i h = elim (Bool-cases (has_event es e)) [
  | inl t ↦ rw t (elim i [
    | inl p ↦ inl (ap (λ z. z.0) p)
    | inr j ↦ inr (with-In e resource entries table j h)
  ])
  | inr n ↦
      rw n (elim i [
        | inl p ↦ cc (ap (λ z. z.1) p, h, n)
        | inr j ↦ with-In e resource entries table j h
      ])
]

pub events-In :
    (e : EventType) (targets : List EventType) (resource : String) (table : Table)
    → In e targets
    → In resource (resources_with e table)
    → In resource (resources_for_events targets table)
unfolding resources_for_events
events-In e [] resource table i r = absurd i
events-In e (target ∷ targets) resource table i r =
    (In-append resource (resources_with target table) (resources_for_events targets table)).1
      (elim i [
        | inl p ↦ inl (subst (λ z. In resource (resources_with z table)) p r)
        | inr j ↦ inr (events-In e targets resource table j r)
      ])

abbrev pub registration_of : Table → String → Registration
registration_of table resource = record {
  events = resource_events table resource;
  mapped_resources = [];
  mapped_event = "";
}

module _ (informer_for : String → Bool) (available : (r : String) → informer_for r ≡ true) where
  -- No error is returned.
  pub loop-fine :
      (table : Table) (resources : List String) (regs : Dict Registration)
      → (register_loop informer_for table resources regs).1 ≡ false
  unfolding register_loop
  loop-fine table [] regs = refl
  loop-fine table (r ∷ resources) regs =
      rw (available r) (loop-fine table resources (insert r (registration_of table r) regs))

  -- No resource is registered twice.
  pub loop-NoDup :
      (table : Table) (resources : List String) (regs : Dict Registration)
      → NoDup regs
      → NoDup (register_loop informer_for table resources regs).0
  unfolding register_loop
  loop-NoDup table [] regs u = u
  loop-NoDup table (r ∷ resources) regs u = rw (available r) (
      loop-NoDup table resources (insert r (registration_of table r) regs)
        (NoDup-insert r (registration_of table r) regs u))

  loop-step :
      (table : Table) (r : String) (resources : List String) (regs : Dict Registration)
      → register_loop informer_for table (r ∷ resources) regs
        ≡ register_loop informer_for table resources (insert r (registration_of table r) regs)
  unfolding register_loop
  loop-step table r resources regs = rw (available r) refl

  loop-keeps :
      (table : Table) (resource : String) (resources : List String) (regs : Dict Registration)
      → lookup resource regs ≡ some (registration_of table resource)
      → lookup resource (register_loop informer_for table resources regs).0
        ≡ some (registration_of table resource)
  loop-keeps table resource [] regs h = unfold register_loop in h
  loop-keeps table resource (r ∷ resources) regs h = rw loop-step (
      loop-keeps table resource resources (insert r (registration_of table r) regs) (
        lookup-insert r resource (registration_of table r) regs
        ∙ elim (Bool-cases (r == resource)) [
          | inl t ↦ rw t (ap (λ z. some (registration_of table z)) ((eq_iff r resource).0 t))
          | inr n ↦ rw n h
        ]))

  pub loop-registers :
      (table : Table) (resource : String) (resources : List String) (regs : Dict Registration)
      → In resource resources
      → lookup resource (register_loop informer_for table resources regs).0
        ≡ some (registration_of table resource)
  loop-registers table resource [] regs i = absurd i
  loop-registers table resource (r ∷ resources) regs i =
      let more = insert r (registration_of table r) regs in
      rw loop-step (elim i [
        | inl p ↦ loop-keeps table resource resources more (
            lookup-insert r resource (registration_of table r) regs
            ∙ (rw ((eq_iff r resource).1 (sym p))
                (ap (λ z. some (registration_of table z)) (sym p))))
        | inr j ↦ loop-registers table resource resources more j
      ])

can_handle-has :
    (entries : List Entry) (e : EventType)
    → has_event entries e ≡ true
    → can_handle (events_of entries) e ≡ true
unfolding can_handle has_event
can_handle-has [] e h = cc
can_handle-has (x ∷ entries) e h = elim (Bool-cases (x.event == e)) [
  | inl t ↦
      rw (subst (λ z. equal_fold e z ≡ true) (sym ((eq_iff x.event e).0 t)) (equal_fold_refl e))
        refl
  | inr n ↦ ground (arith, can_handle-has entries e)
]

pub handler-In :
    (table : Table) (resource : String) (reg : Registration) (regs : Dict Registration)
    (e : EventType)
    → In (resource, reg) regs
    → can_handle_event reg e ≡ true
    → In
        (resource, callback_for e, event_routes table resource e)
        (register_event_handler table regs e)
unfolding register_event_handler
handler-In table resource reg [] e i h = absurd i
handler-In table resource reg ((r, g) ∷ regs) e i h = elim (Bool-cases (can_handle_event g e)) [
  | inl t ↦ rw t (elim i [
    | inl p ↦ inl (ap (λ z. (z, callback_for e, event_routes table z e)) (ap (λ z. z.0) p))
    | inr j ↦ inr (handler-In table resource reg regs e j h)
  ])
  | inr n ↦ rw n (elim i [
    | inl p ↦ cc (ap (λ (z : String × Registration). can_handle_event z.1 e) p, h, n)
    | inr j ↦ handler-In table resource reg regs e j h
  ])
]

-- A handler belongs to a registration that handles the event type.
pub handler-origin :
    (table : Table) (resource : String) (callback : Callback) (routes : List Route)
    (regs : Dict Registration) (e : EventType)
    → In (resource, callback, routes) (register_event_handler table regs e)
    → (reg : Registration) × In (resource, reg) regs × (can_handle_event reg e ≡ true)
unfolding register_event_handler
handler-origin table resource callback routes [] e i = absurd i
handler-origin table resource callback routes ((r, g) ∷ regs) e i =
    elim (Bool-cases (can_handle_event g e)) [
      | inl t ↦ elim (rw t at i) [
        | inl p ↦ (g, inl (ap (λ z. (z, g)) (ap (λ z. z.0) p)), t)
        | inr j ↦
            let (reg, l, h) = handler-origin table resource callback routes regs e j in
            (reg, inr l, h)
      ]
      | inr n ↦
          let (reg, l, h) = handler-origin table resource callback routes regs e (rw n at i) in
          (reg, inr l, h)
    ]

no_event : (e : EventType) → has_event [] e ≢ true
unfolding has_event
no_event e h = cc

pub row-In :
    (table : Table) (resource : String) (e : EventType)
    → has_event (get_or_zero [] resource table) e ≡ true
    → In resource (resources_with e table)
row-In table resource e h = elim (Option-cases (lookup resource table)) [
  | inl l ↦ absurd (no_event e (subst (λ z. has_event z e ≡ true) (zero-row l) h))
  | inr (entries, l) ↦
      with-In e resource entries table (In-lookup resource entries table l)
        (subst (λ z. has_event z e ≡ true) (found-row entries l) h)
]
  where
    zero-row : lookup resource table ≡ none → get_or_zero [] resource table ≡ []
    zero-row l = ground arith

    found-row :
        (entries : List Entry)
        → lookup resource table ≡ some entries
        → get_or_zero [] resource table ≡ entries
    found-row entries l = ground arith

pub can_handle-registration :
    (table : Table) (resource : String) (e : EventType)
    → has_event (get_or_zero [] resource table) e ≡ true
    → can_handle_event (registration_of table resource) e ≡ true
unfolding can_handle_event resource_events
can_handle-registration table resource e h = can_handle-has (get_or_zero [] resource table) e h
