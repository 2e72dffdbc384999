-- ===== src/Kube/Match/Meets.antt =====
-- When one test of `matchEvent` in registration.go passes.
use botkube.Base.{
  String, ◌≡◌, refl, ◌↔◌, ◌⊎◌, inl, inr, Bool, true, false, Option, none, some, List, [], ◌∷◌,
  arith, In, Bool-cases, if◌then◌else◌,
}
use mathlib.Core.Path.{subst}
use botkube.Kube.Config.{RegexConstraints, KubernetesEvent, are_constraints_defined}
use botkube.Kube.Event.{Event, Route}
use botkube.Kube.Allowed.{verdict, is_allowed}
use botkube.Kube.Allowed.Spec.{AllowedBy, Compiles, is_allowed_iff}
use botkube.Kube.Match.{
  kvs_satisfied_for_map, Check, pass, skip, ◌then_check◌, check_value, check_messages,
  check_message, check_reason, check_namespace, check_labels,
}
use botkube.Kube.Match.Labels.{HasAll, wanted, kvs_satisfied_iff}

module _ (match_string : String → String → Option Bool) where
  -- A constraint that is not defined asks for nothing.
  abbrev pub Meets : RegexConstraints → String → Type 0
  Meets r value = are_constraints_defined r ≡ true → AllowedBy match_string r value

  abbrev pub MeetsAny : RegexConstraints → List String → Type 0
  MeetsAny r msgs =
      are_constraints_defined r ≡ true → (m : String) × In m msgs × AllowedBy match_string r m

  abbrev pub MeetsReason : Option KubernetesEvent → String → Type 0
  MeetsReason none reason = Unit
  MeetsReason (some k) reason = Meets k.reason reason

  -- No messages count as one empty message.
  abbrev pub MeetsMessage : Option KubernetesEvent → List String → Type 0
  MeetsMessage none messages = Unit
  MeetsMessage (some k) [] = MeetsAny k.message ("" ∷ [])
  MeetsMessage (some k) (m ∷ ms) = MeetsAny k.message (m ∷ ms)

  abbrev pub MeetsNamespace : Option RegexConstraints → String → Type 0
  MeetsNamespace none value = Unit
  MeetsNamespace (some r) value = Meets r value

  -- The event meets every constraint of the route.
  pub record Accepts (rt : Route) (e : Event) : Type 0 where
    pub reason : MeetsReason rt.event e.reason
    pub message : MeetsMessage rt.event e.messages
    pub name : Meets rt.resource_name e.name
    pub namespace : MeetsNamespace rt.namespaces e.namespace
    pub annotations : HasAll (wanted rt.annotations) e.annotations
    pub labels : HasAll (wanted rt.labels) e.labels

  -- Every pattern of the route compiles.
  abbrev pub EventCompiles : Option KubernetesEvent → Type 0
  EventCompiles none = Unit
  EventCompiles (some k) = Compiles match_string k.reason × Compiles match_string k.message

  abbrev pub NamespaceCompiles : Option RegexConstraints → Type 0
  NamespaceCompiles none = Unit
  NamespaceCompiles (some r) = Compiles match_string r

  abbrev pub RouteCompiles : Route → Type 0
  RouteCompiles rt =
      EventCompiles rt.event
      × Compiles match_string rt.resource_name
      × NamespaceCompiles rt.namespaces

  -- A test that ends with no error, and passes exactly if `P` holds.
  abbrev pub Decides : Check → Type 0 → Type 0
  Decides c P = (((c ≡ pass []) × P) ⊎ ((c ≡ skip []) × (¬ P)))

  pub Decides-then :
      {P Q : Type 0} (c d : Check) → Decides c P → Decides d Q → Decides (c then_check d) (P × Q)
  Decides-then c d (inl (e, p)) (inl (f, q)) = inl (rw (e, f), (p, q))
  Decides-then c d (inl (e, p)) (inr (f, n)) = inr (rw (e, f), λ h. n h.1)
  Decides-then c d (inr (e, n)) g = inr (rw e, λ h. n h.0)

  pub Decides-map : {P Q : Type 0} (c : Check) → (P → Q) → (Q → P) → Decides c P → Decides c Q
  Decides-map c f g (inl (e, p)) = inl (e, f p)
  Decides-map c f g (inr (e, n)) = inr (e, λ q. n (g q))

  value-cases :
      (r : RegexConstraints) (value : String) (d b : Bool)
      → are_constraints_defined r ≡ d
      → is_allowed match_string (some r) value ≡ verdict b
      → ((is_allowed match_string (some r) value ≡ verdict true) ↔ AllowedBy match_string r value)
      → Decides (check_value match_string r value) (Meets r value)
  unfolding check_value
  value-cases r value false b e a iff = inl (rw e, λ h. absurd (cc (e, h)))
  value-cases r value true true e a iff = inl (rw (e, a), λ h. iff.0 a)
  value-cases r value true false e a iff = inr (rw (e, a), λ m. cc (a, iff.1 (m e)))

  pub check_value-Decides :
      (r : RegexConstraints) (value : String)
      → Compiles match_string r
      → Decides (check_value match_string r value) (Meets r value)
  check_value-Decides r value c =
      let ((b, a), iff) = is_allowed_iff match_string r value c in
      value-cases r value (are_constraints_defined r) b refl a iff

  messages-cons :
      (r : RegexConstraints) (m : String) (ms : List String) (b : Bool)
      → is_allowed match_string (some r) m ≡ verdict b
      → ((is_allowed match_string (some r) m ≡ verdict true) ↔ AllowedBy match_string r m)
      → Decides
          (check_messages match_string r ms)
          ((x : String) × In x ms × AllowedBy match_string r x)
      → Decides
          (check_messages match_string r (m ∷ ms))
          ((x : String) × In x (m ∷ ms) × AllowedBy match_string r x)
  unfolding check_messages
  messages-cons r m ms true a iff d = inl (ground arith, (m, inl refl, iff.0 a))
  messages-cons r m ms false a iff (inl (e, (x, i, y))) = inl (ground arith, (x, inr i, y))
  messages-cons r m ms false a iff (inr (e, n)) = inr (
    ground arith,
    λ h. elim h.1 [
      | inl p ↦ cc (a, iff.1 (subst (AllowedBy match_string r) p h.2))
      | inr i ↦ n (h.0, i, h.2)
    ],
  )

  check_messages-Decides :
      (r : RegexConstraints) (msgs : List String)
      → Compiles match_string r
      → Decides
          (check_messages match_string r msgs)
          ((x : String) × In x msgs × AllowedBy match_string r x)
  check_messages-Decides r [] c = inr (unfold check_messages in refl, λ h. h.1)
  check_messages-Decides r (m ∷ ms) c =
      let ((b, a), iff) = is_allowed_iff match_string r m c in
      messages-cons r m ms b a iff (check_messages-Decides r ms c)

  message-cases :
      (k : KubernetesEvent) (msgs : List String) (d : Bool)
      → are_constraints_defined k.message ≡ d
      → Decides
          (check_messages match_string k.message msgs)
          ((x : String) × In x msgs × AllowedBy match_string k.message x)
      → Decides
          (if are_constraints_defined k.message
            then check_messages match_string k.message msgs
            else pass [])
          (MeetsAny k.message msgs)
  message-cases k msgs false e d = inl (rw e, λ h. absurd (cc (e, h)))
  message-cases k msgs true e (inl (f, x)) = inl (rw (e, f), λ h. x)
  message-cases k msgs true e (inr (f, n)) = inr (rw (e, f), λ h. n (h e))

  pub labels-Decides :
      (rt : Route) (e : Event)
      → Decides
          (check_labels match_string rt e)
          (HasAll (wanted rt.annotations) e.annotations × HasAll (wanted rt.labels) e.labels)
  labels-Decides rt e =
      go (Bool-cases (kvs_satisfied_for_map rt.annotations e.annotations))
        (Bool-cases (kvs_satisfied_for_map rt.labels e.labels))
    where
      go :
          (kvs_satisfied_for_map rt.annotations e.annotations ≡ true)
            ⊎ (kvs_satisfied_for_map rt.annotations e.annotations ≡ false)
          → (kvs_satisfied_for_map rt.labels e.labels ≡ true)
            ⊎ (kvs_satisfied_for_map rt.labels e.labels ≡ false)
          → Decides
              (check_labels match_string rt e)
              (HasAll (wanted rt.annotations) e.annotations × HasAll (wanted rt.labels) e.labels)
      go (inl a) (inl b) = inl (
        rw (a, b),
        (
          (kvs_satisfied_iff rt.annotations e.annotations).0 a,
          (kvs_satisfied_iff rt.labels e.labels).0 b,
        ),
      )
      go (inl a) (inr b) =
          inr (rw (a, b), λ h. cc (b, (kvs_satisfied_iff rt.labels e.labels).1 h.1))
      go (inr a) b = inr (rw a, λ h. cc (a, (kvs_satisfied_iff rt.annotations e.annotations).1 h.0))

  pub reason-Decides :
      (k : Option KubernetesEvent) (reason : String)
      → EventCompiles k
      → Decides (check_reason match_string k reason) (MeetsReason k reason)
  reason-Decides none reason c = inl (refl, tt)
  reason-Decides (some k) reason c = check_value-Decides k.reason reason c.0

  pub message-Decides :
      (k : Option KubernetesEvent) (messages : List String)
      → EventCompiles k
      → Decides (check_message match_string k messages) (MeetsMessage k messages)
  message-Decides none messages c = inl (refl, tt)
  message-Decides (some k) [] c =
      message-cases k ("" ∷ []) (are_constraints_defined k.message) refl
        (check_messages-Decides k.message ("" ∷ []) c.1)
  message-Decides (some k) (m ∷ ms) c =
      message-cases k (m ∷ ms) (are_constraints_defined k.message) refl
        (check_messages-Decides k.message (m ∷ ms) c.1)

  pub namespace-Decides :
      (ns : Option RegexConstraints) (value : String)
      → NamespaceCompiles ns
      → Decides (check_namespace match_string ns value) (MeetsNamespace ns value)
  namespace-Decides none value c = inl (refl, tt)
  namespace-Decides (some r) value c = check_value-Decides r value c
