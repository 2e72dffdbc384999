-- ===== src/Reload/InCluster.antt =====
-- internal/config/reloader/in_cluster.go: the handler of the informers on configuration objects. A
-- method tells whether it asks for a restart; what the restarter returns is only logged.
use botkube.Base.{
  String, ◌≡◌, ◌≢◌, ◌↔◌, Bool, true, false, not, Option, none, some, Dict, get_or_zero, arith, ◌==◌,
  eq_iff, if◌then◌else◌, lookup, Option-cases, inl, inr,
}

abbrev pub label_key : String
label_key = "botkube.io/config-watch"

abbrev pub label_value : String
label_value = "true"

-- An `*unstructured.Unstructured`, with its value under `data`.
pub record Unstructured (D : Type 0) : Type 0 where
  pub labels : Dict String
  pub resource_version : String
  pub data_field : D

labelled_iff :
    (labels : Dict String)
    → ((get_or_zero "" label_key labels == label_value) ≡ true)
      ↔ (lookup label_key labels ≡ some label_value)
labelled_iff labels = elim (Option-cases (lookup label_key labels)) [
  | inl e ↦ rw e (λ h. cc, λ h. cc)
  | inr (v, e) ↦ ground (arith, e, eq_iff v label_value)
]

-- An informer hands over an object of any type: `none` is one of another type.
module _ {D : Type 0} (deep_equal : D → D → Bool) where
  -- `OnAdd`
  unfoldable pub on_add : Option (Unstructured D) → Bool → Bool
  on_add object is_in_initial_list =
      if is_in_initial_list
      then false
      else elim object [ none ↦ false | some o ↦ get_or_zero "" label_key o.labels == label_value ]

  -- `OnUpdate`
  unfoldable pub on_update : Option (Unstructured D) → Option (Unstructured D) → Bool
  on_update old new = elim old [
    | none ↦ false
    | some o ↦ elim new [
      | none ↦ false
      | some n ↦
          if o.resource_version == n.resource_version
          then false
          else not (deep_equal o.data_field n.data_field)
    ]
  ]

  -- `OnDelete`
  unfoldable pub on_delete : Option (Unstructured D) → Bool
  on_delete object = true

  -- An object of the informer's type asks for a restart when it is added after the initial list with
  -- the label, when an update changes its version and its data, and when it is deleted.
  pub restart_iff :
      (old new : Unstructured D) (initial : Bool)
      → ((on_add (some new) initial ≡ true)
          ↔ ((initial ≡ false) × (lookup label_key new.labels ≡ some label_value)))
        × ((on_update (some old) (some new) ≡ true) ↔ (
            (old.resource_version ≢ new.resource_version)
            × (deep_equal old.data_field new.data_field ≡ false)))
        × (on_delete (some new) ≡ true)
  unfolding on_add on_update on_delete
  restart_iff old new initial =
      ground (arith, labelled_iff new.labels, eq_iff old.resource_version new.resource_version)
