-- ===== src/Kube/Filter.antt =====
-- internal/source/kubernetes/filterengine: the filter engine and its two filters. A filter that
-- fails returns an error besides the event, which the engine logs.
pub mod Skip
use botkube.Base.{
  String, Bool, true, false, Option, none, some, List, [], ◌∷◌, ◌==◌, Dict, lookup, insert,
  get_or_zero, keys, if◌then◌else◌,
}
use botkube.Base.Text.{sort}
use botkube.Kube.Config.{EventType, Filters, error_event, info_event}
use botkube.Kube.Event.{Event}

-- The `Filter` interface: `Run` changes the event that it points to, and tells whether it failed.
pub record Filter : Type 0 where
  pub name : String
  pub run : Event → Event × Bool

pub record RegisteredFilter : Type 0 where
  pub enabled : Bool
  pub filter : Filter

-- The registered filters of a `DefaultFilterEngine`, by their names.
abbrev pub FilterEngine : Type 0
FilterEngine = Dict RegisteredFilter

unfoldable pub register : List RegisteredFilter → FilterEngine → FilterEngine
register [] engine = engine
register (f ∷ fs) engine = register fs (insert f.filter.name f engine)

-- The filters at the sorted keys.
abbrev pub at_keys : List String → FilterEngine → List RegisteredFilter
at_keys [] engine = []
at_keys (key ∷ rest) engine =
    let more = at_keys rest engine in elim (lookup key engine) [ none ↦ more | some f ↦ f ∷ more ]

unfoldable pub registered_filters : FilterEngine → List RegisteredFilter
registered_filters engine = at_keys (sort (keys engine)) engine

-- The loop of `Run`.
unfoldable pub run_filters : List RegisteredFilter → Event → Event
run_filters [] e = e
run_filters (f ∷ fs) e = run_filters fs (if f.enabled then (f.filter.run e).0 else e)

unfoldable pub run : FilterEngine → Event → Event
unfolding run_filters registered_filters
run engine e = run_filters (registered_filters engine) e

-- `SetFilter`; `none` for its error.
unfoldable pub set_filter : String → Bool → FilterEngine → Option FilterEngine
set_filter name flag engine = elim (lookup name engine) [
  | none ↦ none
  | some f ↦ some (insert name (record f { enabled = flag }) engine)
]

abbrev pub node_not_ready : String
node_not_ready = "NodeNotReady"

abbrev pub node_ready : String
node_ready = "NodeReady"

-- `NodeEventsChecker.Run`, which does not fail.
unfoldable pub node_events_checker : Event → Event
node_events_checker e =
    if e.object_kind == "Event"
    then e
    else if e.kind == "Node"
    then (if e.reason == node_not_ready
        then record e { type = error_event; level = "error" }
        else if e.reason == node_ready
        then record e { type = info_event; level = "info" }
        else record e { skip = true })
    else e

abbrev pub disable_annotation : String
disable_annotation = "botkube.io/disable"

-- `isObjectNotifDisabled`, on the annotations.
unfoldable pub is_object_notif_disabled : Dict String → Bool
is_object_notif_disabled annotations = get_or_zero "" disable_annotation annotations == "true"

-- `GetObjectMetaData` asks the cluster: a function from the event to the annotations, or an error.
module _ (object_annotations : Event → Option (Dict String)) where
  -- `ObjectAnnotationChecker.Run`.
  unfoldable pub object_annotation_checker : Event → Event × Bool
  unfolding is_object_notif_disabled
  object_annotation_checker e = elim (object_annotations e) [
    | none ↦ (e, true)
    | some a ↦ (if is_object_notif_disabled a then record e { skip = true } else e, false)
  ]

  -- `WithAllFilters`.
  unfoldable pub with_all_filters : Filters → FilterEngine
  unfolding register
  with_all_filters cfg =
      register
        (record {
          enabled = cfg.object_annotation_checker;
          filter = record { name = "ObjectAnnotationChecker"; run = object_annotation_checker };
        }
          ∷ record {
            enabled = cfg.node_events_checker;
            filter = record {
              name = "NodeEventsChecker";
              run = λ e. (node_events_checker e, false);
            };
          }
          ∷ [])
        []
