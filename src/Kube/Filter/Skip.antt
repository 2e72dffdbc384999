-- ===== src/Kube/Filter/Skip.antt =====
-- The skip mark of an event under the filters of the engine.
use botkube.Base.{
  String, ◌≡◌, refl, ◌∙◌, Bool, false, ◌||◌, ◌&&◌, not, Option, none, some, ◌==◌, arith, Dict,
  lookup, insert, if◌then◌else◌,
}
use botkube.Base.Text.{sort, insert_sorted}
use botkube.Kube.Config.{Filters}
use botkube.Kube.Event.{Event}
use botkube.Kube.Filter.{
  run, node_events_checker, is_object_notif_disabled, object_annotation_checker, with_all_filters,
}

-- The node filter drops the event: it is about a node and is no Kubernetes event object, and its
-- reason is neither that the node is ready nor that it is not.
abbrev pub drops_node : Event → Bool
drops_node e =
    (not (e.object_kind == "Event") && (e.kind == "Node"))
    && (not (e.reason == "NodeNotReady") && not (e.reason == "NodeReady"))

abbrev pub disabled_by : Option (Dict String) → Bool
disabled_by none = false
disabled_by (some a) = is_object_notif_disabled a

abbrev pub skips : (Event → Option (Dict String)) → Filters → Event → Bool
skips object_annotations cfg e =
    (cfg.node_events_checker && drops_node e)
    || (cfg.object_annotation_checker && disabled_by (object_annotations e))

node-skip : (e : Event) → (node_events_checker e).skip ≡ (drops_node e || e.skip)
unfolding node_events_checker
node-skip e = ground arith

annotation-skip :
    (object_annotations : Event → Option (Dict String)) (e : Event)
    → (object_annotation_checker object_annotations e).0.skip
      ≡ (disabled_by (object_annotations e) || e.skip)
unfolding object_annotation_checker
annotation-skip object_annotations e = ground arith

annotations-node :
    (object_annotations : Event → Option (Dict String)) (e : Event)
    → ((e : Event) → object_annotations (node_events_checker e) ≡ object_annotations e)
    → (object_annotation_checker object_annotations (node_events_checker e)).0.skip
      ≡ (disabled_by (object_annotations e) || (drops_node e || e.skip))
annotations-node object_annotations e h =
    annotation-skip object_annotations (node_events_checker e) ∙ (rw (h e, node-skip e) refl)

run-with_all :
    (object_annotations : Event → Option (Dict String)) (cfg : Filters) (e : Event)
    → run (with_all_filters object_annotations cfg) e ≡ (
        let first = if cfg.node_events_checker then node_events_checker e else e in
        if cfg.object_annotation_checker
        then (object_annotation_checker object_annotations first).0
        else first)
unfolding run with_all_filters insert lookup sort insert_sorted
run-with_all object_annotations cfg e = refl

-- With both filters registered, the engine marks an event to be skipped exactly if it was marked
-- before, or an enabled filter drops it: the node filter, or the annotation filter where the object's
-- annotations were read and disable it. The annotations are those of the object, which the node
-- filter leaves as it is.
pub skip-run :
    (object_annotations : Event → Option (Dict String)) (cfg : Filters) (e : Event)
    → ((e : Event) → object_annotations (node_events_checker e) ≡ object_annotations e)
    → (run (with_all_filters object_annotations cfg) e).skip
      ≡ (skips object_annotations cfg e || e.skip)
skip-run object_annotations cfg e h = rw run-with_all (
    ground (
      arith,
      node-skip e,
      annotation-skip object_annotations e,
      annotations-node object_annotations e h,
    ))
