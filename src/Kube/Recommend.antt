-- ===== src/Kube/Recommend.antt =====
-- internal/source/kubernetes/recommendation/resource_events.go: the events that recommendations ask
-- for, and those that are dropped since they were only observed for a recommendation.
use botkube.Base.{
  String, Bool, false, Option, none, some, [], ◌==◌, ◌||◌, Dict, lookup, insert, ltb, length,
  if◌then◌else◌,
}
use botkube.Kube.Config.{EventType, Recommendations, create_event}
use botkube.Kube.Event.{Event}

abbrev pub pods_resource_type : String
pods_resource_type = "v1/pods"

abbrev pub ingress_resource_type : String
ingress_resource_type = "networking.k8s.io/v1/ingresses"

-- `ptr.ToValue` on a `*bool`.
abbrev pub to_value : Option Bool → Bool
to_value none = false
to_value (some b) = b

unfoldable pub resource_events_for_config : Option Recommendations → Dict EventType
resource_events_for_config none = []
resource_events_for_config (some rec_cfg) =
    let res_types =
      if to_value rec_cfg.ingress.tls_secret_valid || to_value rec_cfg.ingress.backend_service_valid
      then insert ingress_resource_type create_event []
      else [] in
    if to_value rec_cfg.pod.no_latest_image_tag || to_value rec_cfg.pod.labels_set
    then insert pods_resource_type create_event res_types
    else res_types

-- `event.HasRecommendationsOrWarnings`.
unfoldable pub has_recommendations_or_warnings : Event → Bool
has_recommendations_or_warnings e = ltb 0 (length e.recommendations) || ltb 0 (length e.warnings)

unfoldable pub should_ignore_event : Option Recommendations → Event → Bool
unfolding resource_events_for_config has_recommendations_or_warnings
should_ignore_event rec_cfg e =
    if has_recommendations_or_warnings e
    then false
    else elim (lookup e.resource (resource_events_for_config rec_cfg)) [
      | none ↦ false
      | some recomm_event_type ↦ e.type == recomm_event_type
    ]
