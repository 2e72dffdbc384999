-- ===== src/Kube/RouterTests.antt =====
-- The theorems on the routing table and the registration of handlers at two sources.
use botkube.Base.{
  String, ◌≡◌, refl, ◌↔◌, true, false, none, some, List, [], ◌∷◌, In, Dict, lookup, insert,
}
use botkube.Kube.Config.{
  EventType, RegexConstraints, KubernetesEvent, Resource, Recommendations, Config, create_event,
  all_event, are_constraints_defined, event_constraints_defined,
}
use botkube.Kube.Recommend.{resource_events_for_config}
use botkube.Kube.Router.{
  build_table, event_routes, flatten_event_types, merge_resource_events, flatten_loop,
  merge_event_routes, set_event_route_for_recommendations_if_should, add_resources, add_routes,
  append_route, route_for,
}
use botkube.Kube.Router.Routes.{sources_of}
use botkube.Kube.Router.Sources.{Wants}
use botkube.Kube.Router.Table.{build_table_iff}

abbrev nothing : RegexConstraints
nothing = record { include = []; exclude = [] }

abbrev events_of : List EventType → KubernetesEvent
events_of types = record { reason = nothing; message = nothing; types = types }

abbrev pods : Resource
pods = record {
  type = "v1/pods";
  name = nothing;
  namespaces = nothing;
  annotations = [];
  labels = [];
  event = events_of [];
  update_setting = record { fields = []; include_diff = false };
}

abbrev pub no_recommendations : Recommendations
no_recommendations = record {
  ingress = record { backend_service_valid = none; tls_secret_valid = some false };
  pod = record { no_latest_image_tag = some false; labels_set = none };
}

abbrev label_check : Recommendations
label_check = record no_recommendations {
  pod = record { no_latest_image_tag = some false; labels_set = some true };
}

abbrev pub source_config : Recommendations → List Resource → Config
source_config recs resources = record {
  recommendations = some recs;
  event = events_of (all_event ∷ []);
  resources = resources;
  namespaces = some nothing;
  annotations = none;
  labels = none;
  filters = record { object_annotation_checker = true; node_events_checker = true };
}

abbrev two_sources : Dict Config
two_sources =
    ("pods", source_config no_recommendations (pods ∷ []))
    ∷ ("labels", source_config label_check [])
    ∷ []

-- The source that only has a recommendation enabled is routed the creation of pods, not the rest.
create-routes :
    sources_of (event_routes (build_table two_sources) "v1/pods" create_event)
    ≡ "pods" ∷ "labels" ∷ []
unfolding build_table event_routes lookup insert flatten_event_types event_constraints_defined
    are_constraints_defined merge_resource_events resource_events_for_config flatten_loop
    merge_event_routes set_event_route_for_recommendations_if_should add_resources add_routes
    append_route route_for
create-routes = refl

build_table_iff_example :
    In {A = String} "labels"
      (sources_of (event_routes (build_table two_sources) "v1/pods" create_event))
    ↔ ((cfg : Config) × In ("labels", cfg) two_sources × Wants cfg "v1/pods" create_event)
build_table_iff_example = build_table_iff two_sources "labels" "v1/pods" create_event
