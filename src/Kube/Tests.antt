-- ===== src/Kube/Tests.antt =====
-- The theorems on routing at a concrete cluster event and two routes.
use botkube.Base.{
  String, ◌≡◌, refl, ◌≢◌, ◌↔◌, Bool, true, false, Option, none, some, List, [], ◌∷◌, ◌++◌, ◌==◌, In,
  All, lookup, if◌then◌else◌,
}
use botkube.Kube.Config.{
  RegexConstraints, UpdateSetting, create_event, update_event, are_constraints_defined,
}
use botkube.Kube.Event.{Event, Route, has_actionable_update_setting}
use botkube.Base.Text.{is_blank}
use botkube.Kube.Allowed.{is_allowed, verdict}
use botkube.Kube.Allowed.Spec.{AllowedBy, Compiles, is_allowed_iff}
use botkube.Kube.Match.{kvs_satisfied_for_map, check_route, match_event}
use botkube.Kube.Match.Meets.{Accepts, RouteCompiles}
use botkube.Kube.Match.Spec.{match_event_iff}
use botkube.Kube.Qualify.{qualify_event_for_update, handle_event}
use botkube.Kube.Qualify.Spec.{
  Qualifies, qualify_for_update_iff, handle_event_error, errors_of, notified, handle_event_iff,
}

-- A matcher that knows one pattern, and one that refuses `(`.
abbrev wildcard : String → String → Option Bool
wildcard pattern value = some (pattern == ".*")

abbrev strict : String → String → Option Bool
strict pattern value = if pattern == "(" then none else some (pattern == ".*")

abbrev anything : RegexConstraints
anything = record { include = ".*" ∷ []; exclude = "kube-system" ∷ [] }

abbrev unset : RegexConstraints
unset = record { include = []; exclude = [] }

abbrev broken : RegexConstraints
broken = record { include = "(" ∷ []; exclude = [] }

abbrev pod_event : String → Event
pod_event type = record {
  kind = "Pod";
  name = "web-1";
  namespace = "shop";
  messages = [];
  type = type;
  reason = "";
  level = "info";
  skip = false;
  resource = "v1/pods";
  recommendations = [];
  warnings = [];
  annotations = [];
  labels = ("app", "web") ∷ [];
  object_kind = "Pod";
}

abbrev on_namespaces : String → RegexConstraints → Option UpdateSetting → Route
on_namespaces source namespaces update = record {
  source = source;
  resource_name = unset;
  labels = some (("app", "web") ∷ []);
  annotations = none;
  namespaces = some namespaces;
  update_setting = update;
  event = none;
}

abbrev on_replicas : UpdateSetting
on_replicas = record { fields = "spec.replicas" ∷ []; include_diff = true }

abbrev two_routes : List Route
two_routes =
    on_namespaces "all" anything none ∷ on_namespaces "scale" anything (some on_replicas) ∷ []

abbrev difference : UpdateSetting → String
difference u = "replicas: 1 -> 2"

wildcard-Compiles : (r : RegexConstraints) → Compiles wildcard r
wildcard-Compiles r = (λ x v i e. cc, λ x v i e. cc)

notified-create :
    handle_event difference wildcard (pod_event create_event) two_routes
    ≡ some ("all" ∷ "scale" ∷ [], [])
unfolding handle_event match_event are_constraints_defined is_allowed is_blank kvs_satisfied_for_map
    lookup
notified-create = refl

-- Each candidate is crossed with both routes, so it stands twice.
notified-update :
    handle_event difference wildcard (pod_event update_event) two_routes
    ≡ some ("all" ∷ "all" ∷ "scale" ∷ "scale" ∷ [], "replicas: 1 -> 2" ∷ "replicas: 1 -> 2" ∷ [])
unfolding handle_event match_event are_constraints_defined is_allowed is_blank kvs_satisfied_for_map
    lookup qualify_event_for_update has_actionable_update_setting
notified-update = refl

is_allowed_iff_example :
    ((b : Bool) × (is_allowed wildcard (some anything) "shop" ≡ verdict b))
    × ((is_allowed wildcard (some anything) "shop" ≡ verdict true)
        ↔ AllowedBy wildcard anything "shop")
is_allowed_iff_example = is_allowed_iff wildcard anything "shop" (wildcard-Compiles anything)

two_routes-RouteCompiles : All (RouteCompiles wildcard) two_routes
two_routes-RouteCompiles = (
  (tt, wildcard-Compiles unset, wildcard-Compiles anything),
  ((tt, wildcard-Compiles unset, wildcard-Compiles anything), tt),
)

match_event_iff_example :
    ((match_event wildcard two_routes (pod_event create_event)).1 ≡ [])
    × ((source : String)
        → In source (match_event wildcard two_routes (pod_event create_event)).0 ↔ (
            (rt : Route) × In rt two_routes
            × (source ≡ rt.source)
            × Accepts wildcard rt (pod_event create_event)))
match_event_iff_example =
    match_event_iff wildcard two_routes (pod_event create_event) two_routes-RouteCompiles

qualify_for_update_iff_example :
    In {A = String} "scale"
      (qualify_event_for_update difference two_routes ("all" ∷ "scale" ∷ [])).0
    ↔ (In {A = String} "scale" ("all" ∷ "scale" ∷ [])
        × ((rt : Route) × In rt two_routes × Qualifies difference rt))
qualify_for_update_iff_example =
    qualify_for_update_iff difference two_routes ("all" ∷ "scale" ∷ []) "scale"

abbrev broken_route : Route
broken_route = on_namespaces "broken" broken none

broken-errors :
    errors_of difference strict (check_route strict broken_route (pod_event create_event)) ≢ []
unfolding check_route are_constraints_defined is_allowed kvs_satisfied_for_map lookup
broken-errors e = cc

handle_event_error_example :
    handle_event difference strict
      (pod_event create_event)
      ((on_namespaces "all" anything none ∷ []) ++ broken_route ∷ [])
    ≡ none
handle_event_error_example =
    handle_event_error difference strict (on_namespaces "all" anything none ∷ []) [] broken_route
      (pod_event create_event) broken-errors

handle_event_iff_example :
    In {A = String} "scale" (
      notified difference wildcard
        (handle_event difference wildcard (pod_event update_event) two_routes))
    ↔ (((rt : Route) × In rt two_routes
          × ("scale" ≡ rt.source)
          × Accepts wildcard rt (pod_event update_event))
        × ((pod_event update_event).type ≡ update_event
            → (rt : Route) × In rt two_routes × Qualifies difference rt))
handle_event_iff_example =
    handle_event_iff difference wildcard (pod_event update_event) two_routes "scale"
      two_routes-RouteCompiles
