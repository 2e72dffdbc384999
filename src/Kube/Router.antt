-- ===== src/Kube/Router.antt =====
-- internal/source/kubernetes/router.go: the routing table. A source configuration is a `Config`, and
-- the map of them is keyed by the source's name. A set of event types is a `EventSet`.
pub mod Table
pub mod Routes
pub mod Sources
pub mod Events
use botkube.Base.{
  String, Bool, true, false, Option, none, some, List, [], ◌∷◌, ◌++◌, ◌==◌, ◌||◌, Dict, lookup,
  insert, get_or_zero, ltb, length, if◌then◌else◌,
}
use botkube.Kube.Config.{
  EventType, RegexConstraints, KubernetesEvent, Resource, Config, are_constraints_defined,
  event_constraints_defined, create_event, update_event, delete_event, error_event, all_event,
}
use botkube.Kube.Event.{Route}
use botkube.Kube.Recommend.{resource_events_for_config}

pub record Entry : Type 0 where
  pub event : EventType
  pub routes : List Route

abbrev pub Table : Type 0
Table = Dict (List Entry)

abbrev pub EventSet : Type 0
EventSet = Dict {0} (Unit {0})

-- The loop of `flattenEventTypes`.
unfoldable pub flatten_loop : List EventType → List EventType
flatten_loop [] = []
flatten_loop (event ∷ events) =
    let rest = flatten_loop events in
    if event == all_event
    then create_event ∷ update_event ∷ delete_event ∷ error_event ∷ rest
    else event ∷ rest

unfoldable pub flatten_event_types : List EventType → List EventType → List EventType
flatten_event_types global_events [] = flatten_loop global_events
flatten_event_types global_events (e ∷ resource_events) = flatten_loop (e ∷ resource_events)

unfoldable pub resource_namespaces :
    Option RegexConstraints → Option RegexConstraints → Option RegexConstraints
resource_namespaces source_ns none = source_ns
resource_namespaces source_ns (some r) = if are_constraints_defined r then some r else source_ns

unfoldable pub resource_string_map : Option (Dict String) → Dict String → Option (Dict String)
resource_string_map source_map [] = source_map
resource_string_map source_map (kv ∷ resource_map) = some (kv ∷ resource_map)

unfoldable pub resource_event : KubernetesEvent → KubernetesEvent → Option KubernetesEvent
resource_event source own = if event_constraints_defined own then some own else some source

-- `mergeResourceEvents`: the events of a resource.
unfoldable pub add_events : List EventType → EventSet → EventSet
add_events [] set = set
add_events (e ∷ es) set = add_events es (insert e tt set)

unfoldable pub merge_resources : Config → List Resource → Dict EventSet → Dict EventSet
unfolding add_events
merge_resources cfg [] out = out
merge_resources cfg (r ∷ resources) out = merge_resources cfg resources (
    insert r.type
      (add_events (flatten_event_types cfg.event.types r.event.types) (get_or_zero [] r.type out))
      out)

unfoldable pub merge_recommendations : Dict EventType → Dict EventSet → Dict EventSet
merge_recommendations [] out = out
merge_recommendations ((resource_type, event_type) ∷ more) out =
    merge_recommendations more
      (insert resource_type (insert event_type tt (get_or_zero [] resource_type out)) out)

unfoldable pub merge_resource_events : Dict Config → Dict EventSet → Dict EventSet
unfolding merge_resources merge_recommendations
merge_resource_events [] out = out
merge_resource_events ((name, cfg) ∷ cfgs) out = merge_resource_events cfgs (
    merge_recommendations (resource_events_for_config cfg.recommendations)
      (merge_resources cfg cfg.resources out))

-- The route that `mergeEventRoutes` makes for one event type of a resource.
unfoldable pub route_for : String → Config → Resource → EventType → Route
route_for source cfg r e = record {
  source = source;
  resource_name = r.name;
  labels = resource_string_map cfg.labels r.labels;
  annotations = resource_string_map cfg.annotations r.annotations;
  namespaces = resource_namespaces cfg.namespaces (some r.namespaces);
  update_setting = if e == update_event then some r.update_setting else none;
  event = resource_event cfg.event r.event;
}

-- `out[e] = append(out[e], route)`
unfoldable pub append_route : EventType → Route → Dict (List Route) → Dict (List Route)
append_route e rt out = insert e (get_or_zero [] e out ++ rt ∷ []) out

-- The loop over the event types of one resource.
unfoldable pub add_routes :
    String → String → Config → Resource → List EventType → Dict (List Route) → Dict (List Route)
add_routes resource source cfg r [] out = out
add_routes resource source cfg r (e ∷ es) out =
    add_routes resource source cfg r es
      (if resource == r.type then append_route e (route_for source cfg r e) out else out)

-- The loop over the resources of one source.
unfoldable pub add_resources :
    String → String → Config → List Resource → Dict (List Route) → Dict (List Route)
add_resources resource source cfg [] out = out
add_resources resource source cfg (r ∷ resources) out =
    add_resources resource source cfg resources
      (add_routes resource source cfg r (flatten_event_types cfg.event.types r.event.types) out)

abbrev pub no_constraints : RegexConstraints
no_constraints = record { include = []; exclude = [] }

-- `recommRoute`, with the namespaces it gets later.
unfoldable pub recomm_route : String → Option RegexConstraints → Route
recomm_route source namespaces = record {
  source = source;
  resource_name = no_constraints;
  labels = none;
  annotations = none;
  namespaces = namespaces;
  update_setting = none;
  event = some (record { reason = no_constraints; message = no_constraints; types = [] });
}

-- The loop over the routes of the event type: the first route of the source is replaced; where
-- there is none, a route is appended.
unfoldable pub override_route : String → Config → List Route → List Route
unfolding recomm_route
override_route source cfg [] = recomm_route source cfg.namespaces ∷ []
override_route source cfg (r ∷ routes) =
    let rest = override_route source cfg routes in
    if r.source == source
    then recomm_route source (resource_namespaces cfg.namespaces r.namespaces) ∷ routes
    else r ∷ rest

unfoldable pub set_event_route_for_recommendations_if_should :
    Dict EventType → String → String → Config → Dict (List Route) → Dict (List Route)
unfolding override_route
set_event_route_for_recommendations_if_should res_for_recomms source resource_type cfg out =
    elim (lookup resource_type res_for_recomms) [
      | none ↦ out
      | some event_type ↦
          insert event_type (override_route source cfg (get_or_zero [] event_type out)) out
    ]

unfoldable pub merge_event_routes : String → Dict Config → Dict (List Route) → Dict (List Route)
merge_event_routes resource [] out = out
merge_event_routes resource ((source, cfg) ∷ cfgs) out = merge_event_routes resource cfgs (
    set_event_route_for_recommendations_if_should (resource_events_for_config cfg.recommendations)
      source resource cfg (add_resources resource source cfg cfg.resources out))

-- The inner loop of `BuildTable`: one entry for each event of the resource.
unfoldable pub add_entries : String → Dict (List Route) → EventSet → Table → Table
add_entries resource event_routes [] table = table
add_entries resource event_routes ((evt, t) ∷ events) table =
    add_entries resource event_routes events (
      insert resource
        (get_or_zero [] resource table
          ++ (record { event = evt; routes = get_or_zero [] evt event_routes } ∷ []))
        table)

unfoldable pub build_loop : Dict Config → Dict EventSet → Table → Table
unfolding add_entries
build_loop cfgs [] table = table
build_loop cfgs ((resource, events) ∷ merged) table =
    build_loop cfgs merged (add_entries resource (merge_event_routes resource cfgs []) events table)

-- `BuildTable`, on the table of a new router.
unfoldable pub build_table : Dict Config → Table
unfolding build_loop
build_table cfgs = build_loop cfgs (merge_resource_events cfgs []) []

-- The loop of `eventRoutes`.
unfoldable pub entry_routes : List Entry → EventType → List Route
entry_routes [] target = []
entry_routes (routed ∷ entries) target =
    let rest = entry_routes entries target in
    if routed.event == target then routed.routes ++ rest else rest

unfoldable pub event_routes : Table → String → EventType → List Route
unfolding entry_routes
event_routes table resource target = entry_routes (get_or_zero [] resource table) target
