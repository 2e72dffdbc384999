-- ===== src/Kube/Register/Wired.antt =====
-- From the configuration of a source to the handlers of the informers, as `Source.Stream` of
-- internal/source/kubernetes/source.go wires them.
use botkube.Base.{String, ◌≢◌, Bool, List, [], ◌∷◌, Dict, In}
use botkube.Kube.Config.{EventType, Config, error_event, warning_event}
use botkube.Kube.Event.{Route}
use botkube.Kube.Router.{Table, build_table}
use botkube.Kube.Router.Routes.{sources_of}
use botkube.Kube.Register.{
  Callback, no_func, Registration, resources_for_events, register_all, register_event_handler,
}

-- The resources of which some source is to be told of errors.
abbrev pub with_errors : Table → List String
with_errors = resources_for_events (error_event ∷ [])

abbrev mapped_registration : List String → Registration
mapped_registration resources = record {
  events = warning_event ∷ [];
  mapped_resources = resources;
  mapped_event = error_event;
}

-- A handler for the event type of the resource sets a function of the informer, and its routes
-- include one of the source.
abbrev pub Handled : (String → Bool) → Dict Config → EventType → String → String → Type 0
Handled informer_for cfgs e s resource =
    let table = build_table cfgs in
    (callback : Callback) × (routes : List Route) × In (resource, callback, routes)
      (register_event_handler table (register_all informer_for table).0 e)
    × (callback ≢ no_func)
    × In s (sources_of routes)
