-- ===== src/Kube/Register.antt =====
-- The rest of internal/source/kubernetes/router.go and registration.go: which informers are
-- registered, which handlers they get, and the handler of mapped events. Getting an informer for a
-- resource (`registrationHandler`) succeeds or not; an added handler is the resource with its routes.
pub mod Handlers
pub mod Wired
use botkube.Base.{
  String, Bool, true, false, not, Option, none, some, List, [], ◌∷◌, ◌++◌, ◌==◌, Dict, get_or_zero,
  insert, contains, if◌then◌else◌,
}
use botkube.Base.Text.{equal_fold}
use botkube.Kube.Config.{
  EventType, create_event, update_event, delete_event, error_event, warning_event,
}
use botkube.Kube.Event.{Event, Route}
use botkube.Kube.Match.{match_event}
use botkube.Kube.Router.{Entry, Table, event_routes}

-- `registration`, without the informer and the clients.
pub record Registration : Type 0 where
  pub events : List EventType
  pub mapped_resources : List String
  pub mapped_event : EventType

abbrev pub events_resource : String
events_resource = "v1/events"

-- The loop over the entries of a resource, which breaks at the first hit.
unfoldable pub has_event : List Entry → EventType → Bool
has_event [] target = false
has_event (routed ∷ entries) target =
    let rest = has_event entries target in if routed.event == target then true else rest

unfoldable pub resources_with : EventType → Table → List String
unfolding has_event
resources_with target [] = []
resources_with target ((resource, entries) ∷ table) =
    let rest = resources_with target table in
    if has_event entries target then resource ∷ rest else rest

unfoldable pub resources_for_events : List EventType → Table → List String
unfolding resources_with
resources_for_events [] table = []
resources_for_events (target ∷ targets) table =
    resources_with target table ++ resources_for_events targets table

abbrev pub events_of : List Entry → List EventType
events_of [] = []
events_of (routed ∷ entries) = routed.event ∷ events_of entries

unfoldable pub resource_events : Table → String → List EventType
resource_events table resource = events_of (get_or_zero [] resource table)

-- The registrations, and whether an error was returned.
abbrev pub Registered : Type 0
Registered = Dict Registration × Bool

module _ (informer_for : String → Bool) where
  -- The loop of `RegisterInformers`, which returns at the first error.
  unfoldable pub register_loop : Table → List String → Dict Registration → Registered
  unfolding resource_events
  register_loop table [] registrations = (registrations, false)
  register_loop table (resource ∷ resources) registrations =
      let next = register_loop table resources (
        insert resource
          (record {
            events = resource_events table resource;
            mapped_resources = [];
            mapped_event = "";
          })
          registrations) in
      if informer_for resource then next else (registrations, true)

  unfoldable pub register_informers : List EventType → Table → Dict Registration → Registered
  unfolding register_loop resources_for_events
  register_informers target_events table registrations =
      register_loop table (resources_for_events target_events table) registrations

  unfoldable pub map_with_events_informer :
      EventType → EventType → Table → Dict Registration → Registered
  unfolding resources_for_events
  map_with_events_informer src_event dst_event table registrations =
      elim (resources_for_events (src_event ∷ []) table) [
        | [] ↦ (registrations, false)
        | resource ∷ resources ↦
            if informer_for events_resource
            then (
              insert events_resource
                  (record {
                    events = dst_event ∷ [];
                    mapped_resources = resource ∷ resources;
                    mapped_event = src_event;
                  })
                  registrations,
              false,
            )
            else (registrations, true)
      ]

abbrev pub target_events : List EventType
target_events = create_event ∷ update_event ∷ delete_event ∷ []

-- What `Source.Stream` registers; an error of the first step ends it.
unfoldable pub register_all : (String → Bool) → Table → Registered
unfolding register_informers map_with_events_informer
register_all informer_for table =
    let (registrations, failed) = register_informers informer_for target_events table [] in
    let mapped =
      map_with_events_informer informer_for error_event warning_event table registrations in
    if failed then (registrations, true) else mapped

-- The loop of `canHandleEvent`.
unfoldable pub can_handle : List EventType → String → Bool
can_handle [] target = false
can_handle (e ∷ events) target =
    let rest = can_handle events target in if equal_fold target e then true else rest

unfoldable pub can_handle_event : Registration → String → Bool
unfolding can_handle
can_handle_event reg target = can_handle reg.events target

unfoldable pub includes_src_resource : Registration → String → Bool
includes_src_resource reg resource = contains reg.mapped_resources resource

-- The functions of the informer that `handleEvent` sets: none for an event type that it does not know.
pub data Callback : Type 0 where
  add_func delete_func update_func no_func : Callback

abbrev pub callback_for : EventType → Callback
callback_for event_type =
    if event_type == create_event
    then add_func
    else if event_type == delete_event
    then delete_func
    else if event_type == update_event
    then update_func
    else no_func

-- `RegisterEventHandler`: the handlers that it adds, each with its resource and its routes.
unfoldable pub register_event_handler :
    Table → Dict Registration → EventType → List (String × Callback × List Route)
unfolding can_handle_event
register_event_handler table [] event_type = []
register_event_handler table ((resource, reg) ∷ registrations) event_type =
    let rest = register_event_handler table registrations event_type in
    if can_handle_event reg event_type
    then (resource, callback_for event_type, event_routes table resource event_type) ∷ rest
    else rest

-- `mappedInformer`: the first registration that the range comes to.
unfoldable pub mapped_informer : Dict Registration → EventType → Option Registration
mapped_informer [] event = none
mapped_informer ((resource, reg) ∷ registrations) event =
    let rest = mapped_informer registrations event in
    if reg.mapped_event == event then some reg else rest

-- The handler of `handleMapped`, from the type of the Kubernetes event and the resource of the
-- object that it is about on; `event` is the event made of it, `none` where that fails. An error of
-- the matching is logged, and the sources that matched are notified.
unfoldable pub handle_mapped :
    (String → String → Option Bool)
    → Registration
    → EventType
    → Table
    → String
    → String
    → Option Event
    → Option (List String)
unfolding can_handle_event includes_src_resource
handle_mapped match_string reg event_type table object_type gvr event =
    if not (can_handle_event reg object_type)
    then none
    else if not (includes_src_resource reg gvr)
    then none
    else elim event [
      | none ↦ none
      | some e ↦ elim (match_event match_string (event_routes table gvr event_type) e).0 [
        | [] ↦ none
        | s ∷ sources ↦ some (s ∷ sources)
      ]
    ]
