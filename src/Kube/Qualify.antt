-- ===== src/Kube/Qualify.antt =====
-- `registration.qualifyEvent`, `qualifyEventForUpdate` and the handler of `handleEvent` in
-- internal/source/kubernetes/registration.go. `k8sutil.Diff` of the old and the new object is an
-- argument, a function of the update setting, that returns the text of the difference; its error is
-- only logged.
pub mod Spec
use botkube.Base.{
  String, Bool, true, false, not, Option, none, some, List, [], ◌∷◌, ◌++◌, ◌==◌, if◌then◌else◌,
}
use botkube.Kube.Config.{EventType, UpdateSetting, update_event, create_event, delete_event}
use botkube.Kube.Event.{Event, Route, has_actionable_update_setting}
use botkube.Kube.Allowed.{MatchError}
use botkube.Kube.Match.{match_event}

module _ (diff : UpdateSetting → String) where
  -- The inner loop: every route of the resource, for one candidate source.
  unfoldable pub qualify_routes : String → List Route → List String × List String
  qualify_routes source [] = ([], [])
  qualify_routes source (rt ∷ routes) =
      let (result, diffs) = qualify_routes source routes in
      if not (has_actionable_update_setting rt)
      then (source ∷ result, diffs)
      else elim rt.update_setting [
        | none ↦ (result, diffs)
        | some u ↦ (
          if diff u == "" then result else source ∷ result,
          if u.include_diff then diff u ∷ diffs else diffs,
        )
      ]

  -- The outer loop, over the candidates.
  unfoldable pub qualify_event_for_update : List Route → List String → List String × List String
  unfolding qualify_routes
  qualify_event_for_update routes [] = ([], [])
  qualify_event_for_update routes (source ∷ candidates) =
      let (result, diffs) = qualify_routes source routes in
      let (rest, more) = qualify_event_for_update routes candidates in
      (result ++ rest, diffs ++ more)

  module _ (match_string : String → String → Option Bool) where
    -- The sources, the differences, and the error (nil where the list is empty).
    unfoldable pub qualify_event : Event → List Route → List String × List String × List MatchError
    qualify_event e routes =
        let (candidates, errs) = match_event match_string routes e in
        elim errs [
          | err ∷ more ↦ ([], [], err ∷ more)
          | [] ↦
              if e.type == update_event
              then (let (result, diffs) = qualify_event_for_update routes candidates in
                  (result, diffs, []))
              else (candidates, [], [])
        ]

    -- `handleFunc`, after the event was made: what it calls `fn` with, if it does. An error is
    -- logged, and the handler goes on.
    unfoldable pub handle_event : Event → List Route → Option (List String × List String)
    unfolding qualify_event
    handle_event e routes =
        let (sources, diffs, errs) = qualify_event e routes in
        elim sources [ [] ↦ none | s ∷ more ↦ some (s ∷ more, diffs) ]
