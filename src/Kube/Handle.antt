-- ===== src/Kube/Handle.antt =====
-- `handleEventFn` of internal/source/kubernetes/source.go: from a routed event to the messages that
-- are sent on the sources' channels.
pub mod Leak
use botkube.Base.{
  String, Bool, true, false, not, Option, none, some, List, [], ◌∷◌, ◌++◌, ◌==◌, ◌&&◌, ltb, length,
  Dict, lookup, if◌then◌else◌,
}
use botkube.Kube.Config.{Config, Recommendations, update_event}
use botkube.Kube.Event.{Event}
use botkube.Kube.Recommend.{should_ignore_event}
use botkube.Kube.Checks.{Recommendation}
use botkube.Kube.Runner.{do_all}
use botkube.Kube.Filter.{FilterEngine, run}

-- `SourceConfig` with its `ActiveSourceConfig`, which may be nil.
pub record SourceConfig : Type 0 where
  pub cfg : Config
  pub active : Option FilterEngine

pub data HandleError : Type 0 where
  source_not_found active_config_not_found recommendation_failed message_failed :
      String → HandleError

-- What was sent, to which source, the appended errors, and whether the handler panicked: it
-- dereferences the recommendations of the configuration.
pub record Handled : Type 0 where
  pub sent : List (String × Event)
  pub errs : List HandleError
  pub panicked : Bool

abbrev pub finished : Handled
finished = record { sent = []; errs = []; panicked = false }

abbrev pub with_err : HandleError → Handled → Handled
with_err err h = record h { errs = err ∷ h.errs }

abbrev pub with_sent : String → Event → Handled → Handled
with_sent key e h = record h { sent = (key, e) ∷ h.sent }

-- The checks that the factory picks, and `messageBuilder.FromEvent`, which succeeds or not.
module _ (checks : Recommendations → List Recommendation) (builds_message : Event → Bool) where
  -- What follows the filters for one source; `rest` is what the next iterations do.
  unfoldable pub recommend_and_send : String → Config → Event → Handled → Handled
  recommend_and_send key cfg event_copy rest = elim cfg.recommendations [
    | none ↦ record { sent = []; errs = []; panicked = true }
    | some rec_cfg ↦
        let (copy, failed) = do_all (checks rec_cfg) event_copy in
        if failed
        then with_err (recommendation_failed key) rest
        else if should_ignore_event (some rec_cfg) copy
        then rest
        else if builds_message copy
        then with_sent key copy rest
        else with_err (message_failed key) rest
  ]

  -- The loop over the sources. The filtered event is what the next source starts from, while the
  -- checks and the message take the event before the filters.
  unfoldable pub handle_sources : Dict SourceConfig → Event → List String → Handled
  unfolding recommend_and_send
  handle_sources store e [] = finished
  handle_sources store e (key ∷ sources) =
      let unchanged = handle_sources store e sources in
      elim (lookup key store) [
        | none ↦ with_err (source_not_found key) unchanged
        | some src ↦ elim src.active [
          | none ↦ with_err (active_config_not_found key) unchanged
          | some engine ↦
              let filtered = run engine e in
              let rest = handle_sources store filtered sources in
              if filtered.skip then rest else recommend_and_send key src.cfg e rest
        ]
      ]

  -- The guards before the loop; `older` tells whether the event has a time stamp before the start
  -- of the processor.
  unfoldable pub handle_event_fn :
      Dict SourceConfig → Bool → Event → List String → List String → Handled
  unfolding handle_sources
  handle_event_fn store older e sources update_diffs =
      if older
      then finished
      else if e.kind == ""
      then finished
      else (let e' =
            if (e.type == update_event) && ltb 0 (length update_diffs)
            then record e { messages = e.messages ++ update_diffs }
            else e in
          handle_sources store e' sources)
