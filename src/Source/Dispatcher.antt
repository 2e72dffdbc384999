-- ===== src/Source/Dispatcher.antt =====
-- internal/source/dispatcher.go: opening the stream of a source, and delivering what it brings. The
-- goroutines that send run in any order; a delivery stands for one call, whose error is logged.
pub mod Deliveries
use botkube.Base.{
  String, Bool, true, false, Option, none, some, List, [], ◌∷◌, ◌++◌, map, if◌then◌else◌, Dict,
}
use botkube.Config.{CommPlatformIntegration, is_interactive}
use botkube.Source.Scheduler.{PluginDispatch}

-- The dispatcher, with bots `B` and sinks `K`.
pub record Dispatcher (B K : Type 0) : Type 0 where
  pub markdown_notifiers : List B
  pub interactive_notifiers : List B
  pub sink_notifiers : List K

-- An event of a stream, with a message `M` and a raw object `O`.
pub record SourceEvent (M O : Type 0) : Type 0 where
  pub message : M
  pub raw_object : O

-- What is sent to whom: the message of an event or the result of an action, the raw object or the
-- result, the audit record, and the execution of an action `A`.
pub data Delivery (B K M O A : Type 0) : Type 0 where
  send_message : B → M → Delivery B K M O A
  send_event : K → O → Delivery B K M O A
  send_result : K → M → Delivery B K M O A
  report_audit : (plugin_name source_name display_name : String) → O → Delivery B K M O A
  execute_action : A → Delivery B K M O A

-- The errors of `Dispatch`.
pub data DispatchError : Type 0 where
  no_client no_kube_config stream_failed : DispatchError

-- What `Stream` answers: an error, an error with the code Unimplemented, or a stream.
pub data StreamAnswer : Type 0 where
  stream_error unimplemented opened : StreamAnswer

module _ {B K : Type 0} (integration_name : B → CommPlatformIntegration) where
  -- The loop over the bots in `NewDispatcher`.
  unfoldable pub sort_notifiers : List B → Dispatcher B K → Dispatcher B K
  unfolding is_interactive
  sort_notifiers [] d = d
  sort_notifiers (n ∷ notifiers) d = sort_notifiers notifiers (
      if is_interactive (integration_name n)
      then record d { interactive_notifiers = d.interactive_notifiers ++ n ∷ [] }
      else record d { markdown_notifiers = d.markdown_notifiers ++ n ∷ [] })

  -- `NewDispatcher`
  unfoldable pub new_dispatcher : List B → List K → Dispatcher B K
  unfolding sort_notifiers
  new_dispatcher notifiers sinks =
      sort_notifiers notifiers
        (record { markdown_notifiers = []; interactive_notifiers = []; sink_notifiers = sinks })

-- `Dispatch`: whether a stream is read, or the error. The arguments are whether there is a client
-- and a kubeconfig, and the answer of the stream.
unfoldable pub dispatch_stream : Bool → Bool → StreamAnswer → Option DispatchError × Bool
dispatch_stream has_client has_kube_config answer =
    if has_client
    then (if has_kube_config
        then elim answer [
          | stream_error ↦ (some stream_failed, false)
          | unimplemented ↦ (none, false)
          | opened ↦ (none, true)
        ]
        else (some no_kube_config, false))
    else (some no_client, false)

-- `getBotNotifiers`
unfoldable pub get_bot_notifiers : {B K : Type 0} → PluginDispatch → Dispatcher B K → List B
get_bot_notifiers dispatch d =
    if dispatch.is_interactivity_supported then d.interactive_notifiers else d.markdown_notifiers

-- `getSinkNotifiers`
unfoldable pub get_sink_notifiers : {B K : Type 0} → PluginDispatch → Dispatcher B K → List K
get_sink_notifiers dispatch d = if dispatch.is_interactivity_supported then [] else d.sink_notifiers

-- The action provider: the actions that an event asks for, `none` for an error, and the message of
-- an action that was executed.
module _ {B K M O A : Type 0} (rendered_actions : O → List String → Option (List A))
    (execute : A → M) where
  -- The loop over the actions.
  unfoldable pub run_actions : List B → List K → List A → List (Delivery B K M O A)
  run_actions bots sinks [] = []
  run_actions bots sinks (act ∷ actions) =
      (execute_action act ∷ map (λ n. send_message n (execute act)) bots)
      ++ map (λ n. send_result n (execute act)) sinks
      ++ run_actions bots sinks actions

  -- `dispatchMsg`
  unfoldable pub dispatch_msg :
      Dispatcher B K → SourceEvent M O → PluginDispatch → List (Delivery B K M O A)
  unfolding get_bot_notifiers get_sink_notifiers run_actions
  dispatch_msg d event dispatch =
      let bots = get_bot_notifiers dispatch d in
      let sinks = get_sink_notifiers dispatch d in
      map (λ n. send_message n event.message) bots
      ++ map (λ n. send_event n event.raw_object) sinks
      ++ (report_audit dispatch.plugin_name dispatch.source_name dispatch.source_display_name
            event.raw_object
          ∷ [])
      ++ elim (rendered_actions event.raw_object (dispatch.source_name ∷ [])) [
        | none ↦ []
        | some actions ↦ run_actions bots sinks actions
      ]
