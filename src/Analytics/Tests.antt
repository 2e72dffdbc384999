-- ===== src/Analytics/Tests.antt =====
-- A batch with two events of one plugin after a reset.
use botkube.Base.{◌≡◌, refl, List, [], ◌∷◌, insert, lookup}
use botkube.Analytics.{
  SourceEvent, Call, add, next_hour, sent, new_data, reset, add_source_event,
  increment_time_window_in_hours, perform_all,
}
use botkube.Analytics.Totals.{total, count_of, details_of, totals-perform_all}

abbrev event : SourceEvent
event = record { plugin_name = "botkube/kubernetes"; details = "create v1/pods" }

abbrev calls : List Call
calls = add event ∷ sent ∷ next_hour ∷ add event ∷ add event ∷ []

two-details : total details_of (perform_all calls (new_data 1)).heartbeat_properties.sources ≡ 2
unfolding perform_all new_data reset add_source_event increment_time_window_in_hours insert lookup
two-details = refl

totals-perform_all_example :
    let h = (perform_all calls (new_data 1)).heartbeat_properties in
    (h.events_count ≡ 2) × (total count_of h.sources ≡ 2) × (total details_of h.sources ≡ 2)
totals-perform_all_example = totals-perform_all 1 calls
