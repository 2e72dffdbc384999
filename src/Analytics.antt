-- ===== src/Analytics.antt =====
-- internal/analytics/batched/data.go: what the agent collects between two heartbeats. The mutex makes
-- every method atomic, so a method is a function on the state, and a use of the object is a list of
-- calls. A source event keeps its plugin and, as one text, its labels and its success flag.
pub mod Totals
pub mod Tests
use botkube.Base.{
  ℕ, ◌+◌, String, Bool, List, [], ◌∷◌, ◌++◌, Option, none, some, Dict, lookup, insert, get_or_zero,
  leb, if◌then◌else◌,
}

abbrev pub max_event_details_count : ℕ
max_event_details_count = 75

pub record SourceEvent : Type 0 where
  pub plugin_name : String
  pub details : String

pub record SourceProperties : Type 0 where
  pub events_count : ℕ
  pub events : List SourceEvent

pub record HeartbeatProperties : Type 0 where
  pub time_window_in_hours : ℕ
  pub events_count : ℕ
  pub sources : Dict SourceProperties

pub record Data : Type 0 where
  pub default_time_window_in_hours : ℕ
  pub heartbeat_properties : HeartbeatProperties

-- `SourceProperties{}`
abbrev pub zero_properties : SourceProperties
zero_properties = record { events_count = 0; events = [] }

unfoldable pub new_data : ℕ → Data
new_data hours = record {
  default_time_window_in_hours = hours;
  heartbeat_properties = record { time_window_in_hours = hours; events_count = 0; sources = [] };
}

unfoldable pub increment_time_window_in_hours : Data → Data
increment_time_window_in_hours d = record d {
  heartbeat_properties = record d.heartbeat_properties {
    time_window_in_hours = d.heartbeat_properties.time_window_in_hours + 1;
  };
}

unfoldable pub reset : Data → Data
reset d = record d {
  heartbeat_properties = record {
    time_window_in_hours = d.default_time_window_in_hours;
    events_count = 0;
    sources = [];
  };
}

-- The new properties of the source, where `count` is the number of events with this one.
unfoldable pub add_to_source : ℕ → SourceEvent → SourceProperties → SourceProperties
add_to_source count event s = record {
  events_count = s.events_count + 1;
  events = if leb count max_event_details_count then s.events ++ event ∷ [] else s.events;
}

unfoldable pub add_source_event : SourceEvent → Data → Data
unfolding add_to_source
add_source_event event d =
    let h = d.heartbeat_properties in
    let count = h.events_count + 1 in
    let source_props = get_or_zero zero_properties event.plugin_name h.sources in
    record d {
      heartbeat_properties = record h {
        events_count = count;
        sources = insert event.plugin_name (add_to_source count event source_props) h.sources;
      };
    }

-- A call of one of the methods that change the data.
pub data Call : Type 0 where
  add : SourceEvent → Call
  next_hour sent : Call

abbrev pub perform : Call → Data → Data
perform (add event) d = add_source_event event d
perform next_hour d = increment_time_window_in_hours d
perform sent d = reset d

unfoldable pub perform_all : List Call → Data → Data
perform_all [] d = d
perform_all (c ∷ calls) d = perform_all calls (perform c d)
