-- ===== src/Kube/Config.antt =====
-- internal/source/kubernetes/config/config.go: the configuration of a Kubernetes source. `EventType`
-- is a string type; a pointer is an `Option`, `none` for nil.
use botkube.Base.{String, Bool, false, Option, none, some, List, ◌==◌, ◌||◌, ltb, length, Dict}

abbrev pub EventType : Type 0
EventType = String

abbrev pub create_event : EventType
create_event = "create"

abbrev pub update_event : EventType
update_event = "update"

abbrev pub delete_event : EventType
delete_event = "delete"

abbrev pub error_event : EventType
error_event = "error"

abbrev pub warning_event : EventType
warning_event = "warning"

abbrev pub normal_event : EventType
normal_event = "normal"

abbrev pub info_event : EventType
info_event = "info"

abbrev pub all_event : EventType
all_event = "all"

-- `(*EventType).IsValid`, with a nil receiver.
unfoldable pub is_valid : Option EventType → Bool
is_valid none = false
is_valid (some t) =
    (t == create_event)
    || ((t == update_event)
        || ((t == delete_event)
            || ((t == error_event)
                || ((t == warning_event)
                    || ((t == normal_event) || ((t == info_event) || (t == all_event)))))))

pub record RegexConstraints : Type 0 where
  pub include : List String
  pub exclude : List String

-- `(*RegexConstraints).AreConstraintsDefined`.
unfoldable pub are_constraints_defined : RegexConstraints → Bool
are_constraints_defined r = ltb 0 (length r.include) || ltb 0 (length r.exclude)

pub record KubernetesEvent : Type 0 where
  pub reason : RegexConstraints
  pub message : RegexConstraints
  pub types : List EventType

-- `KubernetesEvent.AreConstraintsDefined`.
unfoldable pub event_constraints_defined : KubernetesEvent → Bool
unfolding are_constraints_defined
event_constraints_defined e = are_constraints_defined e.reason || are_constraints_defined e.message

pub record UpdateSetting : Type 0 where
  pub fields : List String
  pub include_diff : Bool

pub record Resource : Type 0 where
  pub type : String
  pub name : RegexConstraints
  pub namespaces : RegexConstraints
  pub annotations : Dict String
  pub labels : Dict String
  pub event : KubernetesEvent
  pub update_setting : UpdateSetting

pub record IngressRecommendations : Type 0 where
  pub backend_service_valid : Option Bool
  pub tls_secret_valid : Option Bool

pub record PodRecommendations : Type 0 where
  pub no_latest_image_tag : Option Bool
  pub labels_set : Option Bool

pub record Recommendations : Type 0 where
  pub ingress : IngressRecommendations
  pub pod : PodRecommendations

pub record Filters : Type 0 where
  pub object_annotation_checker : Bool
  pub node_events_checker : Bool

-- The part of `Config` that routing and filtering read. `Event` and `Filters` are pointers that the
-- source dereferences: the record is of a configuration that has them.
pub record Config : Type 0 where
  pub recommendations : Option Recommendations
  pub event : KubernetesEvent
  pub resources : List Resource
  pub namespaces : Option RegexConstraints
  pub annotations : Option (Dict String)
  pub labels : Option (Dict String)
  pub filters : Filters
