-- ===== src/Kube/Event.antt =====
-- `event.Event` of internal/source/kubernetes/event/event.go, without the fields that only messages
-- show (title, cluster, time stamp, count, action), and `route` of router.go.
use botkube.Base.{String, Bool, false, Option, none, some, List, Dict, ltb, length}
use botkube.Kube.Config.{EventType, RegexConstraints, KubernetesEvent, UpdateSetting}

-- `ObjectMeta` is represented by its annotations and labels, `Object` by the kind in its type
-- metadata (`GetObjectTypeMetaData(event.Object).Kind`).
pub record Event : Type 0 where
  pub kind : String
  pub name : String
  pub namespace : String
  pub messages : List String
  pub type : EventType
  pub reason : String
  pub level : String
  pub skip : Bool
  pub resource : String
  pub recommendations : List String
  pub warnings : List String
  pub annotations : Dict String
  pub labels : Dict String
  pub object_kind : String

pub record Route : Type 0 where
  pub source : String
  pub resource_name : RegexConstraints
  pub labels : Option (Dict String)
  pub annotations : Option (Dict String)
  pub namespaces : Option RegexConstraints
  pub update_setting : Option UpdateSetting
  pub event : Option KubernetesEvent

-- `route.hasActionableUpdateSetting`.
unfoldable pub has_actionable_update_setting : Route → Bool
has_actionable_update_setting r = elim r.update_setting [
  | none ↦ false
  | some u ↦ ltb 0 (length u.fields)
]
