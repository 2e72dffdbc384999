-- ===== src/Kube/Checks.antt =====
-- internal/source/kubernetes/recommendation: the checks of pods, and what every check returns. A typed object is what `TransformIntoTypedObject` makes of the event's object, `none` where
-- it fails; the cluster answers for services and secrets.
pub mod Laws
use botkube.Base.{
  ℕ, String, Bool, true, false, not, Option, none, some, List, [], ◌∷◌, ◌++◌, ◌==◌, ◌||◌, ◌&&◌,
  nat_eq, ltb, length, Dict, if◌then◌else◌,
}
use botkube.Base.Text.{split, concat}
use botkube.Kube.Config.{Recommendations, create_event}
use botkube.Kube.Event.{Event}
use botkube.Kube.Recommend.{to_value}

pub record Result : Type 0 where
  pub info : List String
  pub warnings : List String

abbrev pub no_result : Result
no_result = record { info = []; warnings = [] }

-- The `Recommendation` interface: `Do` returns a result, and tells whether it failed.
pub record Recommendation : Type 0 where
  pub name : String
  pub do_check : Event → Result × Bool

pub record Container : Type 0 where
  pub name : String
  pub image : String

pub record Pod : Type 0 where
  pub name : String
  pub namespace : String
  pub labels : Dict String
  pub init_containers : List Container
  pub containers : List Container

abbrev pub colon : ℕ
colon = 0x3a

-- `len(images) == 1 || images[1] == "latest"`
unfoldable pub is_latest : List String → Bool
is_latest [] = false
is_latest (repository ∷ []) = true
is_latest (repository ∷ tag ∷ more) = tag == "latest"

unfoldable pub check_containers : String → List Container → String → List String
unfolding is_latest
check_containers field_name [] pod_identifier = []
check_containers field_name (c ∷ containers) pod_identifier =
    let recomms = check_containers field_name containers pod_identifier in
    if is_latest (split colon c.image)
    then concat (
        "The 'latest' tag used in '" ∷ c.image ∷ "' image of Pod '" ∷ pod_identifier ∷ "' "
        ∷ field_name ∷ " '" ∷ c.name ∷ "' should be avoided." ∷ [])
      ∷ recomms
    else recomms

module _ (pod_of : Event → Option Pod) where
  -- `PodLabelsSet.Do`.
  unfoldable pub pod_labels_set : Event → Result × Bool
  pod_labels_set e =
      if not (e.kind == "Pod") || not (e.type == create_event)
      then (no_result, false)
      else elim (pod_of e) [
        | none ↦ (no_result, true)
        | some pod ↦ (
          if ltb 0 (length pod.labels) then no_result else record {
            info =
                concat (
                  "Pod '" ∷ pod.namespace ∷ "/" ∷ pod.name
                  ∷ "' created without labels. Consider defining them, to be able to use them as a selector e.g. in Service."
                  ∷ [])
                ∷ [];
            warnings = [];
          },
          false,
        )
      ]

  -- `PodNoLatestImageTag.Do`.
  unfoldable pub pod_no_latest_image_tag : Event → Result × Bool
  unfolding check_containers
  pod_no_latest_image_tag e =
      if not (e.kind == "Pod") || (not (e.type == create_event) || (e.object_kind == "Event"))
      then (no_result, false)
      else elim (pod_of e) [
        | none ↦ (no_result, true)
        | some pod ↦
            let pod_identifier = concat (pod.namespace ∷ "/" ∷ pod.name ∷ []) in
            (
              record {
                info =
                    check_containers "initContainer" pod.init_containers pod_identifier
                    ++ check_containers "container" pod.containers pod_identifier;
                warnings = [];
              },
              false,
            )
      ]
