-- ===== src/Guard/Tests.antt =====
-- The guard at a pod resource and at two lists that share a name.
use botkube.Base.{
  String, ◌≡◌, refl, Bool, true, false, none, some, List, [], ◌∷◌, Dict, lookup, insert,
}
use botkube.Guard.{
  ApiResource, ok, failed, verb_not_supported, get_resource_details_from_map,
  get_allowed_resources_for_verb, add_lists,
}
use botkube.Guard.Spec.{Details, details_lem, first_listed, lookup-add_lists}

abbrev pods : ApiResource
pods = record { name = "pods"; namespaced = true; verbs = "get" ∷ "create" ∷ [] }

abbrev metrics : ApiResource
metrics = record { name = "pods"; namespaced = true; verbs = [] }

abbrev served : Dict ApiResource
served = ("pods", pods) ∷ []

abbrev lists : List (List ApiResource)
lists = (pods ∷ []) ∷ (metrics ∷ []) ∷ []

abbrev never : String → String → Bool
never text pattern = false

-- `logs` is written with a slash, and `create` is refused although the API reports it.
logs-pods :
    get_resource_details_from_map "logs" "pods" served
    ≡ ok (record { name = "pods"; namespaced = true; slash_separated_in_command = true })
unfolding get_resource_details_from_map lookup
logs-pods = refl

create-pods :
    get_allowed_resources_for_verb never
      (record { res_list = lists; err = none })
      "create"
      ("pods" ∷ [])
    ≡ failed verb_not_supported
unfolding get_allowed_resources_for_verb lookup insert get_resource_details_from_map
create-pods = refl

found-pods : lookup "pods" served ≡ some pods
unfolding lookup
found-pods = refl

details_lem_example :
    Details "logs" "pods" pods (get_resource_details_from_map "logs" "pods" served)
details_lem_example = details_lem "logs" "pods" served pods found-pods

lookup-add_lists_example : lookup "pods" (add_lists lists []) ≡ first_listed "pods" lists
lookup-add_lists_example = lookup-add_lists "pods" lists
