-- ===== src/Guard.antt =====
-- internal/command/guard.go: which kubectl verbs the interactive commands may use on which resource.
-- The discovery client's answer is an argument; errors other than the package's two are `failed`.
pub mod Spec
pub mod Tests
use botkube.Base.{
  String, Bool, true, false, not, Option, none, some, List, [], ◌∷◌, ◌++◌, ◌||◌, ◌&&◌, Dict, lookup,
  insert, has, contains, select, if◌then◌else◌,
}

pub record Resource : Type 0 where
  pub name : String
  pub namespaced : Bool
  pub slash_separated_in_command : Bool

-- `Resource{}`
abbrev pub no_resource : Resource
no_resource = record { name = ""; namespaced = false; slash_separated_in_command = false }

-- The fields of `v1.APIResource` that the guard reads.
pub record ApiResource : Type 0 where
  pub name : String
  pub namespaced : Bool
  pub verbs : List String

pub data GuardError : Type 0 where
  verb_not_supported resource_not_found list_failed : GuardError

-- What an operation of the guard returns.
pub data Result (A : Type 0) : Type 0 where
  ok : A → Result A
  failed : GuardError → Result A

abbrev pub additional_resource_verbs : Dict (List String)
additional_resource_verbs =
    ("nodes", "cordon" ∷ "uncordon" ∷ "drain" ∷ "top" ∷ []) ∷ ("pods", "top" ∷ []) ∷ []

abbrev pub additional_verbs_with_slash : Dict (List String)
additional_verbs_with_slash =
    ("pods", "logs" ∷ [])
    ∷ ("jobs", "logs" ∷ [])
    ∷ ("deployments", "logs" ∷ [])
    ∷ ("statefulsets", "logs" ∷ [])
    ∷ ("replicasets", "logs" ∷ [])
    ∷ ("daemonsets", "logs" ∷ [])
    ∷ []

abbrev pub resourceless_verbs : List String
resourceless_verbs = "auth" ∷ "api-versions" ∷ "api-resources" ∷ "cluster-info" ∷ []

abbrev pub unsupported_global_verbs : List String
unsupported_global_verbs =
    "list" ∷ "watch" ∷ "deletecollection" ∷ "create" ∷ "cp" ∷ "update" ∷ "patch" ∷ "diff"
    ∷ "port-forward" ∷ "attach" ∷ "apply" ∷ "replace" ∷ "auth" ∷ "explain" ∷ "autoscale" ∷ "scale"
    ∷ "wait" ∷ "proxy" ∷ "run" ∷ []

unfoldable pub filter_supported_verbs : List String → List String
filter_supported_verbs all_verbs = select (λ s. not (contains unsupported_global_verbs s)) all_verbs

-- The verbs that a table has for a resource, none for a missing key.
abbrev pub verbs_of : String → Dict (List String) → List String
verbs_of resource_type table = elim (lookup resource_type table) [ none ↦ [] | some verbs ↦ verbs ]

unfoldable pub get_all_supported_verbs : String → List String → List String
unfolding filter_supported_verbs
get_all_supported_verbs resource_type in_verbs =
    let verbs =
      filter_supported_verbs in_verbs ++ verbs_of resource_type additional_resource_verbs in
    if contains verbs "get" then verbs ++ "describe" ∷ [] else verbs

unfoldable pub get_resource_details_from_map : String → String → Dict ApiResource → Result Resource
unfolding get_all_supported_verbs
get_resource_details_from_map selected_verb resource_type res_map =
    elim (lookup resource_type res_map) [
      | none ↦ failed resource_not_found
      | some res ↦
          let verbs = get_all_supported_verbs resource_type res.verbs in
          if contains verbs selected_verb
          then ok (record {
            name = res.name;
            namespaced = res.namespaced;
            slash_separated_in_command = false;
          })
          else if contains (verbs_of resource_type additional_verbs_with_slash) selected_verb
          then ok (record {
            name = res.name;
            namespaced = res.namespaced;
            slash_separated_in_command = true;
          })
          else failed verb_not_supported
    ]

-- The loops of `GetServerResourceMap` over one list of resources and over the lists: the first
-- occurrence of a name stays.
unfoldable pub add_resources : List ApiResource → Dict ApiResource → Dict ApiResource
add_resources [] resource_map = resource_map
add_resources (res ∷ resources) resource_map =
    add_resources resources
      (if has res.name resource_map then resource_map else insert res.name res resource_map)

unfoldable pub add_lists : List (List ApiResource) → Dict ApiResource → Dict ApiResource
unfolding add_resources
add_lists [] resource_map = resource_map
add_lists (item ∷ res_list) resource_map = add_lists res_list (add_resources item resource_map)

-- What `ServerPreferredResources` returns: the lists, with an error or without. Of an error it only
-- matters whether it is an `ErrGroupDiscoveryFailed`, and the messages of its groups then.
pub data ListError : Type 0 where
  group_discovery_failed : List String → ListError
  other_error : ListError

pub record Discovered : Type 0 where
  pub res_list : List (List ApiResource)
  pub err : Option ListError

-- The patterns of `ignoredResourceListErrors`; `strings.Contains` is a parameter.
module _ (text_contains : String → String → Bool) where
  unfoldable pub is_error_msg_on_ignored_list : String → Bool
  is_error_msg_on_ignored_list msg =
      text_contains msg "Got empty response for" || text_contains msg "received empty response for"

  -- The loop over the groups.
  unfoldable pub all_ignored : List String → Bool
  all_ignored [] = true
  all_ignored (msg ∷ groups) =
      let rest = all_ignored groups in if is_error_msg_on_ignored_list msg then rest else false

  unfoldable pub should_ignore_resource_list_error : ListError → Bool
  unfolding all_ignored
  should_ignore_resource_list_error other_error = false
  should_ignore_resource_list_error (group_discovery_failed groups) = all_ignored groups

  unfoldable pub get_server_resource_map : Discovered → Result (Dict ApiResource)
  unfolding add_lists should_ignore_resource_list_error
  get_server_resource_map d = elim d.err [
    | none ↦ ok (add_lists d.res_list [])
    | some err ↦
        if should_ignore_resource_list_error err
        then ok (add_lists d.res_list [])
        else failed list_failed
  ]

  unfoldable pub get_resource_details : Discovered → String → String → Result Resource
  unfolding get_server_resource_map get_resource_details_from_map
  get_resource_details d selected_verb resource_type =
      if contains resourceless_verbs selected_verb
      then ok no_resource
      else elim (get_server_resource_map d) [
        | failed err ↦ failed err
        | ok res_map ↦ get_resource_details_from_map selected_verb resource_type res_map
      ]

  -- The loop of `GetAllowedResourcesForVerb` over the configured resources.
  unfoldable pub allowed_loop : String → List String → Dict ApiResource → Result (List Resource)
  unfolding get_resource_details_from_map
  allowed_loop verb [] res_map = ok []
  allowed_loop verb (configured_res ∷ more) res_map =
      let rest = allowed_loop verb more res_map in
      elim (get_resource_details_from_map verb configured_res res_map) [
        | failed verb_not_supported ↦ rest
        | failed err ↦ failed err
        | ok res ↦ elim rest [ failed err ↦ failed err | ok resources ↦ ok (res ∷ resources) ]
      ]

  abbrev some_resource : List Resource → Result (List Resource)
  some_resource [] = failed verb_not_supported
  some_resource (r ∷ resources) = ok (r ∷ resources)

  unfoldable pub get_allowed_resources_for_verb :
      Discovered → String → List String → Result (List Resource)
  unfolding get_server_resource_map allowed_loop
  get_allowed_resources_for_verb d verb all_configured_resources =
      if contains resourceless_verbs verb then ok [] else elim (get_server_resource_map d) [
        | failed err ↦ failed err
        | ok res_map ↦ elim (allowed_loop verb all_configured_resources res_map) [
          | failed err ↦ failed err
          | ok resources ↦ some_resource resources
        ]
      ]
