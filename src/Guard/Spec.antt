-- ===== src/Guard/Spec.antt =====
-- Which verbs the guard of guard.go lets through, and which resources its map holds.
use botkube.Base.{
  String, ◌≡◌, refl, ◌∙◌, ap, ◌↔◌, ◌⊎◌, inl, inr, Bool, true, false, not, Option, none, some, List,
  [], ◌∷◌, ◌++◌, ◌==◌, eq_iff, arith, Dict, lookup, insert, has, lookup-insert, contains, select,
  In, In-append, Bool-cases, if◌then◌else◌,
}
use botkube.Base.Adds.{contains_iff}
use botkube.Guard.{
  Resource, ApiResource, Result, ok, failed, verb_not_supported, additional_resource_verbs,
  additional_verbs_with_slash, unsupported_global_verbs, filter_supported_verbs, verbs_of,
  get_all_supported_verbs, get_resource_details_from_map, add_resources, add_lists,
}

In-select :
    (p : String → Bool) (s : String) (l : List String) → In s (select p l) ↔ (In s l × (p s ≡ true))
In-select p s [] = (λ i. absurd i, λ h. h.0)
In-select p s (x ∷ l) =
    let (to, from) = In-select p s l in
    elim (Bool-cases (p x)) [
      | inl t ↦ rw t (
        λ i. elim i [ inl e ↦ (inl e, ap p e ∙ t) | inr j ↦ (inr (to j).0, (to j).1) ],
        λ (i, q). elim i [ inl e ↦ inl e | inr j ↦ inr (from (j, q)) ],
      )
      | inr n ↦ rw n (
        λ j. (inr (to j).0, (to j).1),
        λ (i, q). elim i [ inl e ↦ absurd (cc (ap p e, q, n)) | inr j ↦ from (j, q) ],
      )
    ]

not-In : (l : List String) (s : String) → (not (contains l s) ≡ true) ↔ (¬ In s l)
not-In l s = (
  λ h i. cc (h, (contains_iff l s).1 i),
  λ n. elim (Bool-cases (contains l s)) [
    | inl t ↦ absurd (n ((contains_iff l s).0 t))
    | inr f ↦ rw f refl
  ],
)

-- The verb is one that the API reports for the resource and the guard supports, or one of the
-- additional verbs of the resource.
abbrev pub Listed : String → String → ApiResource → Type 0
Listed verb resource_type res =
    (In verb res.verbs × (¬ In verb unsupported_global_verbs))
    ⊎ In verb (verbs_of resource_type additional_resource_verbs)

In-Listed :
    (verb resource_type : String) (res : ApiResource)
    → In verb (filter_supported_verbs res.verbs ++ verbs_of resource_type additional_resource_verbs)
      ↔ Listed verb resource_type res
unfolding filter_supported_verbs
In-Listed verb resource_type res =
    let supported : String → Bool = λ s. not (contains unsupported_global_verbs s) in
    let own = select supported res.verbs in
    let (to, from) = In-append verb own (verbs_of resource_type additional_resource_verbs) in
    let (sto, sfrom) = In-select supported verb res.verbs in
    let (nto, nfrom) = not-In unsupported_global_verbs verb in
    (
      λ i. elim (to i) [ inl j ↦ inl ((sto j).0, nto (sto j).1) | inr k ↦ inr k ],
      λ h. from (elim h [ inl a ↦ inl (sfrom (a.0, nfrom a.1)) | inr k ↦ inr k ]),
    )

-- The verb is listed, or it is `describe` and `get` is listed.
abbrev pub Supported : String → String → ApiResource → Type 0
Supported verb resource_type res =
    Listed verb resource_type res ⊎ ((verb ≡ "describe") × Listed "get" resource_type res)

In-Supported :
    (verb resource_type : String) (res : ApiResource)
    → In verb (get_all_supported_verbs resource_type res.verbs) ↔ Supported verb resource_type res
unfolding get_all_supported_verbs
In-Supported verb resource_type res =
    let verbs =
      filter_supported_verbs res.verbs ++ verbs_of resource_type additional_resource_verbs in
    let (to, from) = In-Listed verb resource_type res in
    let (gto, gfrom) = In-Listed "get" resource_type res in
    let (ato, afrom) = In-append verb verbs ("describe" ∷ []) in
    elim (Bool-cases (contains verbs "get")) [
      | inl t ↦ rw t (
        λ i. elim (ato i) [
          | inl j ↦ inl (to j)
          | inr k ↦ elim k [
            | inl e ↦ inr (e, gto ((contains_iff verbs "get").0 t))
            | inr n ↦ absurd n
          ]
        ],
        λ h. afrom (elim h [ inl l ↦ inl (from l) | inr (e, g) ↦ inr (inl e) ]),
      )
      | inr n ↦ rw n (
        λ i. inl (to i),
        λ h. elim h [
          | inl l ↦ from l
          | inr (e, g) ↦ absurd (cc (n, (contains_iff verbs "get").1 (gfrom g)))
        ],
      )
    ]

details-found :
    (verb resource_type : String) (res_map : Dict ApiResource) (res : ApiResource)
    → lookup resource_type res_map ≡ some res
    → get_resource_details_from_map verb resource_type res_map ≡ (
        if contains (get_all_supported_verbs resource_type res.verbs) verb
        then ok (record {
          name = res.name;
          namespaced = res.namespaced;
          slash_separated_in_command = false;
        })
        else if contains (verbs_of resource_type additional_verbs_with_slash) verb
        then ok (record {
          name = res.name;
          namespaced = res.namespaced;
          slash_separated_in_command = true;
        })
        else failed verb_not_supported)
unfolding get_resource_details_from_map
details-found verb resource_type res_map res h = ground arith

-- What the guard answers for a resource of the map: its name and scope, with a slash in the command
-- only for a verb that is not supported otherwise, and an error exactly for the remaining verbs.
abbrev pub Details : String → String → ApiResource → Result Resource → Type 0
Details verb resource_type res r =
    (Supported verb resource_type res
      × (r
          ≡ ok (record {
            name = res.name;
            namespaced = res.namespaced;
            slash_separated_in_command = false;
          })))
    ⊎ (((¬ Supported verb resource_type res)
          × In verb (verbs_of resource_type additional_verbs_with_slash)
          × (r
              ≡ ok (record {
                name = res.name;
                namespaced = res.namespaced;
                slash_separated_in_command = true;
              })))
        ⊎ ((¬ Supported verb resource_type res)
            × (¬ In verb (verbs_of resource_type additional_verbs_with_slash))
            × (r ≡ failed verb_not_supported)))

-- For a resource of the map the guard decides by the verb: a verb that is supported (reported by the
-- API and not on the list of unsupported verbs, additional, or `describe` next to `get`) gives the
-- resource; one with a slash gives the resource marked so; any other verb is refused.
pub details_lem :
    (verb resource_type : String) (res_map : Dict ApiResource) (res : ApiResource)
    → lookup resource_type res_map ≡ some res
    → Details verb resource_type res (get_resource_details_from_map verb resource_type res_map)
details_lem verb resource_type res_map res h =
    let verbs = get_all_supported_verbs resource_type res.verbs in
    let slash = verbs_of resource_type additional_verbs_with_slash in
    let e = details-found verb resource_type res_map res h in
    let (to, from) = In-Supported verb resource_type res in
    elim (Bool-cases (contains verbs verb)) [
      | inl t ↦ inl (to ((contains_iff verbs verb).0 t), e ∙ (rw t refl))
      | inr n ↦ elim (Bool-cases (contains slash verb)) [
        | inl t ↦ inr (
            inl (
              λ s. cc (n, (contains_iff verbs verb).1 (from s)),
              (contains_iff slash verb).0 t,
              e ∙ (rw (n, t) refl),
            ))
        | inr m ↦ inr (
            inr (
              λ s. cc (n, (contains_iff verbs verb).1 (from s)),
              λ i. cc (m, (contains_iff slash verb).1 i),
              e ∙ (rw (n, m) refl),
            ))
      ]
    ]

-- The first resource of a name, in the order of the lists.
abbrev pub first_named : String → List ApiResource → Option ApiResource
first_named n [] = none
first_named n (res ∷ resources) =
    let rest = first_named n resources in if res.name == n then some res else rest

-- The first of two answers.
abbrev pub or_else : Option ApiResource → Option ApiResource → Option ApiResource
or_else none other = other
or_else (some r) other = some r

abbrev pub first_listed : String → List (List ApiResource) → Option ApiResource
first_listed n [] = none
first_listed n (item ∷ res_list) = or_else (first_named n item) (first_listed n res_list)

lookup-add_resources :
    (n : String) (resources : List ApiResource) (m : Dict ApiResource)
    → lookup n (add_resources resources m) ≡ or_else (lookup n m) (first_named n resources)
unfolding add_resources
lookup-add_resources n [] m = ground arith
lookup-add_resources n (res ∷ resources) m =
    lookup-add_resources n resources (if has res.name m then m else insert res.name res m)
    ∙ ground (arith, lookup-insert res.name n res m, eq_iff res.name n)

lookup-lists :
    (n : String) (res_list : List (List ApiResource)) (m : Dict ApiResource)
    → lookup n (add_lists res_list m) ≡ or_else (lookup n m) (first_listed n res_list)
unfolding add_lists
lookup-lists n [] m = ground arith
lookup-lists n (item ∷ res_list) m =
    lookup-lists n res_list (add_resources item m) ∙ ground (arith, lookup-add_resources n item m)

-- The resource map has under each name the first resource of that name that the server lists.
pub lookup-add_lists :
    (n : String) (res_list : List (List ApiResource))
    → lookup n (add_lists res_list []) ≡ first_listed n res_list
unfolding lookup
lookup-add_lists n res_list = lookup-lists n res_list []
