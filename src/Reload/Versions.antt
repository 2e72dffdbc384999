-- ===== src/Reload/Versions.antt =====
-- One poll of internal/config/reloader/remote.go.
use botkube.Base.{
  ℕ, suc, ◌<◌, String, ◌≡◌, ◌≢◌, refl, ◌↔◌, ◌⊎◌, inl, inr, Bool, true, Option, none, some, List, [],
  ◌∷◌, arith, ltb, Bool-cases, Option-cases, ◌&&◌,
}
use botkube.Reload.{
  Deployment, Loaded, load_error, nil_config, config, RemoteConfigReloader, Answers, poll,
  compare_res_ver, set_resource_version_for_all, query_config, compare_configs, load_config,
  process_new_config, restart_if,
}

loaded_cases :
    {C : Type 0} (l : Loaded C) → ((c : C) × (l ≡ config c)) ⊎ ((l ≡ load_error) ⊎ (l ≡ nil_config))
loaded_cases load_error = inr (inl refl)
loaded_cases nil_config = inr (inr refl)
loaded_cases (config c) = inl (c, refl)

changes_cases :
    (o : Option (List String))
    → ((p : String) × (ps : List String) × (o ≡ some (p ∷ ps))) ⊎ ((o ≡ none) ⊎ (o ≡ some []))
changes_cases none = inr (inl refl)
changes_cases (some []) = inr (inr refl)
changes_cases (some (p ∷ ps)) = inl (p, ps, refl)

module _ {C : Type 0} (unmarshals : String → Bool) (load_with_defaults : String → Loaded C)
    (diff : C → C → Option (List String)) where
  -- The answers that make the reloader restart the agent.
  abbrev pub Restarts : Answers → RemoteConfigReloader C → C → Type 0
  Restarts a u new =
      (version : ℕ) × (d : Deployment) × (path : String) × (paths : List String) × (a.version
        ≡ some version)
      × (a.deployment ≡ some d)
      × (unmarshals d.yaml_config ≡ true)
      × (u.res_version < version)
      × (u.res_version < d.resource_version)
      × (load_with_defaults d.yaml_config ≡ config new)
      × (diff u.current_cfg new ≡ some (path ∷ paths))

  pub Restarts-if :
      (a : Answers) (u : RemoteConfigReloader C) (new : C)
      → Restarts a u new
      → ((poll unmarshals load_with_defaults diff a u).0.restarts ≡ suc u.restarts)
        × ((poll unmarshals load_with_defaults diff a u).0.current_cfg ≡ new)
        × (u.res_version < (poll unmarshals load_with_defaults diff a u).0.res_version)
  unfolding poll compare_res_ver set_resource_version_for_all query_config compare_configs
      load_config process_new_config restart_if
  Restarts-if a u new (v, d, p, ps, e1, e2, e3, l1, l2, e4, e5) = ground arith

  -- Whether the poll leaves the restarts and the configuration alone.
  abbrev pub Stays : Answers → RemoteConfigReloader C → Type 0
  Stays a u =
      ((poll unmarshals load_with_defaults diff a u).0.restarts ≡ u.restarts)
      × ((poll unmarshals load_with_defaults diff a u).0.current_cfg ≡ u.current_cfg)

  Restarts-new :
      (a : Answers) (u : RemoteConfigReloader C) (v : ℕ) (d : Deployment)
      → a.version ≡ some v
      → a.deployment ≡ some d
      → ((new : C) × Restarts a u new) ⊎ Stays a u
  unfolding poll compare_res_ver set_resource_version_for_all query_config compare_configs
      load_config process_new_config restart_if
  Restarts-new a u v d e1 e2 = elim (loaded_cases (load_with_defaults d.yaml_config)) [
    | inl (new, l) ↦ elim (changes_cases (diff u.current_cfg new)) [
      | inl (p, ps, c) ↦
          elim (Bool-cases (
            unmarshals d.yaml_config
            && (ltb u.res_version v && ltb u.res_version d.resource_version))) [
              | inl t ↦
                  inl (new, (v, d, p, ps, e1, e2, ground arith, ground arith, ground arith, l, c))
              | inr t ↦ inr (ground arith)
            ]
      | inr n ↦ inr (ground arith)
    ]
    | inr n ↦ inr (ground arith)
  ]

  pub Restarts-only_if :
      (a : Answers) (u : RemoteConfigReloader C) → ((new : C) × Restarts a u new) ⊎ Stays a u
  unfolding poll compare_res_ver set_resource_version_for_all query_config compare_configs
      load_config process_new_config restart_if
  Restarts-only_if a u = elim (Option-cases a.version) [
    | inl e1 ↦ inr (ground arith)
    | inr (v, e1) ↦ elim (Option-cases a.deployment) [
      | inl e2 ↦ inr (ground arith)
      | inr (d, e2) ↦ Restarts-new a u v d e1 e2
    ]
  ]

  -- A poll asks for one restart exactly if both answers are there, the text is YAML, both carry a
  -- higher version than the reloader's, and the configuration loads and differs from the current
  -- one; that configuration is then the current one. Otherwise the count and the configuration stay.
  pub restarts_iff-poll :
      (a : Answers) (u : RemoteConfigReloader C)
      → let after = (poll unmarshals load_with_defaults diff a u).0 in
        ((after.restarts ≡ suc u.restarts) ↔ ((new : C) × Restarts a u new))
        × ((new : C) → Restarts a u new → after.current_cfg ≡ new)
        × (after.restarts ≢ suc u.restarts
            → (after.restarts ≡ u.restarts) × (after.current_cfg ≡ u.current_cfg))
  restarts_iff-poll a u = (
    (
      λ e. elim (Restarts-only_if a u) [
        | inl r ↦ r
        | inr (stay, _) ↦ absurd (omega (arith, e, stay))
      ],
      λ (new, r). (Restarts-if a u new r).0,
    ),
    λ new r. (Restarts-if a u new r).1,
    λ n. elim (Restarts-only_if a u) [
      | inl (new, r) ↦ absurd (n (Restarts-if a u new r).0)
      | inr stay ↦ stay
    ],
  )

  -- Polling again with the same answers changes nothing: no deployment restarts the agent twice, and
  -- one whose configuration did not load is not tried again under its version.
  pub poll-poll :
      (a : Answers) (u : RemoteConfigReloader C)
      → (poll unmarshals load_with_defaults diff a
          (poll unmarshals load_with_defaults diff a u).0).0
        ≡ (poll unmarshals load_with_defaults diff a u).0
  unfolding poll compare_res_ver set_resource_version_for_all query_config compare_configs
      load_config process_new_config restart_if
  poll-poll a u = ground arith
