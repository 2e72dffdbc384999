-- ===== src/Plugin/Manager/Started.antt =====
-- When the manager of pkg/plugin/manager.go hands out clients.
use botkube.Base.{
  nil_cases, ◌≢◌, some, [], Bool-cases, String, ◌≡◌, ◌↔◌, ◌⊎◌, inl, inr, refl, Bool, true, false,
  ◌&&◌, none, some, arith, Option-cases,
}
use botkube.Plugin.Index.{PluginType}
use botkube.Plugin.Manager.{
  is_not_found_error, not_found, no_url, no_dependency_url, not_fetched, invalid_key,
  invalid_repositories, index_not_loaded, store_failed, directory_not_created, not_downloaded,
  client_failed, Manager, World, ManagerError, is_nil, load_repositories_metadata, start_plugins,
  start_manager,
}
use botkube.Plugin.Manager.Clients.{not_started, get_executor, get_source}

-- The error was made by `NewNotFoundPluginError`: for a plugin that the repository lacks, or for a binary
-- or a dependency without a URL for the platform, also where the error of a plugin wraps it.
pub data NotFound : ManagerError → Type 0 where
  missing_plugin : (type : PluginType) (name repo : String) → NotFound (not_found type name repo)
  missing_url : (selector : String) → NotFound (no_url selector)
  missing_dependency_url :
      (dep_name bin_path : String) → NotFound (no_dependency_url dep_name bin_path)
  wrapped : (key : String) (e : ManagerError) → NotFound e → NotFound (not_fetched key e)

found-NotFound : (e : ManagerError) → is_not_found_error e ≡ true → NotFound e
found-NotFound (not_found type name repo) h = missing_plugin type name repo
found-NotFound (no_url selector) h = missing_url selector
found-NotFound (no_dependency_url dep_name bin_path) h = missing_dependency_url dep_name bin_path
found-NotFound (not_fetched key e) h = wrapped key e (found-NotFound e h)
found-NotFound (invalid_key key) h = cc
found-NotFound (invalid_repositories issues) h = cc
found-NotFound (index_not_loaded repo) h = cc
found-NotFound (store_failed e) h = cc
found-NotFound (directory_not_created path) h = cc
found-NotFound (not_downloaded path) h = cc
found-NotFound (client_failed type key) h = cc

NotFound-found : (e : ManagerError) → NotFound e → is_not_found_error e ≡ true
NotFound-found _ (missing_plugin type name repo) = refl
NotFound-found _ (missing_url selector) = refl
NotFound-found _ (missing_dependency_url dep_name bin_path) = refl
NotFound-found _ (wrapped key e n) = NotFound-found e n

sum_cases : {A B : Type 0} (v : A ⊎ B) → ((a : A) × (v ≡ inl a)) ⊎ ((b : B) × (v ≡ inr b))
sum_cases (inl a) = inl (a, refl)
sum_cases (inr b) = inr (b, refl)

module _ {E S R D : Type 0} (w : World E S R D) where
  metadata-started :
      (force_update : Bool) (m m1 : Manager E S R)
      → load_repositories_metadata w force_update m ≡ inr m1
      → (m1.is_started ≡ m.is_started) × (m1.monitoring ≡ m.monitoring)
  unfolding load_repositories_metadata
  metadata-started force_update m m1 e = ground arith

  start_plugins-started :
      (force_update : Bool) (m : Manager E S R)
      → ((start_plugins w force_update m).0.is_started ≡ m.is_started)
        × ((start_plugins w force_update m).0.monitoring ≡ m.monitoring)
  unfolding start_plugins
  start_plugins-started force_update m =
      elim (sum_cases (load_repositories_metadata w force_update m)) [
        | inl (err, e) ↦ ground (arith, e)
        | inr (m1, e) ↦ ground (arith, e, metadata-started force_update m m1 e)
      ]

  -- Some plugin is to be enabled.
  abbrev pub HasPlugins : Manager E S R → Type 0
  HasPlugins m = (m.executors_to_enable ≢ []) ⊎ (m.sources_to_enable ≢ [])

  HasPlugins-iff :
      (m : Manager E S R)
      → ((is_nil m.executors_to_enable && is_nil m.sources_to_enable) ≡ false) ↔ HasPlugins m
  HasPlugins-iff m = elim (nil_cases m.executors_to_enable) [
    | inr (x, xs, e) ↦ rw e (λ h. inl (λ n. cc), λ h. refl)
    | inl e ↦ elim (nil_cases m.sources_to_enable) [
      | inr (x, xs, f) ↦ rw (e, f) (λ h. inr (λ n. cc), λ h. refl)
      | inl f ↦
          rw (e, f) (λ h. cc, λ h. elim h [ inl n ↦ absurd (n refl) | inr n ↦ absurd (n refl) ])
    ]
  ]

  -- `Start` of a manager that is not started and has plugins to enable. If the first start returns no
  -- error, the manager is started, and `Start` returns no error. If it returns an error that was made
  -- for a plugin that is not found, be it missing from the repository or without a URL for the platform,
  -- then `Start` returns what a second start with updated indexes returns. Any other error is returned.
  -- After any error of the first start every `GetExecutor` and `GetSource` answers that the manager is
  -- not started, whatever the second start returned.
  pub started_iff-start_manager :
      (m : Manager E S R)
      → m.is_started ≡ false
      → HasPlugins m
      → let (after, result) = start_manager w m in
        let (first, failure) = start_plugins w false m in
        ((after.is_started ≡ true) ↔ (failure ≡ none))
        × (failure ≡ none → result ≡ none)
        × ((e : ManagerError)
            → failure ≡ some e
            → (NotFound e → result ≡ (start_plugins w true first).1)
              × (¬ NotFound e → result ≡ some e)
              × ((name : String)
                  → (get_executor name after ≡ not_started)
                    × (get_source name after ≡ not_started)))
  unfolding start_manager
  started_iff-start_manager m off has =
      let some_plugin = (HasPlugins-iff m).1 has in
      let first = start_plugins-started false m in
      let second = start_plugins-started true (start_plugins w false m).0 in
      elim (Option-cases (start_plugins w false m).1) [
        | inl e ↦ (
          ground (arith, e, off, first, some_plugin),
          λ h. ground (arith, e, some_plugin),
          λ err h. cc (e, h),
        )
        | inr (err, e) ↦ (
          ground (arith, e, off, first, second, some_plugin),
          λ h. cc (e, h),
          λ err' h. (
            λ n. ground (arith, h, some_plugin, NotFound-found err' n),
            λ n. elim (Bool-cases (is_not_found_error err')) [
              | inl t ↦ absurd (n (found-NotFound err' t))
              | inr f ↦ ground (arith, h, f, some_plugin)
            ],
            λ name. ground (arith, e, off, first, second, some_plugin),
          ),
        )
      ]
