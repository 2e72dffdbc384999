-- ===== src/Plugin/Manager.antt =====
-- pkg/plugin/manager.go: how the manager loads the indexes, looks up and downloads the plugins to
-- enable, starts their clients, and hands them out. The binaries on disk are a map from their paths to
-- what they hold; a download, processes, `filepath.Dir` and `filepath.Join` are parameters.
pub mod Clients
pub mod Started
pub mod Loaded
pub mod Files
use botkube.Base.{
  String, Bool, true, false, Option, none, some, List, [], ◌∷◌, ◌++◌, ◌⊎◌, inl, inr, Dict, lookup,
  insert, ◌==◌, if◌then◌else◌, ◌&&◌,
}
use Prim.Native.String.{◌++◌ as ◌+++◌}
use botkube.Config.Keys.{decompose_plugin_key}
use botkube.Plugin.Index.{PluginType, Index, type_source, type_executor}
use botkube.Plugin.Monitor.{EnabledPlugin}
use botkube.Plugin.Store.{
  Url, StoreEntry, StoreRepository, StorePlugins, Repositories, StoreError, get_entries, get_plugin,
  new_store_repositories,
}

-- The issues that `collectEnabledRepositories` collects.
pub data RepositoryIssue : Type 0 where
  invalid_plugin_key : (key : String) → RepositoryIssue
  undefined_repository : (repo : String) (type : PluginType) (key : String) → RepositoryIssue

-- The errors of the manager; `IsNotFoundError` finds those made by `NewNotFoundPluginError`, wrapped
-- or not.
pub data ManagerError : Type 0 where
  invalid_key : (key : String) → ManagerError
  invalid_repositories : List RepositoryIssue → ManagerError
  index_not_loaded : (repo : String) → ManagerError
  store_failed : StoreError → ManagerError
  not_found : (type : PluginType) (name repo : String) → ManagerError
  no_url : (selector : String) → ManagerError
  no_dependency_url : (dep_name bin_path : String) → ManagerError
  directory_not_created : (bin_path : String) → ManagerError
  not_downloaded : (path : String) → ManagerError
  -- the error of `loadPlugins` for a plugin that could not be fetched
  not_fetched : (key : String) → ManagerError → ManagerError
  client_failed : (type : PluginType) (key : String) → ManagerError

abbrev pub is_not_found_error : ManagerError → Bool
is_not_found_error (not_found _ _ _) = true
is_not_found_error (no_url _) = true
is_not_found_error (no_dependency_url _ _) = true
is_not_found_error (not_fetched _ err) = is_not_found_error err
is_not_found_error (invalid_key _) = false
is_not_found_error (invalid_repositories _) = false
is_not_found_error (index_not_loaded _) = false
is_not_found_error (store_failed _) = false
is_not_found_error (directory_not_created _) = false
is_not_found_error (not_downloaded _) = false
is_not_found_error (client_failed _ _) = false

-- `store`: a repository and the enabled plugins.
pub record Store (C : Type 0) : Type 0 where
  pub repository : StoreRepository
  pub enabled_plugins : StorePlugins C

-- The binaries on disk, by their paths.
abbrev pub Files : Type 0
Files = Dict String

-- The manager, with clients `E` of executors and `S` of sources, and repositories configured by `R`.
pub record Manager (E S R : Type 0) : Type 0 where
  pub is_started : Bool
  pub monitoring : Bool
  pub cache_dir : String
  pub files : Files
  pub repositories : Dict R
  pub executors_to_enable : List String
  pub executors_store : Store E
  pub sources_to_enable : List String
  pub sources_store : Store S

-- What the manager calls.
pub record World (E S R D : Type 0) : Type 0 where
  -- fetching where forced or missing, and reading, the index of a repository
  pub load_index : (force_update : Bool) → String → R → Option D
  pub unmarshal : D → Option Index
  pub sort_by : (StoreEntry → StoreEntry → Bool) → List StoreEntry → List StoreEntry
  pub greater_than : String → String → Option Bool
  pub join : List String → String
  -- `runtime.GOOS/runtime.GOARCH`
  pub selector : String
  pub make_dir : (bin_path : String) → Bool
  -- what `downloadBinary` puts at a path, none for an error
  pub download_binary : (dest_path : String) → Url → (auto_detect_filename : Bool) → Option String
  pub create_executor : (key bin_path : String) → Option (EnabledPlugin E)
  pub create_source : (key bin_path : String) → Option (EnabledPlugin S)

-- The closure `collect` of `collectEnabledRepositories`: the repositories and the issues.
unfoldable pub collect_repositories :
    {R : Type 0} → Dict R → PluginType → List String → List String × List RepositoryIssue
collect_repositories repositories type [] = ([], [])
collect_repositories repositories type (plugin_key ∷ plugin_keys) =
    let (out, issues) = collect_repositories repositories type plugin_keys in
    elim (decompose_plugin_key plugin_key) [
      | none ↦ (out, invalid_plugin_key plugin_key ∷ issues)
      | some (repo_name, _, _) ↦ elim (lookup repo_name repositories) [
        | none ↦ (out, undefined_repository repo_name type plugin_key ∷ issues)
        | some _ ↦ (repo_name ∷ out, issues)
      ]
    ]

-- `if err := issues.ErrorOrNil(); err != nil`
abbrev pub issues_or : {A : Type 0} → List RepositoryIssue → A → ManagerError ⊎ A
issues_or [] a = inr a
issues_or (i ∷ is) a = inl (invalid_repositories (i ∷ is))

abbrev pub is_nil : List String → Bool
is_nil [] = true
is_nil (_ ∷ _) = false

-- The version that the key asks for, or the latest.
abbrev pub version_or_latest : String → StoreEntry → String
version_or_latest ver latest = if ver == "" then latest.version else ver

module _ {E S R D : Type 0} (w : World E S R D) where
  -- `collectEnabledRepositories`
  unfoldable pub collect_enabled_repositories : Manager E S R → ManagerError ⊎ List String
  unfolding collect_repositories
  collect_enabled_repositories m =
      let (executors, issues) =
        collect_repositories m.repositories type_executor m.executors_to_enable in
      let (sources, issues') =
        collect_repositories m.repositories type_source m.sources_to_enable in
      issues_or (issues ++ issues') (executors ++ sources)

  -- The loop that loads the index of each repository; the zero value of a repository that is not
  -- configured is never used, as `collectEnabledRepositories` refuses it.
  unfoldable pub load_indexes : Bool → Dict R → List String → Dict D → ManagerError ⊎ Dict D
  load_indexes force_update repositories [] raw = inr raw
  load_indexes force_update repositories (repo ∷ repos) raw = elim (lookup repo repositories) [
    | none ↦ inl (index_not_loaded repo)
    | some entry ↦ elim (w.load_index force_update repo entry) [
      | none ↦ inl (index_not_loaded repo)
      | some data_ ↦ load_indexes force_update repositories repos (insert repo data_ raw)
    ]
  ]

  -- `loadRepositoriesMetadata`
  unfoldable pub load_repositories_metadata : Bool → Manager E S R → ManagerError ⊎ Manager E S R
  unfolding collect_enabled_repositories load_indexes new_store_repositories
  load_repositories_metadata force_update m = elim (collect_enabled_repositories m) [
    | inl err ↦ inl err
    | inr repos ↦ elim (load_indexes force_update m.repositories repos []) [
      | inl err ↦ inl err
      | inr raw ↦ elim (new_store_repositories w.unmarshal w.sort_by w.greater_than raw) [
        | inl err ↦ inl (store_failed err)
        | inr r ↦ inr (record m {
          executors_store = record m.executors_store { repository = r.executors };
          sources_store = record m.sources_store { repository = r.sources };
        })
      ]
    ]
  ]

  -- `binPath`
  abbrev pub bin_path : String → PluginType → String → String → String → String
  bin_path cache_dir type repo_name ver plugin_name =
      w.join (cache_dir ∷ repo_name ∷ (type +++ "_" +++ ver +++ "_" +++ plugin_name) ∷ [])

  -- The loop over the dependencies of a binary, with the files that it leaves; an existing file is
  -- kept.
  unfoldable pub download_dependencies :
      String → Dict (Dict String) → Files → Files × Option ManagerError
  download_dependencies bin_path [] files = (files, none)
  download_dependencies bin_path ((dep_name, dep) ∷ dependencies) files =
      let dep_path = w.join ((bin_path +++ "_deps") ∷ dep_name ∷ []) in
      elim (lookup dep_path files) [
        | some _ ↦ download_dependencies bin_path dependencies files
        | none ↦ elim (lookup w.selector dep) [
          | none ↦ (files, some (no_dependency_url dep_name bin_path))
          | some url ↦
              elim (w.download_binary dep_path (record { url = url; checksum = "" }) false) [
                | none ↦ (files, some (not_downloaded dep_path))
                | some content ↦
                    download_dependencies bin_path dependencies (insert dep_path content files)
              ]
        ]
      ]

  -- The binary itself.
  unfoldable pub download_plugin : String → StoreEntry → Files → Files × Option ManagerError
  download_plugin bin_path info files = elim (lookup bin_path files) [
    | some _ ↦ (files, none)
    | none ↦
        if w.make_dir bin_path
        then elim (lookup w.selector info.urls) [
          | none ↦ (files, some (no_url w.selector))
          | some url ↦ elim (w.download_binary bin_path url true) [
            | none ↦ (files, some (not_downloaded bin_path))
            | some content ↦ (insert bin_path content files, none)
          ]
        ]
        else (files, some (directory_not_created bin_path))
  ]

  -- `ensurePluginDownloaded`
  unfoldable pub ensure_plugin_downloaded :
      String → StoreEntry → Files → Files × Option ManagerError
  unfolding download_plugin download_dependencies
  ensure_plugin_downloaded bin_path info files =
      let (files', err) = download_plugin bin_path info files in
      elim err [
        | some e ↦ (files', some e)
        | none ↦ download_dependencies bin_path info.dependencies files'
      ]

  -- `loadPlugins`: the binary of each plugin, and the files that are left. The first candidate is the
  -- latest version.
  unfoldable pub load_plugins :
      String
      → PluginType
      → StoreRepository
      → List String
      → Files
      → Dict String
      → Files × (ManagerError ⊎ Dict String)
  unfolding ensure_plugin_downloaded
  load_plugins cache_dir type repo [] files loaded = (files, inr loaded)
  load_plugins cache_dir type repo (plugin_key ∷ plugins_to_enable) files loaded =
      elim (decompose_plugin_key plugin_key) [
        | none ↦ (files, inl (invalid_key plugin_key))
        | some (repo_name, plugin_name, ver) ↦ elim (get_entries repo_name plugin_name repo) [
          | none ↦ (files, inl (not_found type plugin_name repo_name))
          | some candidates ↦ elim candidates [
            | [] ↦ (files, inl (not_found type plugin_name repo_name))
            | latest ∷ _ ↦
                let path =
                  bin_path cache_dir type repo_name (version_or_latest ver latest) plugin_name in
                let (files', err) = ensure_plugin_downloaded path latest files in
                elim err [
                  | some e ↦ (files', inl (not_fetched plugin_key e))
                  | none ↦
                      load_plugins cache_dir type repo plugins_to_enable files'
                        (insert plugin_key path loaded)
                ]
          ]
        ]
      ]

  -- `createGRPCClients`; `create` is `createGRPCClient`.
  unfoldable pub create_grpc_clients :
      {C : Type 0}
      → (String → String → Option (EnabledPlugin C))
      → PluginType
      → Dict String
      → StorePlugins C
      → ManagerError ⊎ StorePlugins C
  create_grpc_clients create type [] out = inr out
  create_grpc_clients create type ((key, path) ∷ plugin_meta) out = elim (create key path) [
    | none ↦ inl (client_failed type key)
    | some p ↦ create_grpc_clients create type plugin_meta (insert key p out)
  ]

  -- Loading and starting the plugins of one type, with the files that are left.
  unfoldable pub enable_plugins :
      {C : Type 0}
      → (String → String → Option (EnabledPlugin C))
      → String
      → PluginType
      → StoreRepository
      → List String
      → Files
      → Files × (ManagerError ⊎ StorePlugins C)
  unfolding load_plugins create_grpc_clients
  enable_plugins create cache_dir type repo plugins_to_enable files =
      let (files', loaded) = load_plugins cache_dir type repo plugins_to_enable files [] in
      elim loaded [
        | inl err ↦ (files', inl err)
        | inr plugins ↦ (files', create_grpc_clients create type plugins [])
      ]

  -- The executors of `start`.
  unfoldable pub enable_executors : Manager E S R → Manager E S R × Option ManagerError
  unfolding enable_plugins
  enable_executors m =
      let (files, enabled) =
        enable_plugins w.create_executor m.cache_dir type_executor m.executors_store.repository
          m.executors_to_enable m.files in
      elim enabled [
        | inl err ↦ (record m { files = files }, some err)
        | inr plugins ↦ (
          record m {
            files = files;
            executors_store = record m.executors_store { enabled_plugins = plugins };
          },
          none,
        )
      ]

  -- The sources of `start`.
  unfoldable pub enable_sources : Manager E S R → Manager E S R × Option ManagerError
  unfolding enable_plugins
  enable_sources m =
      let (files, enabled) =
        enable_plugins w.create_source m.cache_dir type_source m.sources_store.repository
          m.sources_to_enable m.files in
      elim enabled [
        | inl err ↦ (record m { files = files }, some err)
        | inr plugins ↦ (
          record m {
            files = files;
            sources_store = record m.sources_store { enabled_plugins = plugins };
          },
          none,
        )
      ]

  -- `start`, with the error that it returns.
  unfoldable pub start_plugins : Bool → Manager E S R → Manager E S R × Option ManagerError
  unfolding load_repositories_metadata enable_executors enable_sources
  start_plugins force_update m = elim (load_repositories_metadata force_update m) [
    | inl err ↦ (m, some err)
    | inr m1 ↦
        let (m2, err) = enable_executors m1 in
        elim err [ some e ↦ (m2, some e) | none ↦ enable_sources m2 ]
  ]

  -- `Start`
  unfoldable pub start_manager : Manager E S R → Manager E S R × Option ManagerError
  unfolding start_plugins
  start_manager m =
      if is_nil m.executors_to_enable && is_nil m.sources_to_enable
      then (m, none)
      else let (m', err) = start_plugins false m in
        elim err [
          | none ↦ (record m' { monitoring = true; is_started = true }, none)
          | some e ↦ if is_not_found_error e then start_plugins true m' else (m', some e)
        ]
