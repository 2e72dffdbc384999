-- ===== src/Plugin/ManagerTests.antt =====
-- A manager whose cached index lacks the plugin to enable, which the updated index has.
use botkube.Base.{
  Dict, lookup, insert, String, ◌≡◌, ◌↔◌, inl, inr, In, refl, ap, true, false, Option, none, some,
  List, [], ◌∷◌, lookup, insert, if◌then◌else◌,
}
use Prim.Native.String.{◌++◌ as ◌+++◌}
use botkube.Base.Text.{cut}
use botkube.Config.Keys.{decompose_plugin_key}
use botkube.Plugin.Index.{Index, validate}
use botkube.Plugin.Catalog.{repositories, index, sort_by, greater_than, unmarshal}
use botkube.Plugin.Monitor.{EnabledPlugin}
use botkube.Plugin.Manager.{
  Manager, World, ManagerError, not_fetched, no_url, start_plugins, start_manager, load_plugins,
}
use botkube.Plugin.Manager.Loaded.{AllResolved, FromKeys, resolved-load_plugins}
use botkube.Plugin.Store.{store_entry}
use botkube.Plugin.Manager.Files.{Grows}
use botkube.Plugin.Manager.Clients.{not_started, get_executor, get_source}
use botkube.Plugin.Manager.Started.{NotFound, started_iff-start_manager}

abbrev create : String → String → Option (EnabledPlugin String)
create key path = some (record { client = path; cleanup = true })

abbrev join : List String → String
join [] = ""
join (s ∷ l) = s +++ "/" +++ join l

abbrev world : World String String String Index
world = record {
  load_index =
      λ force_update repo url. some (if force_update then index else record { entries = [] });
  unmarshal = unmarshal;
  sort_by = sort_by;
  greater_than = greater_than;
  join = join;
  selector = "linux/amd64";
  make_dir = λ path. true;
  download_binary = λ path url auto. some url.url;
  create_executor = create;
  create_source = create;
}

abbrev manager : Manager String String String
manager = record {
  is_started = false;
  monitoring = false;
  cache_dir = "/tmp";
  files = [];
  repositories = ("botkube", "https://example.com/index") ∷ [];
  executors_to_enable = "botkube/kubectl" ∷ [];
  executors_store = record { repository = []; enabled_plugins = [] };
  sources_to_enable = [];
  sources_store = record { repository = []; enabled_plugins = [] };
}

-- The second start succeeds, and the plugin that it started is not handed out.
retried :
    let after = start_manager world manager in
    (after.1 ≡ none) × (get_executor "botkube/kubectl" after.0 ≡ not_started)
unfolding start_manager start_plugins decompose_plugin_key cut lookup insert validate
retried = (refl, refl)

-- A binary without a URL for the platform is answered by a second start with updated indexes, too.
abbrev other_platform : World String String String Index
other_platform = record world {
  load_index = λ force_update repo url. some index;
  selector = "plan9/arm";
}

no_url_retries :
    let first = start_plugins other_platform false manager in
    (first.1 ≡ some (not_fetched "botkube/kubectl" (no_url "plan9/arm")))
    × (start_manager other_platform manager ≡ start_plugins other_platform true first.0)
unfolding start_manager start_plugins decompose_plugin_key cut lookup insert validate
no_url_retries = (refl, refl)

started_iff-start_manager_example :
    let (after, result) = start_manager other_platform manager in
    let (first, failure) = start_plugins other_platform false manager in
    ((after.is_started ≡ true) ↔ (failure ≡ none))
    × (failure ≡ none → result ≡ none)
    × ((e : ManagerError)
        → failure ≡ some e
        → (NotFound e → result ≡ (start_plugins other_platform true first).1)
          × (¬ NotFound e → result ≡ some e)
          × ((name : String)
              → (get_executor name after ≡ not_started) × (get_source name after ≡ not_started)))
started_iff-start_manager_example =
    started_iff-start_manager other_platform manager refl (inl (λ n. cc))

abbrev binary : String
binary = "/tmp/botkube/executor_1.0.0_kubectl/"

abbrev binaries : Dict String
binaries = ("botkube/kubectl@1.0.0", binary) ∷ []

-- The binary is named after the version that was asked for, and holds the latest one, 1.1.0.
pinned :
    load_plugins world "/tmp" "executor" repositories.executors ("botkube/kubectl@1.0.0" ∷ []) [] []
    ≡ (
      (binary, "https://example.com/kubectl")
          ∷ (binary +++ "_deps/kubectl/", "https://example.com/dep")
          ∷ [],
      inr binaries,
    )
unfolding load_plugins decompose_plugin_key cut lookup insert store_entry
pinned = refl

-- A binary that is there is not downloaded again.
kept :
    (load_plugins
      (record world { download_binary = λ path url auto. none })
      "/tmp"
      "executor"
      repositories.executors
      ("botkube/kubectl@1.0.0" ∷ [])
      ((binary, "old") ∷ (binary +++ "_deps/kubectl/", "old") ∷ [])
      []).1
    ≡ inr binaries
unfolding load_plugins decompose_plugin_key cut lookup insert store_entry
kept = refl

resolved-load_plugins_example :
    let after =
      (load_plugins world "/tmp" "executor" repositories.executors
        ("botkube/kubectl@1.0.0" ∷ [])
        []
        []).0 in
    AllResolved world "/tmp" "executor" repositories.executors after binaries
    × ((key : String)
        → In key ("botkube/kubectl@1.0.0" ∷ [])
        → (path : String) × (lookup key binaries ≡ some path))
    × Grows
        (FromKeys world "/tmp" "executor" repositories.executors ("botkube/kubectl@1.0.0" ∷ []))
        []
        after
resolved-load_plugins_example =
    resolved-load_plugins world "/tmp" "executor" repositories.executors
      ("botkube/kubectl@1.0.0" ∷ []) [] binaries (ap (λ z. z.1) pinned)
