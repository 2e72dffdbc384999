-- ===== src/Plugin/Manager/Clients.antt =====
-- pkg/plugin/manager.go: handing out the clients, and releasing them.
use botkube.Base.{String, Bool, none, some, List, [], ◌∷◌, ◌++◌, if◌then◌else◌}
use botkube.Plugin.Store.{StorePlugins, get_plugin}
use botkube.Plugin.Manager.{Manager}

-- `GetExecutor` and `GetSource`: not started, not found, or a client.
pub data Client (C : Type 0) : Type 0 where
  not_started : Client C
  client_not_found : (name : String) → Client C
  found : C → Client C

abbrev pub get_client : {C : Type 0} → Bool → String → StorePlugins C → Client C
get_client is_started name plugins =
    if is_started
    then elim (get_plugin name plugins) [ none ↦ client_not_found name | some p ↦ found p.client ]
    else not_started

abbrev pub get_executor : {E S R : Type 0} → String → Manager E S R → Client E
get_executor name m = get_client m.is_started name m.executors_store.enabled_plugins

abbrev pub get_source : {E S R : Type 0} → String → Manager E S R → Client S
get_source name m = get_client m.is_started name m.sources_store.enabled_plugins

-- The keys of the plugins whose `Cleanup` is called by `releasePlugins`; one without is skipped.
unfoldable pub release_plugins : {C : Type 0} → StorePlugins C → List String
release_plugins [] = []
release_plugins ((key, p) ∷ plugins) =
    let rest = release_plugins plugins in if p.cleanup then key ∷ rest else rest

-- `Shutdown`, sources first; the goroutines run in any order.
abbrev pub shutdown : {E S R : Type 0} → Manager E S R → List String
unfolding release_plugins
shutdown m =
    release_plugins m.sources_store.enabled_plugins
    ++ release_plugins m.executors_store.enabled_plugins
