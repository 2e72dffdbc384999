-- ===== src/Plugin/Store.antt =====
-- pkg/plugin/store.go: the repositories of known plugins, and the store of enabled ones. The YAML
-- reader, `sort.Sort` and the order of versions are parameters.
pub mod Content
pub mod Sorted
use botkube.Base.{
  String, Bool, true, false, Option, none, some, List, [], ◌∷◌, ◌++◌, ◌==◌, Dict, lookup, insert,
  remove, ◌⊎◌, inl, inr, get_or_zero, if◌then◌else◌,
}
use Prim.Native.String.{◌++◌ as ◌+++◌}
use botkube.Plugin.Index.{
  JsonSchema, Dependencies, IndexUrl, IndexEntry, Index, type_source, type_executor, validate,
}
use botkube.Plugin.Monitor.{EnabledPlugin}

pub record Url : Type 0 where
  pub url : String
  pub checksum : String

pub record StoreEntry : Type 0 where
  pub description : String
  pub version : String
  pub documentation_url : String
  pub urls : Dict Url
  pub dependencies : Dict (Dict String)
  pub json_schema : JsonSchema
  pub recommended : Bool

-- `storeRepository`: the entries by repository and name.
abbrev pub StoreRepository : Type 0
StoreRepository = Dict (List StoreEntry)

-- `key`
abbrev pub repository_key : String → String → String
repository_key repo name = repo +++ "/" +++ name

-- `storeRepository.Insert`
unfoldable pub insert_entry : String → String → StoreEntry → StoreRepository → StoreRepository
insert_entry repo name entry s =
    let key = repository_key repo name in insert key (get_or_zero [] key s ++ entry ∷ []) s

-- `storeRepository.Get`
abbrev pub get_entries : String → String → StoreRepository → Option (List StoreEntry)
get_entries repo name s = lookup (repository_key repo name) s

-- The loop over the dependencies of one platform.
unfoldable pub add_dependencies : String → Dependencies → Dict (Dict String) → Dict (Dict String)
add_dependencies key [] deps = deps
add_dependencies key ((dep_name, dep) ∷ dependencies) deps =
    add_dependencies key dependencies
      (insert dep_name (insert key dep.url (get_or_zero [] dep_name deps)) deps)

-- `mapBinaryURLs`, on what is collected so far. A nil map of dependencies is an empty one.
unfoldable pub map_binary_urls :
    List IndexUrl → Dict Url × Dict (Dict String) → Dict Url × Dict (Dict String)
unfolding add_dependencies
map_binary_urls [] maps = maps
map_binary_urls (item ∷ items) (plugin_bins, deps) =
    let key = item.platform.os +++ "/" +++ item.platform.arch in
    map_binary_urls items (
      insert key (record { url = item.url; checksum = item.checksum }) plugin_bins,
      add_dependencies key item.dependencies deps,
    )

-- The `storeEntry` of an entry of an index.
unfoldable pub store_entry : IndexEntry → StoreEntry
unfolding map_binary_urls
store_entry e =
    let (bin_urls, dep_urls) = map_binary_urls e.urls ([], []) in
    record {
      description = e.description;
      version = e.version;
      documentation_url = e.documentation_url;
      urls = bin_urls;
      dependencies = dep_urls;
      json_schema = e.json_schema;
      recommended = e.recommended;
    }

-- The `executorsRepositories` and `sourcesRepositories`.
pub record Repositories : Type 0 where
  pub executors : StoreRepository
  pub sources : StoreRepository

-- The `switch` on the type of an entry.
unfoldable pub add_entry : String → IndexEntry → Repositories → Repositories
unfolding insert_entry store_entry
add_entry repo e r =
    if e.type == type_executor
    then record r { executors = insert_entry repo e.name (store_entry e) r.executors }
    else if e.type == type_source
    then record r { sources = insert_entry repo e.name (store_entry e) r.sources }
    else r

unfoldable pub add_entries : String → List IndexEntry → Repositories → Repositories
unfolding add_entry
add_entries repo [] r = r
add_entries repo (e ∷ entries) r = add_entries repo entries (add_entry repo e r)

-- The errors of `newStoreRepositories`.
pub data StoreError : Type 0 where
  unmarshal_failed : StoreError
  invalid_index : (repo : String) → StoreError

-- `yaml.Unmarshal` into an index, `none` for an error.
module _ {D : Type 0} (unmarshal : D → Option Index) where
  -- The loop over the indexes.
  unfoldable pub add_indexes : Dict D → Repositories → StoreError ⊎ Repositories
  unfolding add_entries
  add_indexes [] r = inr r
  add_indexes ((repo, data_) ∷ indexes) r = elim (unmarshal data_) [
    | none ↦ inl unmarshal_failed
    | some index ↦ elim (validate index) [
      | [] ↦ add_indexes indexes (add_entries repo index.entries r)
      | _ ∷ _ ↦ inl (invalid_index repo)
    ]
  ]

-- `sort.Sort`, by `Less`.
module _ (sort_by : (StoreEntry → StoreEntry → Bool) → List StoreEntry → List StoreEntry)
    (greater_than : String → String → Option Bool) where
  -- `semvVerAGreaterThanB`; `none` is a version that cannot be read.
  abbrev pub semv_ver_a_greater_than_b : String → String → Bool
  semv_ver_a_greater_than_b a b = elim (greater_than a b) [ some g ↦ g | none ↦ false ]

  -- `byIndexEntryVersion.Less`
  abbrev pub by_index_entry_version : StoreEntry → StoreEntry → Bool
  by_index_entry_version a b = semv_ver_a_greater_than_b a.version b.version

  -- The loops that sort the entries of each key.
  unfoldable pub sort_entries : StoreRepository → StoreRepository
  sort_entries [] = []
  sort_entries ((key, entries) ∷ s) = (key, sort_by by_index_entry_version entries) ∷ sort_entries s

module _ {D : Type 0} (unmarshal : D → Option Index)
    (sort_by : (StoreEntry → StoreEntry → Bool) → List StoreEntry → List StoreEntry)
    (greater_than : String → String → Option Bool) where
  -- `newStoreRepositories`
  unfoldable pub new_store_repositories : Dict D → StoreError ⊎ Repositories
  unfolding add_indexes sort_entries
  new_store_repositories indexes =
      elim (add_indexes unmarshal indexes (record { executors = []; sources = [] })) [
        | inl err ↦ inl err
        | inr r ↦ inr (record {
          executors = sort_entries sort_by greater_than r.executors;
          sources = sort_entries sort_by greater_than r.sources;
        })
      ]

-- `storePlugins`: the enabled plugins by their key, with `Insert`, `Get` and `Delete`.
abbrev pub StorePlugins : Type 0 → Type 0
StorePlugins C = Dict (EnabledPlugin C)

abbrev pub insert_plugin : {C : Type 0} → String → EnabledPlugin C → StorePlugins C → StorePlugins C
insert_plugin key plugin p = insert key plugin p

abbrev pub get_plugin : {C : Type 0} → String → StorePlugins C → Option (EnabledPlugin C)
get_plugin key p = lookup key p

abbrev pub delete_plugin : {C : Type 0} → String → StorePlugins C → StorePlugins C
delete_plugin key p = remove key p
