-- ===== src/Plugin/Store/Sorted.antt =====
-- The repositories of pkg/plugin/store.go once they are sorted.
use botkube.Base.{
  String, ◌≡◌, ◌↔◌, ◌⊎◌, inl, inr, refl, sym, Bool, Option, none, some, List, [], ◌∷◌, Dict, lookup,
  In, arith, Option-cases,
}
use botkube.Base.Adds.{Adds-empty}
use botkube.Plugin.Index.{Index}
use botkube.Plugin.Store.{
  StoreEntry, StoreRepository, Repositories, add_indexes, sort_entries, by_index_entry_version,
  new_store_repositories, StoreError,
}
use botkube.Plugin.Store.Content.{
  Side, executor_side, source_side, repository, Holds, Stored, no_repositories, starts_empty,
  add_indexes-Adds, inr-eq,
}

iff_trans : {A B C : Type 0} → A ↔ B → B ↔ C → A ↔ C
iff_trans f g = (λ a. g.0 (f.0 a), λ c. f.1 (g.1 c))

module _ (key : String) (x : StoreEntry) {D : Type 0} (unmarshal : D → Option Index)
    (sort_by : (StoreEntry → StoreEntry → Bool) → List StoreEntry → List StoreEntry)
    (greater_than : String → String → Option Bool) where
  sorted_lookup :
      (s : StoreRepository)
      → lookup key (sort_entries sort_by greater_than s) ≡ elim (lookup key s) [
        | none ↦ none
        | some l ↦ some (sort_by (by_index_entry_version sort_by greater_than) l)
      ]
  unfolding sort_entries lookup
  sorted_lookup [] = refl
  sorted_lookup ((k, l) ∷ s) = ground (arith, sorted_lookup s)

  sorted_from :
      (s : StoreRepository) (entries : List StoreEntry)
      → lookup key (sort_entries sort_by greater_than s) ≡ some entries
      → (l : List StoreEntry) × (entries ≡ sort_by (by_index_entry_version sort_by greater_than) l)
  sorted_from s entries e = elim (Option-cases (lookup key s)) [
    | inl l ↦ absurd (ground (arith, l, e, sorted_lookup s))
    | inr (found, l) ↦ (found, ground (arith, l, e, sorted_lookup s))
  ]

  abbrev sorted : Repositories → Repositories
  sorted r = record {
    executors = sort_entries sort_by greater_than r.executors;
    sources = sort_entries sort_by greater_than r.sources;
  }

  sorted_repository :
      (side : Side) (r : Repositories)
      → repository side (sorted r) ≡ sort_entries sort_by greater_than (repository side r)
  sorted_repository executor_side r = refl
  sorted_repository source_side r = refl

  from_sum :
      (v : StoreError ⊎ Repositories) (r : Repositories)
      → (elim v [ inl err ↦ inl err | inr raw ↦ inr (sorted raw) ]) ≡ inr r
      → (raw : Repositories) × (v ≡ inr raw) × (r ≡ sorted raw)
  from_sum (inl err) r e = absurd cc
  from_sum (inr raw) r e = (raw, refl, sym (inr-eq (sorted raw) r e))

  added :
      (indexes : Dict D) (r : Repositories)
      → new_store_repositories unmarshal sort_by greater_than indexes ≡ inr r
      → (raw : Repositories) × (add_indexes unmarshal indexes no_repositories ≡ inr raw)
        × (r ≡ sorted raw)
  unfolding new_store_repositories
  added indexes r e = from_sum (add_indexes unmarshal indexes no_repositories) r e

  Holds-sort_entries :
      ((less : StoreEntry → StoreEntry → Bool) (l : List StoreEntry)
        → In x (sort_by less l) ↔ In x l)
      → (s : StoreRepository) → Holds key x (sort_entries sort_by greater_than s) ↔ Holds key x s
  Holds-sort_entries keeps s = elim (Option-cases (lookup key s)) [
    | inl l ↦ ground (arith, l, sorted_lookup s)
    | inr (entries, l) ↦
        ground
          (arith, l, sorted_lookup s, keeps (by_index_entry_version sort_by greater_than) entries)
  ]

  -- Where `newStoreRepositories` returns no error, and `sort.Sort` keeps the elements of a list, the
  -- executors and the sources under a repository and name are those entries of the indexes that have
  -- that type and key, and each list of them is one that was sorted by version.
  pub new_store_repositories_iff :
      ((less : StoreEntry → StoreEntry → Bool) (l : List StoreEntry)
        → In x (sort_by less l) ↔ In x l)
      → (side : Side) (indexes : Dict D) (r : Repositories)
      → new_store_repositories unmarshal sort_by greater_than indexes ≡ inr r
      → (Holds key x (repository side r) ↔ Stored key x unmarshal side indexes)
        × ((entries : List StoreEntry)
            → lookup key (repository side r) ≡ some entries
            → (l : List StoreEntry) × (entries
                ≡ sort_by (by_index_entry_version sort_by greater_than) l))
  new_store_repositories_iff keeps side indexes r e =
      let (raw, a, same) = added indexes r e in
      rw same (
        rw (sorted_repository side raw) (
          iff_trans (Holds-sort_entries keeps (repository side raw)) (
              Adds-empty (starts_empty key x side)
                (add_indexes-Adds key x unmarshal side indexes no_repositories raw a)),
          λ entries l. sorted_from (repository side raw) entries l,
        ))
