-- ===== src/Plugin/Catalog.antt =====
-- An index with two versions of an executor, and what the store makes of it.
use botkube.Base.{
  String, ◌≡◌, ◌↔◌, ◌⊎◌, inl, inr, refl, Bool, true, ◌&&◌, Option, some, List, [], ◌∷◌, map, ◌==◌,
  Dict, lookup, insert, if◌then◌else◌, In, All, arith,
}
use botkube.Plugin.Index.{IndexEntry, Index, entry_key, validate, conflicts_with}
use botkube.Plugin.Index.Valid.{IsComplete, Distinct, validate_iff}
use botkube.Plugin.Store.{
  StoreEntry, by_index_entry_version, new_store_repositories, store_entry, Repositories,
}
use botkube.Plugin.Store.Content.{executor_side, repository, Holds, Stored}
use botkube.Plugin.Store.Sorted.{new_store_repositories_iff}

abbrev pub kubectl : String → IndexEntry
kubectl version = record {
  name = "kubectl";
  type = "executor";
  description = "Kubectl";
  documentation_url = "";
  version = version;
  urls =
      record {
        url = "https://example.com/kubectl";
        checksum = "";
        platform = record { os = "linux"; arch = "amd64" };
        dependencies = ("kubectl", record { url = "https://example.com/dep" }) ∷ [];
      }
      ∷ [];
  json_schema = record { value = ""; ref_url = "" };
  recommended = true;
}

abbrev pub index : Index
index = record { entries = kubectl "1.0.0" ∷ kubectl "1.1.0" ∷ [] }

validate_iff_example :
    (validate index ≡ []) ↔ (All IsComplete index.entries × Distinct (map entry_key index.entries))
validate_iff_example = validate_iff index

-- A second entry of the same version is refused.
same_version_twice :
    validate (record { entries = kubectl "1.0.0" ∷ kubectl "1.0.0" ∷ [] })
    ≡ (1, conflicts_with 0 ∷ []) ∷ []
unfolding validate lookup insert
same_version_twice = refl

-- Insertion before the first element that is less.
abbrev insert_by : (StoreEntry → StoreEntry → Bool) → StoreEntry → List StoreEntry → List StoreEntry
insert_by less x [] = x ∷ []
insert_by less x (y ∷ ys) =
    let rest = insert_by less x ys in if less y x then y ∷ rest else x ∷ y ∷ ys

abbrev pub sort_by : (StoreEntry → StoreEntry → Bool) → List StoreEntry → List StoreEntry
sort_by less [] = []
sort_by less (x ∷ xs) = insert_by less x (sort_by less xs)

In-insert_by :
    (less : StoreEntry → StoreEntry → Bool) (x y : StoreEntry) (ys : List StoreEntry)
    → In x (insert_by less y ys) ↔ ((x ≡ y) ⊎ In x ys)
In-insert_by less x y [] = (λ i. i, λ i. i)
In-insert_by less x y (z ∷ ys) = ground (arith, In-insert_by less x y ys)

In-sort_by :
    (x : StoreEntry) (less : StoreEntry → StoreEntry → Bool) (l : List StoreEntry)
    → In x (sort_by less l) ↔ In x l
In-sort_by x less [] = (λ i. i, λ i. i)
In-sort_by x less (y ∷ l) =
    let (to, from) = In-insert_by less x y (sort_by less l) in
    let (sto, sfrom) = In-sort_by x less l in
    (
      λ i. elim (to i) [ inl e ↦ inl e | inr j ↦ inr (sto j) ],
      λ i. from (elim i [ inl e ↦ inl e | inr j ↦ inr (sfrom j) ]),
    )

abbrev pub greater_than : String → String → Option Bool
greater_than a b = some ((a == "1.1.0") && (b == "1.0.0"))

abbrev pub unmarshal : Index → Option Index
unmarshal i = some i

abbrev indexes : Dict Index
indexes = ("botkube", index) ∷ []

abbrev pub repositories : Repositories
repositories = record {
  executors =
      ("botkube/kubectl", store_entry (kubectl "1.1.0") ∷ store_entry (kubectl "1.0.0") ∷ []) ∷ [];
  sources = [];
}

-- The later version comes first.
stored : new_store_repositories unmarshal sort_by greater_than indexes ≡ inr repositories
unfolding new_store_repositories validate lookup insert
stored = refl

new_store_repositories_iff_example :
    let latest = store_entry (kubectl "1.1.0") in
    (Holds "botkube/kubectl" latest (repository executor_side repositories)
      ↔ Stored "botkube/kubectl" latest unmarshal executor_side indexes)
    × ((entries : List StoreEntry)
        → lookup "botkube/kubectl" (repository executor_side repositories) ≡ some entries
        → (l : List StoreEntry) × (entries
            ≡ sort_by (by_index_entry_version sort_by greater_than) l))
new_store_repositories_iff_example =
    new_store_repositories_iff "botkube/kubectl" (store_entry (kubectl "1.1.0")) unmarshal sort_by
      greater_than (In-sort_by (store_entry (kubectl "1.1.0"))) executor_side indexes repositories
      stored
