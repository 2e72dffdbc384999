-- ===== src/Plugin/Store/Content.antt =====
-- What the repositories of pkg/plugin/store.go hold.
use mathlib.Core.Path.{subst}
use botkube.Base.{
  nil_cases, ℕ, String, ◌≡◌, ◌⊎◌, inl, inr, refl, sym, ap, ◌∙◌, Option, none, some, List, [], ◌∷◌,
  ◌++◌, ◌==◌, Dict, lookup, get_or_zero-insert, get_or_zero, In, In-append, eq_iff, Bool-cases,
  Option-cases,
}
use botkube.Base.Adds.{Adds, Adds-none, Adds-then, Adds-map}
use botkube.Plugin.Index.{
  IndexEntry, Index, type_source, type_executor, PluginType, Issue, validate,
}
use botkube.Plugin.Store.{
  StoreEntry, StoreRepository, Repositories, repository_key, insert_entry, store_entry, add_entry,
  add_entries, add_indexes, StoreError, unmarshal_failed, invalid_index,
}

-- One of the two repositories, with the type of its entries.
pub data Side : Type 0 where
  executor_side source_side : Side

abbrev pub side_type : Side → PluginType
side_type executor_side = type_executor
side_type source_side = type_source

abbrev pub repository : Side → Repositories → StoreRepository
repository executor_side r = r.executors
repository source_side r = r.sources

-- `x` stands under `key`.
abbrev pub Holds : String → StoreEntry → StoreRepository → Type 0
Holds key x s = In x (get_or_zero [] key s)

-- The entry of an index is stored under `key` as `x`.
abbrev pub StoredAs : Side → String → String → StoreEntry → IndexEntry → Type 0
StoredAs side repo key x e =
    (e.type ≡ side_type side) × (repository_key repo e.name ≡ key) × (x ≡ store_entry e)

pub inr-eq : {A B : Type 0} (r s : B) → ◌≡◌ {A = A ⊎ B} (inr r) (inr s) → r ≡ s
inr-eq r s e = cc

some_eq : {A : Type 0} (a b : A) → some a ≡ some b → a ≡ b
some_eq a b e = cc

not_both : {A B : Type 0} {v : A ⊎ B} {b : B} → (a : A) × (v ≡ inl a) → v ≡ inr b → ⊥
not_both (a, e) h = cc

abbrev pub no_repositories : Repositories
no_repositories = record { executors = []; sources = [] }

module _ (key : String) (x : StoreEntry) where
  pub starts_empty : (side : Side) → ¬ Holds key x (repository side no_repositories)
  unfolding lookup
  starts_empty executor_side h = h
  starts_empty source_side h = h

  insert_entry-Adds :
      (repo name : String) (entry : StoreEntry) (s : StoreRepository)
      → Adds
          (Holds key x s)
          (Holds key x (insert_entry repo name entry s))
          ((repository_key repo name ≡ key) × (x ≡ entry))
  unfolding insert_entry
  insert_entry-Adds repo name entry s =
      let at = repository_key repo name in
      let grown = get_or_zero [] at s ++ entry ∷ [] in
      elim (Bool-cases (at == key)) [
        | inl e ↦
            let same = (eq_iff at key).0 e in
            rw (get_or_zero-insert [] grown at key s) (
              rw e (
                rw (sym same) (
                  λ i. elim ((In-append x (get_or_zero [] at s) (entry ∷ [])).0 i) [
                    | inl j ↦ inl j
                    | inr j ↦ elim j [ inl p ↦ inr (refl, p) | inr n ↦ absurd n ]
                  ],
                  λ h.
                      (In-append x (get_or_zero [] at s) (entry ∷ [])).1
                        (elim h [ inl j ↦ inl j | inr (_, p) ↦ inr (inl p) ]),
                )))
        | inr e ↦ rw (get_or_zero-insert [] grown at key s) (
            rw e
              (inl, λ h. elim h [ inl j ↦ j | inr (p, _) ↦ absurd (cc (e, (eq_iff at key).1 p)) ]))
      ]

  add_entry-Adds :
      (side : Side) (repo : String) (e : IndexEntry) (r : Repositories)
      → Adds
          (Holds key x (repository side r))
          (Holds key x (repository side (add_entry repo e r)))
          (StoredAs side repo key x e)
  unfolding add_entry
  add_entry-Adds executor_side repo e r = elim (Bool-cases (e.type == type_executor)) [
    | inl t ↦ rw t (
        Adds-map (λ h. ((eq_iff e.type type_executor).0 t, h.0, h.1)) (λ h. (h.1, h.2))
          (insert_entry-Adds repo e.name (store_entry e) r.executors))
    | inr t ↦ elim (Bool-cases (e.type == type_source)) [
      | inl u ↦ rw t (rw u (Adds-none (λ h. absurd (cc (t, (eq_iff e.type type_executor).1 h.0)))))
      | inr u ↦ rw t (rw u (Adds-none (λ h. absurd (cc (t, (eq_iff e.type type_executor).1 h.0)))))
    ]
  ]
  add_entry-Adds source_side repo e r = elim (Bool-cases (e.type == type_executor)) [
    | inl t ↦ rw t (Adds-none (λ h. cc))
    | inr t ↦ elim (Bool-cases (e.type == type_source)) [
      | inl u ↦ rw t (
          rw u (
            Adds-map (λ h. ((eq_iff e.type type_source).0 u, h.0, h.1)) (λ h. (h.1, h.2))
              (insert_entry-Adds repo e.name (store_entry e) r.sources)))
      | inr u ↦ rw t (rw u (Adds-none (λ h. absurd (cc (u, (eq_iff e.type type_source).1 h.0)))))
    ]
  ]

  -- Some entry of the list is stored.
  abbrev pub StoredIn : Side → String → List IndexEntry → Type 0
  StoredIn side repo entries = (e : IndexEntry) × (In e entries × StoredAs side repo key x e)

  add_entries-Adds :
      (side : Side) (repo : String) (entries : List IndexEntry) (r : Repositories)
      → Adds
          (Holds key x (repository side r))
          (Holds key x (repository side (add_entries repo entries r)))
          (StoredIn side repo entries)
  unfolding add_entries
  add_entries-Adds side repo [] r = Adds-none (λ h. h.1.0)
  add_entries-Adds side repo (e ∷ entries) r =
      Adds-map (λ h. elim h [ inl s ↦ (e, (inl refl, s)) | inr (f, (i, s)) ↦ (f, (inr i, s)) ])
        (λ (f, (i, s)). elim i [ inl p ↦ inl (rw⁻¹ p s) | inr j ↦ inr (f, (j, s)) ])
        (Adds-then (add_entry-Adds side repo e r)
          (add_entries-Adds side repo entries (add_entry repo e r)))

  module _ {D : Type 0} (unmarshal : D → Option Index) where
    -- Some index of the list has an entry that is stored.
    abbrev pub Stored : Side → Dict D → Type 0
    Stored side indexes =
        (repo : String) × (raw : D) × (index : Index) × In (repo, raw) indexes
        × (unmarshal raw ≡ some index)
        × StoredIn side repo index.entries

    stored_here :
        (side : Side) (p repo : String) (d raw : D) (i index : Index)
        → ◌≡◌ {A = String × D} (p, d) (repo, raw)
        → unmarshal d ≡ some i
        → unmarshal raw ≡ some index
        → StoredIn side p i.entries
        → StoredIn side repo index.entries
    stored_here side p repo d raw i index same m u st =
        subst (λ z. StoredIn side z index.entries) (ap (λ q. q.0) same)
          (subst (λ (z : Index). StoredIn side p z.entries) (some_eq i index (cc)) st)

    indexes-next :
        (repo : String) (raw : D) (index : Index) (indexes : Dict D) (r : Repositories)
        → unmarshal raw ≡ some index
        → validate index ≡ []
        → add_indexes unmarshal ((repo, raw) ∷ indexes) r
          ≡ add_indexes unmarshal indexes (add_entries repo index.entries r)
    unfolding add_indexes
    indexes-next repo raw index indexes r u v = rw (u, add_indexes) (rw (v, add_indexes) refl)

    indexes-stop :
        (repo : String) (raw : D) (indexes : Dict D) (r : Repositories)
        → (unmarshal raw ≡ none)
          ⊎ ((index : Index) × (i : ℕ × List Issue) × (is : List (ℕ × List Issue)) × (unmarshal raw
                ≡ some index)
              × (validate index ≡ i ∷ is))
        → (err : StoreError) × (add_indexes unmarshal ((repo, raw) ∷ indexes) r ≡ inl err)
    unfolding add_indexes
    indexes-stop repo raw indexes r (inl u) = (unmarshal_failed, rw (u, add_indexes) refl)
    indexes-stop repo raw indexes r (inr (index, i, is, u, v)) =
        (invalid_index repo, rw (u, add_indexes) (rw (v, add_indexes) refl))

    indexes-end : (r s : Repositories) → add_indexes unmarshal [] r ≡ inr s → r ≡ s
    unfolding add_indexes
    indexes-end r s e = inr-eq r s e

    pub add_indexes-Adds :
        (side : Side) (indexes : Dict D) (r s : Repositories)
        → add_indexes unmarshal indexes r ≡ inr s
        → Adds
            (Holds key x (repository side r))
            (Holds key x (repository side s))
            (Stored side indexes)
    add_indexes-Adds side [] r s e =
        subst
          (λ z.
            Adds (Holds key x (repository side r)) (Holds key x (repository side z))
              (Stored side []))
          (indexes-end r s e) (Adds-none (λ h. h.3))
    add_indexes-Adds side ((repo, raw) ∷ indexes) r s e = elim (Option-cases (unmarshal raw)) [
      | inl u ↦ absurd (not_both (indexes-stop repo raw indexes r (inl u)) e)
      | inr (index, u) ↦ elim (nil_cases (validate index)) [
        | inr (i, is, v) ↦
            absurd (not_both (indexes-stop repo raw indexes r (inr (index, i, is, u, v))) e)
        | inl v ↦
            Adds-map
              (λ h. elim h [
                | inl st ↦ (repo, raw, index, inl refl, u, st)
                | inr (p, d, i, j, m, st) ↦ (p, d, i, inr j, m, st)
              ])
              (λ (p, d, i, j, m, st). elim j [
                | inl same ↦ inl (stored_here side p repo d raw i index same m u st)
                | inr k ↦ inr (p, d, i, k, m, st)
              ])
              (Adds-then (add_entries-Adds side repo index.entries r) (
                add_indexes-Adds side indexes (add_entries repo index.entries r) s
                  (sym (indexes-next repo raw index indexes r u v) ∙ e)))
      ]
    ]
