-- ===== src/Plugin/Index/Valid.antt =====
-- Which indexes pkg/plugin/index.go accepts.
use botkube.Base.{
  ℕ, ◌+◌, String, ◌≡◌, ◌≢◌, ◌↔◌, ◌⊎◌, refl, sym, Bool, true, false, not, ◌&&◌, Option, none, some,
  List, [], ◌∷◌, ◌++◌, map, ◌==◌, Dict, lookup, insert, lookup-insert, if◌then◌else◌, All, In,
  arith, eq_iff, inl, inr,
}
use botkube.Plugin.Index.{
  Index, IndexEntry, IndexUrl, IndexUrlPlatform, Dependencies, Issue, empty_dependency_url,
  conflicts_with, empty_urls, invalid_type, empty_version, empty_name, empty_type, type_source,
  type_executor, issue_if, is_empty, dependency_issues, url_issues, entry_issues, entry_key,
  is_keyed, is_valid_type, validate_entries, validate,
}
use mathlib.Core.Path.{subst}

-- Every dependency of the platform has a URL.
abbrev pub HasDependencyUrls : Dependencies → Type 0
HasDependencyUrls [] = Unit
HasDependencyUrls ((key, dep) ∷ deps) = (dep.url ≢ "") × HasDependencyUrls deps

-- An entry with all fields set, of a known type, with a URL for each dependency.
pub record IsComplete (e : IndexEntry) : Type 0 where
  pub version : e.version ≢ ""
  pub name : e.name ≢ ""
  pub type : (e.type ≡ type_source) ⊎ (e.type ≡ type_executor)
  pub urls : e.urls ≢ []
  pub dependencies : All (λ u. HasDependencyUrls u.dependencies) e.urls

-- No key twice.
abbrev pub Distinct : List String → Type 0
Distinct [] = Unit
Distinct (k ∷ ks) = ¬ In k ks × Distinct ks

not_nil : {A : Type 0} (x : A) (xs : List A) → x ∷ xs ≡ [] → ⊥
not_nil x xs e = absurd cc

append-nil_iff :
    {A P Q : Type 0} (xs ys : List A) → (xs ≡ []) ↔ P → (ys ≡ []) ↔ Q → (xs ++ ys ≡ []) ↔ (P × Q)
append-nil_iff [] ys p q = (λ h. (p.0 refl, q.0 h), λ h. q.1 h.1)
append-nil_iff (x ∷ xs) ys p q = (λ h. absurd cc, λ h. absurd (not_nil x xs (p.1 h.0)))

issue_if-nil : (cond : Bool) (i : Issue) → (issue_if cond i ≡ []) ↔ (cond ≡ false)
issue_if-nil true i = (λ h. absurd cc, λ h. absurd cc)
issue_if-nil false i = (λ _. refl, λ _. refl)

empty_if-nil : (s : String) (i : Issue) → (issue_if (s == "") i ≡ []) ↔ (s ≢ "")
empty_if-nil s i = ground (arith, eq_iff s "")

dependency_issues-nil :
    (p : IndexUrlPlatform) (deps : Dependencies)
    → (dependency_issues p deps ≡ []) ↔ HasDependencyUrls deps
unfolding dependency_issues
dependency_issues-nil p [] = (λ _. tt, λ _. refl)
dependency_issues-nil p ((key, dep) ∷ deps) =
    append-nil_iff (issue_if (dep.url == "") (empty_dependency_url key p.os p.arch))
      (dependency_issues p deps) (empty_if-nil dep.url (empty_dependency_url key p.os p.arch))
      (dependency_issues-nil p deps)

url_issues-nil :
    (urls : List IndexUrl)
    → (url_issues urls ≡ []) ↔ All (λ u. HasDependencyUrls u.dependencies) urls
unfolding url_issues
url_issues-nil [] = (λ _. tt, λ _. refl)
url_issues-nil (item ∷ urls) =
    append-nil_iff (dependency_issues item.platform item.dependencies) (url_issues urls)
      (dependency_issues-nil item.platform item.dependencies) (url_issues-nil urls)

is_empty-nil : (urls : List IndexUrl) → (issue_if (is_empty urls) empty_urls ≡ []) ↔ (urls ≢ [])
is_empty-nil [] = (λ h. absurd cc, λ h. absurd (h refl))
is_empty-nil (u ∷ urls) = (λ _ e. absurd cc, λ _. refl)

known_iff : (t : String) → (is_valid_type t ≡ true) ↔ ((t ≡ type_source) ⊎ (t ≡ type_executor))
known_iff t = ground (arith, eq_iff type_source t, eq_iff type_executor t)

type_set : (t : String) → (t ≡ type_source) ⊎ (t ≡ type_executor) → t ≢ ""
type_set t (inl e) h = absurd (ground (arith, e, h, eq_iff type_source ""))
type_set t (inr e) h = absurd (ground (arith, e, h, eq_iff type_executor ""))

first-nil :
    (o : Option ℕ)
    → ((elim o [ none ↦ [] | some first ↦ conflicts_with first ∷ [] ]) ≡ []) ↔ (o ≡ none)
first-nil none = (λ _. refl, λ _. refl)
first-nil (some n) = (λ h. absurd cc, λ h. absurd cc)

keyed-nil :
    (keyed : Bool) (o : Option ℕ)
    → ((if keyed then elim o [ none ↦ [] | some first ↦ conflicts_with first ∷ [] ] else []) ≡ [])
      ↔ (keyed ≡ true → o ≡ none)
keyed-nil true o = ground (arith, first-nil o)
keyed-nil false o = (λ _ h. absurd cc, λ _. refl)

entry_issues-nil :
    (seen : Dict ℕ) (e : IndexEntry)
    → (entry_issues seen e ≡ []) ↔ (IsComplete e × (lookup (entry_key e) seen ≡ none))
unfolding entry_issues
entry_issues-nil seen e =
    let chain =
      append-nil_iff _ _
        (append-nil_iff _ _
          (append-nil_iff _ _
            (append-nil_iff _ _
              (append-nil_iff _ _
                (append-nil_iff _ _ (empty_if-nil e.version empty_version)
                  (empty_if-nil e.name empty_name))
                (empty_if-nil e.type empty_type))
              (is_empty-nil e.urls))
            (url_issues-nil e.urls))
          (issue_if-nil (not (e.type == "") && not (is_valid_type e.type)) invalid_type))
        (keyed-nil (is_keyed e) (lookup (entry_key e) seen)) in
    (
      λ h.
          let ((((((v, n), t), u), d), k), l) = chain.0 h in
          (
            record {
              version = v;
              name = n;
              type = (known_iff e.type).0 (ground (arith, k, t, eq_iff e.type ""));
              urls = u;
              dependencies = d;
            },
            l (ground (arith, v, n, t, eq_iff e.type "", eq_iff e.name "", eq_iff e.version "")),
          ),
      λ (c, l). chain.1 (
        (
          ((((c.version, c.name), type_set e.type c.type), c.urls), c.dependencies),
          ground (arith, (known_iff e.type).1 c.type),
        ),
        λ _. l,
      ),
    )

keyed : (e : IndexEntry) → IsComplete e → is_keyed e ≡ true
keyed e c = ground (
  arith,
  c.version,
  c.name,
  type_set e.type c.type,
  eq_iff e.type "",
  eq_iff e.name "",
  eq_iff e.version "",
)

report-nil :
    (issues : List Issue) (i : ℕ) (later : List (ℕ × List Issue))
    → ((elim issues [ [] ↦ later | j ∷ js ↦ (i, j ∷ js) ∷ later ]) ≡ [])
      ↔ ((issues ≡ []) × (later ≡ []))
report-nil [] i later = (λ h. (refl, h), λ h. h.1)
report-nil (j ∷ js) i later = (λ h. absurd cc, λ h. absurd cc)

-- The keys that are free after one is taken are the others that were.
free-insert :
    (key : String) (i : ℕ) (seen : Dict ℕ) (entries : List IndexEntry)
    → All (λ e. lookup (entry_key e) (insert key i seen) ≡ none) entries
      ↔ (¬ In key (map entry_key entries) × All (λ e. lookup (entry_key e) seen ≡ none) entries)
free-insert key i seen [] = (λ _. (λ j. j, tt), λ _. tt)
free-insert key i seen (e ∷ entries) = ground (
  arith,
  free-insert key i seen entries,
  lookup-insert key (entry_key e) i seen,
  eq_iff key (entry_key e),
)

validate_entries-nil :
    (i : ℕ) (seen : Dict ℕ) (entries : List IndexEntry)
    → (validate_entries i seen entries ≡ []) ↔ (
        All IsComplete entries
        × Distinct (map entry_key entries)
        × All (λ e. lookup (entry_key e) seen ≡ none) entries)
unfolding validate_entries
validate_entries-nil i seen [] = (λ _. (tt, tt, tt), λ _. refl)
validate_entries-nil i seen (e ∷ entries) =
    let taken = if is_keyed e then insert (entry_key e) i seen else seen in
    let here = entry_issues-nil seen e in
    let both = report-nil (entry_issues seen e) i (validate_entries (i + 1) taken entries) in
    let later = validate_entries-nil (i + 1) taken entries in
    let free = free-insert (entry_key e) i seen entries in
    (
      λ h.
          let (n, m) = both.0 h in
          let (c, l) = here.0 n in
          let (cs, ds, fs) = later.0 m in
          let (apart, fs') = free.0 (
            subst
              (λ b.
                All
                  (λ x.
                    lookup (entry_key x) (if b then insert (entry_key e) i seen else seen) ≡ none)
                  entries)
              (keyed e c) fs) in
          ((c, cs), (apart, ds), (l, fs')),
      λ ((c, cs), (apart, ds), (l, fs)). both.1 (
        here.1 (c, l),
        later.1 (
          cs,
          ds,
          subst
              (λ b.
                All
                  (λ x.
                    lookup (entry_key x) (if b then insert (entry_key e) i seen else seen) ≡ none)
                  entries)
              (sym (keyed e c)) (free.1 (apart, fs)),
        ),
      ),
    )

abbrev nothing : Dict ℕ
nothing = []

none_seen : (entries : List IndexEntry) → All (λ e. lookup (entry_key e) nothing ≡ none) entries
unfolding lookup
none_seen [] = tt
none_seen (e ∷ entries) = (refl, none_seen entries)

-- An index is accepted exactly if every entry has a version, a name, a known type, a URL, and a URL
-- for each dependency, and no two entries have the same type, name and version, joined by semicolons.
pub validate_iff :
    (index : Index)
    → (validate index ≡ [])
      ↔ (All IsComplete index.entries × Distinct (map entry_key index.entries))
unfolding validate
validate_iff index =
    let (to, from) = validate_entries-nil 0 [] index.entries in
    (λ h. ((to h).0, (to h).1), λ (cs, ds). from (cs, ds, none_seen index.entries))
