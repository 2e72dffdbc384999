-- ===== src/Plugin/Index.antt =====
-- pkg/plugin/index.go: the index of a plugin repository and its validation.
pub mod Valid
use botkube.Base.{
  ℕ, suc, ◌+◌, String, Bool, true, false, not, ◌&&◌, ◌||◌, Option, none, some, List, [], ◌∷◌, ◌++◌,
  ◌==◌, Dict, lookup, insert, contains, if◌then◌else◌,
}
use Prim.Native.String.{◌++◌ as ◌+++◌}

-- `Type` and its constants.
abbrev pub PluginType : Type 0
PluginType = String

abbrev pub type_source : PluginType
type_source = "source"

abbrev pub type_executor : PluginType
type_executor = "executor"

abbrev pub all_known_types : List PluginType
all_known_types = type_source ∷ type_executor ∷ []

-- `Type.IsValid`
abbrev pub is_valid_type : PluginType → Bool
is_valid_type t = contains all_known_types t

pub record JsonSchema : Type 0 where
  pub value : String
  pub ref_url : String

pub record Dependency : Type 0 where
  pub url : String

abbrev pub Dependencies : Type 0
Dependencies = Dict Dependency

pub record IndexUrlPlatform : Type 0 where
  pub os : String
  pub arch : String

pub record IndexUrl : Type 0 where
  pub url : String
  pub checksum : String
  pub platform : IndexUrlPlatform
  pub dependencies : Dependencies

-- Less `ExternalRequest`, which neither the validation nor the store reads.
pub record IndexEntry : Type 0 where
  pub name : String
  pub type : PluginType
  pub description : String
  pub documentation_url : String
  pub version : String
  pub urls : List IndexUrl
  pub json_schema : JsonSchema
  pub recommended : Bool

pub record Index : Type 0 where
  pub entries : List IndexEntry

-- The issues of an entry.
pub data Issue : Type 0 where
  empty_version empty_name empty_type empty_urls invalid_type : Issue
  empty_dependency_url : (key os arch : String) → Issue
  conflicts_with : (first_entry_idx : ℕ) → Issue

-- `if cond { issues = append(issues, issue) }`
abbrev pub issue_if : Bool → Issue → List Issue
issue_if cond issue = if cond then issue ∷ [] else []

-- The loop over the dependencies of one platform.
unfoldable pub dependency_issues : IndexUrlPlatform → Dependencies → List Issue
dependency_issues p [] = []
dependency_issues p ((key, dep) ∷ deps) =
    issue_if (dep.url == "") (empty_dependency_url key p.os p.arch) ++ dependency_issues p deps

unfoldable pub url_issues : List IndexUrl → List Issue
unfolding dependency_issues
url_issues [] = []
url_issues (item ∷ urls) = dependency_issues item.platform item.dependencies ++ url_issues urls

abbrev pub is_empty : List IndexUrl → Bool
is_empty [] = true
is_empty (_ ∷ _) = false

-- `strings.Join([]string{type, name, version}, ";")`
abbrev pub entry_key : IndexEntry → String
entry_key e = e.type +++ ";" +++ e.name +++ ";" +++ e.version

-- `entry.Type != "" && entry.Name != "" && entry.Version != ""`
abbrev pub is_keyed : IndexEntry → Bool
is_keyed e = not (e.type == "") && (not (e.name == "") && not (e.version == ""))

-- The issues of one entry, with the entries before it by their key.
unfoldable pub entry_issues : Dict ℕ → IndexEntry → List Issue
unfolding url_issues
entry_issues entries_by_key e =
    issue_if (e.version == "") empty_version
    ++ issue_if (e.name == "") empty_name
    ++ issue_if (e.type == "") empty_type
    ++ issue_if (is_empty e.urls) empty_urls
    ++ url_issues e.urls
    ++ issue_if (not (e.type == "") && not (is_valid_type e.type)) invalid_type
    ++ (if is_keyed e
        then elim (lookup (entry_key e) entries_by_key) [
          | none ↦ []
          | some first ↦ conflicts_with first ∷ []
        ]
        else [])

-- The loop over the entries, from an index on: the entries that have issues.
unfoldable pub validate_entries : ℕ → Dict ℕ → List IndexEntry → List (ℕ × List Issue)
unfolding entry_issues
validate_entries current_idx entries_by_key [] = []
validate_entries current_idx entries_by_key (e ∷ entries) =
    let seen =
      if is_keyed e then insert (entry_key e) current_idx entries_by_key else entries_by_key in
    let later = validate_entries (current_idx + 1) seen entries in
    elim (entry_issues entries_by_key e) [ [] ↦ later | i ∷ is ↦ (current_idx, i ∷ is) ∷ later ]

-- `Index.Validate`: no issues stand for nil.
unfoldable pub validate : Index → List (ℕ × List Issue)
unfolding validate_entries
validate index = validate_entries 0 [] index.entries
