-- ===== src/Config/Keys/Conflicts.antt =====
-- When the checks of plugin.go have nothing to report.
use botkube.Base.{
  String, ◌≡◌, refl, sym, ◌∙◌, ap, ◌↔◌, inl, inr, none, some, List, [], ◌∷◌, ◌++◌, arith, eq_refl,
  Dict, lookup, insert, In, Option-cases, ◌≢◌,
}
use botkube.Base.Text.{sort}
use botkube.Base.Sorting.{In-sort}
use botkube.Config.{Plugins}
use botkube.Config.Keys.{
  PluginEntry, Report, invalid_plugin_definition, decompose_plugin_key, compare_entries, index_keys,
  validate_bound_plugins, enabled_keys, validate_plugins,
}
use botkube.Config.Keys.Agreement.{
  entry, Agree, Fine, Fine-tail, Fine-none, Fine-old, Fine-insert, Fine-shrink, found-here,
  compare-nil, append-nil_iff,
}

module _ (invalid : String → List Report) where
  step-none :
      (key : String) (keys : List String) (indexed : Dict PluginEntry)
      → decompose_plugin_key key ≡ none
      → index_keys invalid (key ∷ keys) indexed ≡ invalid key ++ index_keys invalid keys indexed
  unfolding index_keys
  step-none key keys indexed d = ground arith

  step-new :
      (key repo name ver : String) (keys : List String) (indexed : Dict PluginEntry)
      → decompose_plugin_key key ≡ some (repo, name, ver)
      → lookup name indexed ≡ none
      → index_keys invalid (key ∷ keys) indexed
        ≡ index_keys invalid keys (insert name (entry repo ver) indexed)
  unfolding index_keys
  step-new key repo name ver keys indexed d l = ground arith

  step-old :
      (key repo name ver : String) (keys : List String) (indexed : Dict PluginEntry)
      (e : PluginEntry)
      → decompose_plugin_key key ≡ some (repo, name, ver)
      → lookup name indexed ≡ some e
      → index_keys invalid (key ∷ keys) indexed
        ≡ compare_entries key e (entry repo ver) ++ index_keys invalid keys indexed
  unfolding index_keys
  step-old key repo name ver keys indexed e d l = ground arith

  -- The key's own name and entry stand in the extended index.
  quiet-new :
      (key repo name ver : String) (keys : List String) (indexed : Dict PluginEntry)
      → decompose_plugin_key key ≡ some (repo, name, ver)
      → lookup name indexed ≡ none
      → Fine invalid keys (insert name (entry repo ver) indexed)
      → Fine invalid (key ∷ keys) indexed
  quiet-new key repo name ver keys indexed d l f =
      Fine-shrink invalid name (entry repo ver) (key ∷ keys) indexed l (
        Fine-old invalid key repo name ver keys (insert name (entry repo ver) indexed) d
          (found-here name name (entry repo ver) indexed (eq_refl name)) f)

  quiet-Fine :
      (keys : List String) (indexed : Dict PluginEntry)
      → index_keys invalid keys indexed ≡ []
      → Fine invalid keys indexed
  quiet-Fine [] indexed h = record {
    with_index = λ k r n v e i. absurd i;
    together = λ k o r r' n v v' i. absurd i;
    silent = λ k i. absurd i;
  }
  quiet-Fine (key ∷ keys) indexed h = elim (Option-cases (decompose_plugin_key key)) [
    | inl d ↦
        let (quiet, rest) =
          (append-nil_iff (invalid key) (index_keys invalid keys indexed)).0
            (sym (step-none key keys indexed d) ∙ h) in
        Fine-none invalid key keys indexed d quiet (quiet-Fine keys indexed rest)
    | inr ((repo, name, ver), d) ↦ elim (Option-cases (lookup name indexed)) [
      | inl l ↦
          let more = insert name (entry repo ver) indexed in
          quiet-new key repo name ver keys indexed d l
            (quiet-Fine keys more (sym (step-new key repo name ver keys indexed d l) ∙ h))
      | inr (e, l) ↦
          let (same, rest) =
            (append-nil_iff (compare_entries key e (entry repo ver))
                (index_keys invalid keys indexed)).0
              (sym (step-old key repo name ver keys indexed e d l) ∙ h) in
          Fine-old invalid key repo name ver keys indexed d
            (l ∙ ap some ((compare-nil key e (entry repo ver)).0 same))
            (quiet-Fine keys indexed rest)
    ]
  ]

  Fine-quiet :
      (keys : List String) (indexed : Dict PluginEntry)
      → Fine invalid keys indexed
      → index_keys invalid keys indexed ≡ []
  Fine-quiet [] indexed f = unfold index_keys in refl
  Fine-quiet (key ∷ keys) indexed f = elim (Option-cases (decompose_plugin_key key)) [
    | inl d ↦
        step-none key keys indexed d
        ∙ (append-nil_iff (invalid key) (index_keys invalid keys indexed)).1 (
          f.silent key (inl refl) d,
          Fine-quiet keys indexed (Fine-tail invalid key keys indexed f),
        )
    | inr ((repo, name, ver), d) ↦ elim (Option-cases (lookup name indexed)) [
      | inl l ↦
          step-new key repo name ver keys indexed d l
          ∙ Fine-quiet keys (insert name (entry repo ver) indexed)
              (Fine-insert invalid key repo name ver keys indexed d f)
      | inr (e, l) ↦
          step-old key repo name ver keys indexed e d l
          ∙ (append-nil_iff (compare_entries key e (entry repo ver))
                (index_keys invalid keys indexed)).1
              (
                (compare-nil key e (entry repo ver)).1
                    (f.with_index key repo name ver e (inl refl) d l),
                Fine-quiet keys indexed (Fine-tail invalid key keys indexed f),
              )
    ]
  ]

no_index : (name : String) (e : PluginEntry) → lookup name [] ≢ some e
unfolding lookup
no_index name e h = cc

-- The check of bound plugins reports nothing exactly if any two of the keys that name the same
-- plugin, and that can be taken apart, name the same repository and the same version.
pub validate_bound_plugins_iff :
    (keys : List String) → (validate_bound_plugins keys ≡ []) ↔ Agree keys
unfolding validate_bound_plugins
validate_bound_plugins_iff keys = (
  λ h. (quiet-Fine (λ key. []) keys [] h).together,
  λ a.
      Fine-quiet (λ key. []) keys []
        (record {
          with_index = λ k r n v e i q l. absurd (no_index n e l);
          together = a;
          silent = λ k i d. refl;
        }),
)

-- The check of the plugins of one configuration group reports nothing exactly if the key of every
-- enabled plugin can be taken apart, and enabled keys that name the same plugin name the same
-- repository and version.
pub validate_plugins_iff :
    (plugins : Plugins)
    → (validate_plugins plugins ≡ []) ↔ (
        ((key : String) → In key (enabled_keys plugins) → decompose_plugin_key key ≢ none)
        × Agree (enabled_keys plugins))
unfolding validate_plugins
validate_plugins_iff plugins =
    let keys = enabled_keys plugins in
    let invalid : String → List Report = λ key. invalid_plugin_definition key ∷ [] in
    (
      λ h.
          let f = quiet-Fine invalid (sort keys) [] h in
          (
            λ key i d. cc (f.silent key ((In-sort key keys).1 i) d),
            λ k o r r' n v v' i j.
                f.together k o r r' n v v' ((In-sort k keys).1 i) ((In-sort o keys).1 j),
          ),
      λ (whole, a). Fine-quiet invalid (sort keys) [] (record {
        with_index = λ k r n v e i q l. absurd (no_index n e l);
        together =
            λ k o r r' n v v' i j. a k o r r' n v v' ((In-sort k keys).0 i) ((In-sort o keys).0 j);
        silent = λ k i d. absurd (whole k ((In-sort k keys).0 i) d);
      }),
    )
