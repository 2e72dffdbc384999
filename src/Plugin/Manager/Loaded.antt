-- ===== src/Plugin/Manager/Loaded.antt =====
-- What `loadPlugins` of pkg/plugin/manager.go loads, and the files that it leaves.
use botkube.Base.{
  nil_cases, String, ◌≡◌, inl, inr, refl, sym, ap, ◌∙◌, some, List, [], ◌∷◌, ◌==◌, Dict, lookup,
  insert, lookup-insert, In, arith, eq_iff, eq_refl, Bool-cases, Option-cases,
}
use mathlib.Core.Path.{subst}
use botkube.Config.Keys.{decompose_plugin_key}
use botkube.Plugin.Index.{PluginType}
use botkube.Plugin.Store.{StoreEntry, StoreRepository, get_entries}
use botkube.Plugin.Manager.{
  World, Files, ensure_plugin_downloaded, load_plugins, bin_path, version_or_latest,
}
use botkube.Plugin.Manager.Files.{Grows, Grows-none, Grows-then, Grows-map, FromEntry, ensure-Grows}

module _ {E S R D : Type 0} (w : World E S R D) (cache_dir : String) (type : PluginType)
    (repo : StoreRepository) where
  -- The binary of the key has the path, whose name has the version that the key asks for, or the
  -- latest; the entry is the latest of the plugin in the repository.
  abbrev pub Named : String → String → StoreEntry → Type 0
  Named key path latest =
      (repo_name : String) × (name : String) × (ver : String) × (others : List StoreEntry)
      × (decompose_plugin_key key ≡ some (repo_name, name, ver))
      × (get_entries repo_name name repo ≡ some (latest ∷ others))
      × (path ≡ bin_path w cache_dir type repo_name (version_or_latest ver latest) name)

  -- There is a file at the path of the key.
  abbrev pub Resolved : Files → String → String → Type 0
  Resolved after key path =
      (latest : StoreEntry) × (content : String) × Named key path latest
      × (lookup path after ≡ some content)

  -- A file was downloaded from the latest entry of one of the keys, for the path of that key.
  abbrev pub FromKeys : List String → String → String → Type 0
  FromKeys keys path content =
      (key : String) × (bin : String) × (latest : StoreEntry) × In key keys
      × Named key bin latest
      × FromEntry w bin latest path content

  earlier-FromKeys :
      (k : String) (keys : List String) (path content : String)
      → FromKeys keys path content
      → FromKeys (k ∷ keys) path content
  earlier-FromKeys k keys path content (key, bin, latest, i, n, f) = (key, bin, latest, inr i, n, f)

  -- The files never shrink or change, however `loadPlugins` ends.
  pub load-Grows :
      (keys : List String) (files : Files) (loaded : Dict String)
      → Grows (FromKeys keys) files (load_plugins w cache_dir type repo keys files loaded).0
  unfolding load_plugins
  load-Grows [] files loaded = Grows-none files
  load-Grows (key ∷ keys) files loaded = elim (Option-cases (decompose_plugin_key key)) [
    | inl d ↦ rw (d, load_plugins) (Grows-none files)
    | inr ((repo_name, name, ver), d) ↦ elim (Option-cases (get_entries repo_name name repo)) [
      | inl g ↦ rw (d, g, load_plugins) (Grows-none files)
      | inr (candidates, g) ↦ elim (nil_cases candidates) [
        | inl n ↦ rw (d, g, n, load_plugins) (Grows-none files)
        | inr (latest, others, n) ↦
            let path = bin_path w cache_dir type repo_name (version_or_latest ver latest) name in
            let after = (ensure_plugin_downloaded w path latest files).0 in
            let named : Named key path latest =
              (repo_name, name, ver, others, d, g ∙ ap some n, refl) in
            let grows =
              Grows-map (λ p c f. (key, path, latest, inl refl, named, f))
                (ensure-Grows w path latest files).0 in
            elim (Option-cases (ensure_plugin_downloaded w path latest files).1) [
              | inr (e, b) ↦ rw (d, g, n, b, load_plugins) grows
              | inl b ↦
                  rw (d, g, n, b, load_plugins)
                    (Grows-then grows (
                      Grows-map (earlier-FromKeys key keys)
                        (load-Grows keys after (insert key path loaded))))
            ]
      ]
    ]
  ]

  load-next :
      (key : String) (keys : List String) (files : Files) (loaded out : Dict String)
      → (load_plugins w cache_dir type repo (key ∷ keys) files loaded).1 ≡ inr out
      → (path : String) × (latest : StoreEntry) × (content : String) × Named key path latest
        × (lookup path (ensure_plugin_downloaded w path latest files).0 ≡ some content)
        × (load_plugins w cache_dir type repo (key ∷ keys) files loaded
            ≡ load_plugins w cache_dir type repo keys
                (ensure_plugin_downloaded w path latest files).0
                (insert key path loaded))
  unfolding load_plugins
  load-next key keys files loaded out e = elim (Option-cases (decompose_plugin_key key)) [
    | inl d ↦ absurd (ground (arith, d, e))
    | inr ((repo_name, name, ver), d) ↦ elim (Option-cases (get_entries repo_name name repo)) [
      | inl g ↦ absurd (ground (arith, d, g, e))
      | inr (candidates, g) ↦ elim (nil_cases candidates) [
        | inl n ↦ absurd (ground (arith, d, g, n, e))
        | inr (latest, others, n) ↦
            let path = bin_path w cache_dir type repo_name (version_or_latest ver latest) name in
            elim (Option-cases (ensure_plugin_downloaded w path latest files).1) [
              | inr (err, b) ↦ absurd (ground (arith, d, g, n, b, e))
              | inl b ↦
                  let (content, there) = (ensure-Grows w path latest files).1 b in
                  (
                    path,
                    latest,
                    content,
                    (repo_name, name, ver, others, d, g ∙ ap some n, refl),
                    there,
                    rw (d, g, n, b, load_plugins) refl,
                  )
            ]
      ]
    ]
  ]

  -- Every entry of the map is resolved.
  abbrev pub AllResolved : Files → Dict String → Type 0
  AllResolved after m = (key path : String) → lookup key m ≡ some path → Resolved after key path

  AllResolved-insert :
      (after : Files) (key path : String) (m : Dict String)
      → AllResolved after m
      → Resolved after key path
      → AllResolved after (insert key path m)
  AllResolved-insert after key path m all r k p l = elim (Bool-cases (key == k)) [
    | inl e ↦
        subst (λ x. Resolved after x p) ((eq_iff key k).0 e)
          (subst (λ x. Resolved after key x) (ground (arith, e, l, lookup-insert key k path m)) r)
    | inr e ↦ all k p (ground (arith, e, l, lookup-insert key k path m))
  ]

  AllResolved-Grows :
      {Origin : String → String → Type 0} (files after : Files) (m : Dict String)
      → Grows Origin files after
      → AllResolved files m
      → AllResolved after m
  AllResolved-Grows files after m g all key path l =
      let (latest, content, n, f) = all key path l in (latest, content, n, g.kept path content f)

  load-end :
      (files : Files) (loaded out : Dict String)
      → (load_plugins w cache_dir type repo [] files loaded).1 ≡ inr out
      → loaded ≡ out
  unfolding load_plugins
  load-end files loaded out e = cc

  -- The keys stay in the map.
  loaded_stays :
      (keys : List String) (files : Files) (loaded out : Dict String) (key path : String)
      → (load_plugins w cache_dir type repo keys files loaded).1 ≡ inr out
      → lookup key loaded ≡ some path
      → (p : String) × (lookup key out ≡ some p)
  loaded_stays [] files loaded out key path e l =
      (path, ap (lookup key) (sym (load-end files loaded out e)) ∙ l)
  loaded_stays (k ∷ keys) files loaded out key path e l =
      let (q, latest, content, n, f, step) = load-next k keys files loaded out e in
      let after = (ensure_plugin_downloaded w q latest files).0 in
      let next = ap (λ z. z.1) (sym step) ∙ e in
      elim (Bool-cases (k == key)) [
        | inl t ↦
            loaded_stays keys after (insert k q loaded) out key q next
              (ground (arith, t, lookup-insert k key q loaded))
        | inr t ↦
            loaded_stays keys after (insert k q loaded) out key path next
              (ground (arith, t, l, lookup-insert k key q loaded))
      ]

  loaded_all :
      (keys : List String) (files : Files) (loaded out : Dict String)
      → AllResolved files loaded
      → (load_plugins w cache_dir type repo keys files loaded).1 ≡ inr out
      → AllResolved (load_plugins w cache_dir type repo keys files loaded).0 out
        × ((key : String) → In key keys → (p : String) × (lookup key out ≡ some p))
  loaded_all [] files loaded out all e = (
    unfold load_plugins in (subst (AllResolved files) (load-end files loaded out e) all),
    λ key i. absurd i,
  )
  loaded_all (k ∷ keys) files loaded out all e =
      let (path, latest, content, n, f, step) = load-next k keys files loaded out e in
      let after = (ensure_plugin_downloaded w path latest files).0 in
      let next = ap (λ z. z.1) (sym step) ∙ e in
      let grown =
        AllResolved-insert after k path loaded
          (AllResolved-Grows files after loaded (ensure-Grows w path latest files).0 all)
          (latest, content, n, f) in
      let (resolved, present) = loaded_all keys after (insert k path loaded) out grown next in
      (
        subst (λ z. AllResolved z.0 out) (sym step) resolved,
        λ key i. elim i [
          | inl same ↦
              loaded_stays keys after (insert k path loaded) out key path next
                (ground (arith, same, eq_refl k, lookup-insert k key path loaded))
          | inr j ↦ present key j
        ],
      )

  none_loaded : (files : Files) → AllResolved files []
  unfolding lookup
  none_loaded files key path l = absurd cc

  -- Where `loadPlugins` returns no error, each key to enable has a path, and at each path that it
  -- returns, named after the version that the key asks for, or else the latest, there is a file. The
  -- files that were there are unchanged, and each new one was downloaded, as the binary of a key or as
  -- a dependency of it, from a URL of the latest entry of the plugin, whatever version the key asks for.
  pub resolved-load_plugins :
      (keys : List String) (files : Files) (out : Dict String)
      → (load_plugins w cache_dir type repo keys files []).1 ≡ inr out
      → let after = (load_plugins w cache_dir type repo keys files []).0 in
        AllResolved after out
        × ((key : String) → In key keys → (path : String) × (lookup key out ≡ some path))
        × Grows (FromKeys keys) files after
  resolved-load_plugins keys files out e =
      let (resolved, present) = loaded_all keys files [] out (none_loaded files) e in
      (resolved, present, load-Grows keys files [])
