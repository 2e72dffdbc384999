-- ===== src/Plugin/Manager/Files.antt =====
-- Which files `ensurePluginDownloaded` of pkg/plugin/manager.go leaves.
use botkube.Base.{
  String, ◌≡◌, ◌⊎◌, inl, inr, refl, ◌∙◌, true, false, Option, none, some, [], ◌∷◌, ◌==◌, Dict,
  lookup, insert, lookup-insert, In, arith, eq_iff, eq_refl, Bool-cases, Option-cases,
}
use mathlib.Core.Path.{subst}
use Prim.Native.String.{◌++◌ as ◌+++◌}
use botkube.Plugin.Store.{Url, StoreEntry}
use botkube.Plugin.Manager.{
  World, Files, download_dependencies, download_plugin, ensure_plugin_downloaded,
}

-- No file is lost or changed, and each new one has an origin.
pub record Grows (Origin : String → String → Type 0) (files after : Files) : Type 0 where
  pub kept :
      (path content : String) → lookup path files ≡ some content → lookup path after ≡ some content
  pub new :
      (path content : String)
      → lookup path after ≡ some content
      → (lookup path files ≡ some content) ⊎ Origin path content

pub Grows-none : {Origin : String → String → Type 0} (files : Files) → Grows Origin files files
Grows-none files = record { kept = λ path content l. l; new = λ path content l. inl l }

pub Grows-then :
    {Origin : String → String → Type 0} {a b c : Files}
    → Grows Origin a b
    → Grows Origin b c
    → Grows Origin a c
Grows-then g h = record {
  kept = λ path content l. h.kept path content (g.kept path content l);
  new = λ path content l. elim (h.new path content l) [
    | inl m ↦ g.new path content m
    | inr o ↦ inr o
  ];
}

pub Grows-map :
    {Origin Other : String → String → Type 0} {a b : Files}
    → ((path content : String) → Origin path content → Other path content)
    → Grows Origin a b
    → Grows Other a b
Grows-map f g = record {
  kept = g.kept;
  new = λ path content l. elim (g.new path content l) [
    | inl m ↦ inl m
    | inr o ↦ inr (f path content o)
  ];
}

some_value : (a b : String) → ◌≡◌ {A = Option String} (some a) (some b) → a ≡ b
some_value a b e = cc

Grows-insert :
    {Origin : String → String → Type 0} (path content : String) (files : Files)
    → lookup path files ≡ none
    → Origin path content
    → Grows Origin files (insert path content files)
Grows-insert {Origin} path content files n o = record {
  kept = λ p c l. elim (Bool-cases (path == p)) [
    | inl t ↦ cc (l, subst (λ z. lookup z files ≡ none) ((eq_iff path p).0 t) n)
    | inr f ↦ lookup-insert path p content files ∙ (rw f l)
  ];
  new = λ p c l. elim (Bool-cases (path == p)) [
    | inl t ↦ inr (
        subst (λ z. Origin z c) ((eq_iff path p).0 t)
          (subst (Origin path)
            (some_value content c (ground (arith, t, l, lookup-insert path p content files))) o))
    | inr f ↦ inl (ground (arith, f, l, lookup-insert path p content files))
  ];
}

module _ {E S R D : Type 0} (w : World E S R D) where
  -- What a file holds was downloaded as a dependency of the binary.
  abbrev pub FromDependency : String → Dict (Dict String) → String → String → Type 0
  FromDependency bin_path dependencies path content =
      (dep_name : String) × (dep : Dict String) × (url : String) × In (dep_name, dep) dependencies
      × (path ≡ w.join ((bin_path +++ "_deps") ∷ dep_name ∷ []))
      × (lookup w.selector dep ≡ some url)
      × (w.download_binary path (record { url = url; checksum = "" }) false ≡ some content)

  -- It was downloaded as the binary.
  abbrev pub FromUrl : String → StoreEntry → String → String → Type 0
  FromUrl bin_path info path content =
      (url : Url) × (path ≡ bin_path)
      × (lookup w.selector info.urls ≡ some url)
      × (w.download_binary path url true ≡ some content)

  abbrev pub FromEntry : String → StoreEntry → String → String → Type 0
  FromEntry bin_path info path content =
      FromUrl bin_path info path content ⊎ FromDependency bin_path info.dependencies path content

  earlier-FromDependency :
      (bin_path dep_name : String) (dep : Dict String) (dependencies : Dict (Dict String))
      (path content : String)
      → FromDependency bin_path dependencies path content
      → FromDependency bin_path ((dep_name, dep) ∷ dependencies) path content
  earlier-FromDependency bin_path dep_name dep dependencies path content
        (name, d, url, i, p, l, h) =
      (name, d, url, inr i, p, l, h)

  dependencies-Grows :
      (bin_path : String) (dependencies : Dict (Dict String)) (files : Files)
      → Grows
          (FromDependency bin_path dependencies)
          files
          (download_dependencies w bin_path dependencies files).0
  unfolding download_dependencies
  dependencies-Grows bin_path [] files = Grows-none files
  dependencies-Grows bin_path ((dep_name, dep) ∷ dependencies) files =
      let dep_path = w.join ((bin_path +++ "_deps") ∷ dep_name ∷ []) in
      let later = earlier-FromDependency bin_path dep_name dep dependencies in
      elim (Option-cases (lookup dep_path files)) [
        | inr (c, e) ↦
            rw (e, download_dependencies)
              (Grows-map later (dependencies-Grows bin_path dependencies files))
        | inl n ↦ elim (Option-cases (lookup w.selector dep)) [
          | inl m ↦ rw (n, m, download_dependencies) (Grows-none files)
          | inr (url, u) ↦
              elim (Option-cases
                (w.download_binary dep_path (record { url = url; checksum = "" }) false)) [
                  | inl m ↦ rw (n, u, m, download_dependencies) (Grows-none files)
                  | inr (content, c) ↦
                      rw (n, u, c, download_dependencies)
                        (Grows-then
                          (Grows-insert dep_path content files n
                            (dep_name, dep, url, inl refl, refl, u, c))
                          (Grows-map later (
                            dependencies-Grows bin_path dependencies
                              (insert dep_path content files))))
                ]
        ]
      ]

  plugin-Grows :
      (bin_path : String) (info : StoreEntry) (files : Files)
      → let (after, err) = download_plugin w bin_path info files in
        Grows (FromUrl bin_path info) files after
        × (err ≡ none → (content : String) × (lookup bin_path after ≡ some content))
  unfolding download_plugin
  plugin-Grows bin_path info files = elim (Option-cases (lookup bin_path files)) [
    | inr (c, e) ↦ rw (e, download_plugin) (Grows-none files, λ h. (c, e))
    | inl n ↦ elim (Bool-cases (w.make_dir bin_path)) [
      | inr f ↦ rw (n, f, download_plugin) (Grows-none files, λ h. cc)
      | inl t ↦ elim (Option-cases (lookup w.selector info.urls)) [
        | inl m ↦ rw (n, t, m, download_plugin) (Grows-none files, λ h. cc)
        | inr (url, u) ↦ elim (Option-cases (w.download_binary bin_path url true)) [
          | inl m ↦ rw (n, t, u, m, download_plugin) (Grows-none files, λ h. cc)
          | inr (content, c) ↦
              rw (n, t, u, c, download_plugin)
                (
                  Grows-insert bin_path content files n (url, refl, u, c),
                  λ h. (
                    content,
                    ground (arith, eq_refl bin_path, lookup-insert bin_path bin_path content files),
                  ),
                )
        ]
      ]
    ]
  ]

  -- However the download of a plugin ends, it changes no file that is there, and what is new was
  -- downloaded from a URL of the entry; without an error the binary is there.
  pub ensure-Grows :
      (bin_path : String) (info : StoreEntry) (files : Files)
      → let (after, err) = ensure_plugin_downloaded w bin_path info files in
        Grows (FromEntry bin_path info) files after
        × (err ≡ none → (content : String) × (lookup bin_path after ≡ some content))
  unfolding ensure_plugin_downloaded
  ensure-Grows bin_path info files =
      let (first, there) = plugin-Grows bin_path info files in
      let after = (download_plugin w bin_path info files).0 in
      let rest = dependencies-Grows bin_path info.dependencies after in
      elim (Option-cases (download_plugin w bin_path info files).1) [
        | inr (e, m) ↦
            rw (m, ensure_plugin_downloaded) (Grows-map (λ path content o. inl o) first, λ h. cc)
        | inl n ↦
            let (content, l) = there n in
            rw (n, ensure_plugin_downloaded)
              (
                Grows-then (Grows-map (λ path content o. inl o) first)
                    (Grows-map (λ path content o. inr o) rest),
                λ h. (content, rest.kept bin_path content l),
              )
      ]
