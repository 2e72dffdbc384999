-- ===== src/Config/Keys/Agreement.antt =====
-- What plugin keys agree on, with each other and with the index of names, key by key.
use botkube.Base.{
  String, ◌≡◌, refl, sym, ◌∙◌, ap, ◌↔◌, inl, inr, true, false, Option, none, some, List, [], ◌∷◌,
  ◌++◌, ◌==◌, arith, eq_iff, Dict, lookup, insert, lookup-insert, In, Bool-cases,
}
use botkube.Config.Keys.{PluginEntry, Report, decompose_plugin_key, compare_entries}

abbrev pub entry : String → String → PluginEntry
entry repo ver = record { repo = repo; version = ver }

-- The plugins of the keys agree with the index.
abbrev pub AgreeWith : List String → Dict PluginEntry → Type 0
AgreeWith keys indexed =
    (key repo name ver : String) (e : PluginEntry)
    → In key keys
    → decompose_plugin_key key ≡ some (repo, name, ver)
    → lookup name indexed ≡ some e
    → e ≡ entry repo ver

-- Keys of the same plugin name have the same repository and the same version.
abbrev pub Agree : List String → Type 0
Agree keys =
    (key other repo repo' name ver ver' : String)
    → In key keys
    → In other keys
    → decompose_plugin_key key ≡ some (repo, name, ver)
    → decompose_plugin_key other ≡ some (repo', name, ver')
    → (repo ≡ repo') × (ver ≡ ver')

pub compare-nil : (key : String) (a b : PluginEntry) → (compare_entries key a b ≡ []) ↔ (a ≡ b)
unfolding compare_entries
compare-nil key a b = (
  λ h. ground (arith, eq_iff a.repo b.repo, eq_iff a.version b.version),
  λ h. ground (arith, eq_iff a.repo b.repo, eq_iff a.version b.version),
)

pub same_parts :
    (a b c a' b' c' : String)
    → ◌≡◌ {A = Option (String × String × String)} (some (a, b, c)) (some (a', b', c'))
    → (a ≡ a') × (b ≡ b') × (c ≡ c')
same_parts a b c a' b' c' e = (cc, cc, cc)

same_entry : (r v r' v' : String) → entry r v ≡ entry r' v' → (r ≡ r') × (v ≡ v')
same_entry r v r' v' e = (ap (λ (z : PluginEntry). z.repo) e, ap (λ (z : PluginEntry). z.version) e)

pub append-nil_iff : (xs ys : List Report) → (xs ++ ys ≡ []) ↔ ((xs ≡ []) × (ys ≡ []))
append-nil_iff [] ys = (λ e. (refl, e), λ h. h.1)
append-nil_iff (x ∷ xs) ys = (λ e. cc, λ h. cc (h.0))

pub found-here :
    (set key : String) (e : PluginEntry) (m : Dict PluginEntry)
    → (set == key) ≡ true
    → lookup key (insert set e m) ≡ some e
found-here set key e m t = lookup-insert set key e m ∙ (rw t refl)

found-there :
    (set key : String) (e : PluginEntry) (m : Dict PluginEntry)
    → (set == key) ≡ false
    → lookup key (insert set e m) ≡ lookup key m
found-there set key e m t = lookup-insert set key e m ∙ (rw t refl)

module _ (invalid : String → List Report) where
  abbrev pub Silent : List String → Type 0
  Silent keys = (key : String) → In key keys → decompose_plugin_key key ≡ none → invalid key ≡ []

  pub record Fine (keys : List String) (indexed : Dict PluginEntry) : Type 0 where
    pub with_index : AgreeWith keys indexed
    pub together : Agree keys
    pub silent : Silent keys

  -- What holds of a key and the rest holds of the rest.
  pub Fine-tail :
      (key : String) (keys : List String) (indexed : Dict PluginEntry)
      → Fine (key ∷ keys) indexed
      → Fine keys indexed
  Fine-tail key keys indexed f = record {
    with_index = λ k r n v e i. f.with_index k r n v e (inr i);
    together = λ k o r r' n v v' i j. f.together k o r r' n v v' (inr i) (inr j);
    silent = λ k i. f.silent k (inr i);
  }

  pub Fine-none :
      (key : String) (keys : List String) (indexed : Dict PluginEntry)
      → decompose_plugin_key key ≡ none
      → invalid key ≡ []
      → Fine keys indexed
      → Fine (key ∷ keys) indexed
  Fine-none key keys indexed d quiet f = record {
    with_index = λ k r n v e i q l. elim i [
      | inl p ↦ cc (ap decompose_plugin_key p, d, q)
      | inr j ↦ f.with_index k r n v e j q l
    ];
    together = λ k o r r' n v v' i j q q'. elim i [
      | inl p ↦ cc (ap decompose_plugin_key p, d, q)
      | inr i' ↦ elim j [
        | inl p ↦ cc (ap decompose_plugin_key p, d, q')
        | inr j' ↦ f.together k o r r' n v v' i' j' q q'
      ]
    ];
    silent = λ k i q. elim i [ inl p ↦ ap invalid p ∙ quiet | inr j ↦ f.silent k j q ];
  }

  -- One more key whose entry `e` is what the index has.
  pub Fine-old :
      (key repo name ver : String) (keys : List String) (indexed : Dict PluginEntry)
      → decompose_plugin_key key ≡ some (repo, name, ver)
      → lookup name indexed ≡ some (entry repo ver)
      → Fine keys indexed
      → Fine (key ∷ keys) indexed
  Fine-old key repo name ver keys indexed d l f = record {
    with_index = λ k r n v e i q m. elim i [
      | inl p ↦
          let (a, b, c) =
            same_parts repo name ver r n v (sym d ∙ ap decompose_plugin_key (sym p) ∙ q) in
          cc (a, b, c, l, m)
      | inr j ↦ f.with_index k r n v e j q m
    ];
    together = λ k o r r' n v v' i j q q'. elim i [
      | inl p ↦
          let (a, b, c) =
            same_parts repo name ver r n v (sym d ∙ ap decompose_plugin_key (sym p) ∙ q) in
          elim j [
            | inl p' ↦
                let (a', b', c') =
                  same_parts repo name ver r' n v'
                    (sym d ∙ ap decompose_plugin_key (sym p') ∙ q') in
                (cc (a, a'), cc (c, c'))
            | inr j' ↦
                let (x, y) =
                  same_entry repo ver r' v'
                    (f.with_index o r' n v' (entry repo ver) j' q' (cc (b, l))) in
                (cc (a, x), cc (c, y))
          ]
      | inr i' ↦ elim j [
        | inl p' ↦
            let (a', b', c') =
              same_parts repo name ver r' n v' (sym d ∙ ap decompose_plugin_key (sym p') ∙ q') in
            let (x, y) =
              same_entry repo ver r v (f.with_index k r n v (entry repo ver) i' q (cc (b', l))) in
            (cc (a', x), cc (c', y))
        | inr j' ↦ f.together k o r r' n v v' i' j' q q'
      ]
    ];
    silent =
        λ k i q. elim i [ inl p ↦ cc (ap decompose_plugin_key p, d, q) | inr j ↦ f.silent k j q ];
  }

  -- A key with a new name joins the index.
  pub Fine-insert :
      (key repo name ver : String) (keys : List String) (indexed : Dict PluginEntry)
      → decompose_plugin_key key ≡ some (repo, name, ver)
      → Fine (key ∷ keys) indexed
      → Fine keys (insert name (entry repo ver) indexed)
  Fine-insert key repo name ver keys indexed d f = record {
    with_index = λ k r n v e i q l. elim (Bool-cases (name == n)) [
      | inl t ↦
          let p = (eq_iff name n).0 t in
          let (x, y) = f.together key k repo r n ver v (inl refl) (inr i) (d ∙ cc (p)) q in
          cc (x, y, l, found-here name n (entry repo ver) indexed t)
      | inr m ↦
          f.with_index k r n v e (inr i) q (sym (found-there name n (entry repo ver) indexed m) ∙ l)
    ];
    together = λ k o r r' n v v' i j. f.together k o r r' n v v' (inr i) (inr j);
    silent = λ k i. f.silent k (inr i);
  }

  -- An index that has one more name asks for no less.
  pub Fine-shrink :
      (name : String) (e : PluginEntry) (keys : List String) (indexed : Dict PluginEntry)
      → lookup name indexed ≡ none
      → Fine keys (insert name e indexed)
      → Fine keys indexed
  Fine-shrink name e keys indexed fresh f = record {
    with_index = λ k r n v e' i q l. elim (Bool-cases (name == n)) [
      | inl t ↦ absurd (cc ((eq_iff name n).0 t, fresh, l))
      | inr m ↦ f.with_index k r n v e' i q (found-there name n e indexed m ∙ l)
    ];
    together = f.together;
    silent = f.silent;
  }
