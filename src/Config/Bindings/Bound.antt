-- ===== src/Config/Bindings/Bound.antt =====
-- Which plugin keys the loop of validator.go over the bound groups collects.
use botkube.Base.{
  String, ◌≡◌, refl, ap, ◌↔◌, inl, inr, true, some, List, [], ◌∷◌, Dict, lookup, In, In-append,
  Bool-cases, Option-cases,
}
use mathlib.Core.Path.{subst}
use botkube.Config.{Plugin, Plugins}
use botkube.Config.Keys.{enabled_keys}
use botkube.Config.Bindings.{plugins_of, enabled_via_bindings}

-- A bound group enables the plugin of the key.
abbrev pub BoundKey : {T : Type 0} → (T → Plugins) → Dict T → List String → String → Type 0
BoundKey {T} get configs bindings key =
    (name : String) × (group : T) × (plugin : Plugin) × In name bindings
    × (lookup name configs ≡ some group)
    × In (key, plugin) (get group)
    × (plugin.enabled ≡ true)

enabled_keys_iff :
    (key : String) (plugins : Plugins)
    → In key (enabled_keys plugins)
      ↔ ((plugin : Plugin) × In (key, plugin) plugins × (plugin.enabled ≡ true))
unfolding enabled_keys
enabled_keys_iff key [] = (λ i. absurd i, λ (p, i, on). absurd i)
enabled_keys_iff key ((k, p) ∷ plugins) =
    let (to, from) = enabled_keys_iff key plugins in
    elim (Bool-cases p.enabled) [
      | inl t ↦ simp t (
        λ i. elim i [
          | inl e ↦ (p, inl (ap (λ z. (z, p)) e), t)
          | inr j ↦ let (q, l, on) = to j in (q, inr l, on)
        ],
        λ (q, i, on). elim i [ inl e ↦ inl (ap (λ z. z.0) e) | inr j ↦ inr (from (q, j, on)) ],
      )
      | inr f ↦ simp f (
        λ i. let (q, l, on) = to i in (q, inr l, on),
        λ (q, i, on). elim i [
          | inl e ↦ cc (ap (λ (z : String × Plugin). z.1.enabled) e, on, f)
          | inr j ↦ from (q, j, on)
        ],
      )
    ]

plugins_of_iff :
    {T : Type 0} (get : T → Plugins) (configs : Dict T) (name key : String)
    → In key (enabled_keys (plugins_of get configs name)) ↔ (
        (group : T) × (plugin : Plugin) × (lookup name configs ≡ some group)
        × In (key, plugin) (get group)
        × (plugin.enabled ≡ true))
unfolding plugins_of
plugins_of_iff get configs name key = elim (Option-cases (lookup name configs)) [
  | inl n ↦
      rw (n, plugins_of) (λ i. absurd ((enabled_keys_iff key []).0 i).1, λ (g, p, e, j, on). cc e)
  | inr (group, l) ↦
      let (to, from) = enabled_keys_iff key (get group) in
      rw (l, plugins_of)
        (
          λ i. let (p, j, on) = to i in (group, p, refl, j, on),
          λ (g, p, e, j, on).
              from (p, subst (λ z. In (key, p) (get z)) (some_value g group e) j, on),
        )
]
  where
    some_value : {A : Type 0} (a b : A) → some b ≡ some a → a ≡ b
    some_value a b e = cc

pub bound_iff :
    {T : Type 0} (get : T → Plugins) (configs : Dict T) (bindings : List String) (key : String)
    → In key (enabled_via_bindings get configs bindings) ↔ BoundKey get configs bindings key
unfolding enabled_via_bindings
bound_iff get configs [] key = (λ i. absurd i, λ (n, g, p, i, l, j, on). absurd i)
bound_iff get configs (name ∷ names) key =
    let (to, from) = bound_iff get configs names key in
    let (hto, hfrom) = plugins_of_iff get configs name key in
    let (ato, afrom) =
      In-append key (enabled_keys (plugins_of get configs name))
        (enabled_via_bindings get configs names) in
    (
      λ i. elim (ato i) [
        | inl h ↦ let (g, p, l, j, on) = hto h in (name, g, p, inl refl, l, j, on)
        | inr j ↦ let (n, g, p, b, l, k, on) = to j in (n, g, p, inr b, l, k, on)
      ],
      λ (n, g, p, i, l, j, on). afrom (elim i [
        | inl e ↦ inl (hfrom (g, p, subst (λ z. lookup z configs ≡ some g) e l, j, on))
        | inr b ↦ inr (from (n, g, p, b, l, j, on))
      ]),
    )
