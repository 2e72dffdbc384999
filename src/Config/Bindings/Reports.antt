-- ===== src/Config/Bindings/Reports.antt =====
-- When the binding checks of validator.go have nothing to report.
use botkube.Base.{
  String, ◌≡◌, refl, sym, ◌∙◌, ap, ◌↔◌, inl, inr, Bool, true, false, ◌&&◌, Option, none, some, List,
  [], ◌∷◌, ◌++◌, arith, eq_iff, Dict, lookup, In, In-append, ◌≢◌, Bool-cases, Option-cases,
}
use mathlib.Core.Path.{subst}
use botkube.Config.{Plugin, Plugins, PolicyRule, Executors}
use botkube.Config.Keys.{Report, decompose_plugin_key, validate_bound_plugins}
use botkube.Config.Keys.Conflicts.{validate_bound_plugins_iff}
use botkube.Config.Bindings.Bound.{BoundKey, bound_iff}
use botkube.Config.Bindings.{
  BindingReport, invalid_binding, invalid_action_rbac, plugins_of, missing_bindings,
  enabled_via_bindings, as_conflicts, validate_bindings, by_channel_name, action_plugins,
  executors_plugins, validate_action_executors,
}

append-nil_iff : (xs ys : List BindingReport) → (xs ++ ys ≡ []) ↔ ((xs ≡ []) × (ys ≡ []))
append-nil_iff [] ys = (λ e. (refl, e), λ h. h.1)
append-nil_iff (x ∷ xs) ys = (λ e. cc, λ h. cc (h.0))

as_conflicts-nil : (l : List Report) → (as_conflicts l ≡ []) ↔ (l ≡ [])
as_conflicts-nil [] = (λ h. refl, λ h. refl)
as_conflicts-nil (r ∷ l) = (λ h. cc, λ h. cc)

-- Every name is defined.
abbrev pub Defined : {T : Type 0} → Dict T → List String → Type 0
Defined configs names = (name : String) → In name names → lookup name configs ≢ none

missing-none :
    {T : Type 0} (configs : Dict T) (name : String) (names : List String)
    → lookup name configs ≡ none
    → missing_bindings configs (name ∷ names)
      ≡ invalid_binding name ∷ missing_bindings configs names
unfolding missing_bindings
missing-none configs name names n = ground arith

missing-some :
    {T : Type 0} (configs : Dict T) (name : String) (names : List String) (c : T)
    → lookup name configs ≡ some c
    → missing_bindings configs (name ∷ names) ≡ missing_bindings configs names
unfolding missing_bindings
missing-some configs name names c s = ground arith

missing-cons :
    {T : Type 0} (configs : Dict T) (name : String) (names : List String)
    → (missing_bindings configs (name ∷ names) ≡ [])
      ↔ ((lookup name configs ≢ none) × (missing_bindings configs names ≡ []))
missing-cons configs name names = elim (Option-cases (lookup name configs)) [
  | inl n ↦ rw (missing-none configs name names n) (λ h. cc, λ h. absurd (h.0 n))
  | inr (c, s) ↦ rw (missing-some configs name names c s) (λ h. (λ e. cc (s, e), h), λ h. h.1)
]

missing_iff :
    {T : Type 0} (configs : Dict T) (names : List String)
    → (missing_bindings configs names ≡ []) ↔ Defined configs names
missing_iff configs [] = (λ h name i. absurd i, λ h. unfold missing_bindings in refl)
missing_iff configs (name ∷ names) =
    let (to, from) = missing-cons configs name names in
    let (rto, rfrom) = missing_iff configs names in
    (
      λ h n i. elim i [
        | inl p ↦ subst (λ z. lookup z configs ≢ none) (sym p) (to h).0
        | inr j ↦ rto (to h).1 n j
      ],
      λ d. from (d name (inl refl), rfrom (λ n i. d n (inr i))),
    )

-- Keys of the same plugin that bound groups enable have the same repository and version.
abbrev pub BoundKeysAgree : {T : Type 0} → (T → Plugins) → Dict T → List String → Type 0
BoundKeysAgree get configs bindings =
    (key other repo repo' name ver ver' : String)
    → BoundKey get configs bindings key
    → BoundKey get configs bindings other
    → decompose_plugin_key key ≡ some (repo, name, ver)
    → decompose_plugin_key other ≡ some (repo', name, ver')
    → (repo ≡ repo') × (ver ≡ ver')

-- The check of the bindings reports nothing, but for what it says of policies, exactly if every
-- bound name is defined, and any two plugin keys that are enabled in groups which are bound, be it the
-- same group or two, have the same repository and version if they have the same plugin name.
pub validate_bindings_iff :
    {T : Type 0} (get : T → Plugins) (configs : Dict T) (bindings : List String)
    → (validate_bindings get configs bindings ≡ [])
      ↔ (Defined configs bindings × BoundKeysAgree get configs bindings)
unfolding validate_bindings
validate_bindings_iff get configs bindings =
    let keys = enabled_via_bindings get configs bindings in
    let (to, from) =
      append-nil_iff (missing_bindings configs bindings)
        (as_conflicts (validate_bound_plugins keys)) in
    let (mto, mfrom) = missing_iff configs bindings in
    let (cto, cfrom) = as_conflicts-nil (validate_bound_plugins keys) in
    let (vto, vfrom) = validate_bound_plugins_iff keys in
    (
      λ h. (
        mto (to h).0,
        λ key other repo repo' name ver ver' i j.
            vto (cto (to h).1) key other repo repo' name ver ver'
              ((bound_iff get configs bindings key).1 i)
              ((bound_iff get configs bindings other).1 j),
      ),
      λ (d, a). from (
        mfrom d,
        cfrom (
            vfrom (λ key other repo repo' name ver ver' i j.
              a key other repo repo' name ver ver' ((bound_iff get configs bindings key).0 i)
                ((bound_iff get configs bindings other).0 j))),
      ),
    )

-- The policy's group subject is the channel's name.
abbrev pub IsByChannelName : Option PolicyRule → Type 0
IsByChannelName policy =
    (rbac : PolicyRule) × (policy ≡ some rbac) × (rbac.group.type ≡ "ChannelName")

by_channel_name_iff :
    (policy : Option PolicyRule) → (by_channel_name policy ≡ true) ↔ IsByChannelName policy
by_channel_name_iff none = (λ h. cc, λ (rbac, e, t). cc)
by_channel_name_iff (some rbac) =
    let (to, from) = eq_iff rbac.group.type "ChannelName" in
    (λ h. (rbac, refl, to h), λ (r, e, t). from (some_group rbac r e ∙ t))
  where
    some_group :
        (a b : PolicyRule)
        → ◌≡◌ {A = Option PolicyRule} (some a) (some b)
        → a.group.type ≡ b.group.type
    some_group a b e = cc

-- The plugin of the key is enabled in the group, with a policy by channel name.
abbrev pub Offends : String → Plugins → Type 0
Offends key plugins =
    (plugin : Plugin) × In (key, plugin) plugins
    × (plugin.enabled ≡ true)
    × IsByChannelName plugin.context.rbac

same_report :
    (k e k' e' : String) → invalid_action_rbac k e ≡ invalid_action_rbac k' e' → (k ≡ k') × (e ≡ e')
same_report k e k' e' h = (cc, cc)

action_plugins_iff :
    (key executor name : String) (plugins : Plugins)
    → In (invalid_action_rbac key executor) (action_plugins name plugins)
      ↔ ((executor ≡ name) × Offends key plugins)
unfolding action_plugins
action_plugins_iff key executor name [] = (λ i. absurd i, λ (e, (p, i, on, b)). absurd i)
action_plugins_iff key executor name ((k, plugin) ∷ plugins) =
    let (to, from) = action_plugins_iff key executor name plugins in
    let (bto, bfrom) = by_channel_name_iff plugin.context.rbac in
    elim (Bool-cases (plugin.enabled && by_channel_name plugin.context.rbac)) [
      | inl t ↦ rw t (
        λ i. elim i [
          | inl e ↦
              let (ke, ee) = same_report key executor k name e in
              (ee, (plugin, inl (ap (λ z. (z, plugin)) ke), ground arith, bto (ground arith)))
          | inr j ↦ let (e, (p, l, on, b)) = to j in (e, (p, inr l, on, b))
        ],
        λ (e, (p, i, on, b)). elim i [
          | inl q ↦ inl (λ x. invalid_action_rbac (ap (λ z. z.0) q x) (e x))
          | inr j ↦ inr (from (e, (p, j, on, b)))
        ],
      )
      | inr f ↦ rw f (
        λ i. let (e, (p, l, on, b)) = to i in (e, (p, inr l, on, b)),
        λ (e, (p, i, on, b)). elim i [
          | inl q ↦ absurd (
              both
                (
                  ap (λ (z : String × Plugin). z.1.enabled) (sym q) ∙ on,
                  ap (λ (z : String × Plugin). by_channel_name z.1.context.rbac) (sym q)
                      ∙ (by_channel_name_iff p.context.rbac).1 b,
                )
                f)
          | inr j ↦ from (e, (p, j, on, b))
        ],
      )
    ]
  where
    both : {a b : Bool} → (a ≡ true) × (b ≡ true) → (a && b) ≡ false → ⊥
    both (p, q) f = cc

group-Offends :
    (executors : Dict Executors) (key executor : String)
    → Offends key (plugins_of executors_plugins executors executor)
      ↔ ((group : Executors) × (lookup executor executors ≡ some group) × Offends key group.plugins)
unfolding plugins_of
group-Offends executors key executor = elim (Option-cases (lookup executor executors)) [
  | inl n ↦ rw (n, plugins_of) (λ (p, i, on, b). absurd i, λ h. cc (h.1))
  | inr (group, e) ↦
      rw (e, plugins_of)
        (λ o. (group, refl, o), λ h. subst (λ z. Offends key z) (some_plugins h.0 group h.1) h.2)
]
  where
    some_plugins :
        (a b : Executors) → ◌≡◌ {A = Option Executors} (some b) (some a) → a.plugins ≡ b.plugins
    some_plugins a b e = cc

-- The check of an action's executors reports a plugin of an executor group exactly if the action binds
-- the group, the group is defined and enables the plugin, and the plugin has a policy whose group
-- subject is of the type ChannelName.
pub validate_action_executors_iff :
    (executors : Dict Executors) (bindings : List String) (key executor : String)
    → In (invalid_action_rbac key executor) (validate_action_executors executors bindings) ↔ (
        In executor bindings
        × ((group : Executors) × (lookup executor executors ≡ some group)
            × Offends key group.plugins))
unfolding validate_action_executors
validate_action_executors_iff executors [] key executor = (λ i. absurd i, λ h. absurd h.0)
validate_action_executors_iff executors (name ∷ bindings) key executor =
    let (to, from) = validate_action_executors_iff executors bindings key executor in
    let plugins = plugins_of executors_plugins executors name in
    let (pto, pfrom) = action_plugins_iff key executor name plugins in
    let (ato, afrom) =
      In-append (invalid_action_rbac key executor) (action_plugins name plugins)
        (validate_action_executors executors bindings) in
    (
      λ i. elim (ato i) [
        | inl h ↦
            let (e, o) = pto h in
            (
              inl e,
              (group-Offends executors key executor).0
                  (subst (λ z. Offends key (plugins_of executors_plugins executors z)) (sym e) o),
            )
        | inr j ↦ let (b, r) = to j in (inr b, r)
      ],
      λ (b, h). afrom (elim b [
        | inl e ↦ inl (
            pfrom (
              e,
              subst (λ z. Offends key (plugins_of executors_plugins executors z)) e
                  ((group-Offends executors key executor).1 h),
            ))
        | inr j ↦ inr (from (j, h))
      ]),
    )
