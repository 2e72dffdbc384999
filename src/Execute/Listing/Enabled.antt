-- ===== src/Execute/Listing/Enabled.antt =====
-- Which plugins the tables of pkg/execute/exec.go and source.go show as enabled.
use botkube.Base.{
  String, ◌≡◌, ◌∙◌, Bool, false, ◌&&◌, ◌||◌, none, some, List, [], ◌∷◌, Dict, lookup, get_or_zero,
  get_or_zero-insert, arith, ◌==◌, eq_iff, inl, inr, Option-cases,
}
use botkube.Config.{Plugin, Plugins, Executors}
use botkube.Execute.Listing.{
  mark_executor, mark_executors, executors_for_bindings, mark_executor_groups,
}

-- Whether a group enables a plugin.
abbrev enables : String → Plugins → Bool
enables name [] = false
enables name ((key, plugin) ∷ plugins) = (key == name && plugin.enabled) || enables name plugins

-- Whether a bound group enables a plugin.
abbrev pub some_group_enables : String → Dict Executors → List String → Bool
some_group_enables name executors [] = false
some_group_enables name executors (b ∷ bindings) =
    let later = some_group_enables name executors bindings in
    elim (lookup b executors) [
      | none ↦ later
      | some executor ↦ enables name executor.plugins || later
    ]

mark_one :
    (name key : String) (plugin : Plugin) (out : Dict Bool)
    → get_or_zero false name (mark_executor key plugin out)
      ≡ (get_or_zero false name out || (key == name && plugin.enabled))
mark_one name key plugin out =
    ground (arith, get_or_zero-insert false plugin.enabled key name out, eq_iff key name)

mark_all :
    (name : String) (plugins : Plugins) (out : Dict Bool)
    → get_or_zero false name (mark_executors plugins out)
      ≡ (get_or_zero false name out || enables name plugins)
mark_all name [] out = ground arith
mark_all name ((key, plugin) ∷ plugins) out =
    mark_all name plugins (mark_executor key plugin out)
    ∙ ground (arith, mark_one name key plugin out)

mark_groups :
    (name : String) (executors : Dict Executors) (bindings : List String) (out : Dict Bool)
    → get_or_zero false name (mark_executor_groups executors bindings out)
      ≡ (get_or_zero false name out || some_group_enables name executors bindings)
mark_groups name executors [] out = ground arith
mark_groups name executors (b ∷ bindings) out = elim (Option-cases (lookup b executors)) [
  | inl n ↦ rw (some_group_enables, n) (mark_groups name executors bindings out)
  | inr (executor, e) ↦
      rw (some_group_enables, e)
        (mark_groups name executors bindings (mark_executors executor.plugins out)
          ∙ ground (arith, mark_all name executor.plugins out))
]

-- The table of executors shows a plugin as enabled exactly if some bound group enables it.
pub enabled-executors_for_bindings :
    (name : String) (executors : Dict Executors) (bindings : List String)
    → get_or_zero false name (executors_for_bindings executors bindings)
      ≡ some_group_enables name executors bindings
unfolding executors_for_bindings lookup
enabled-executors_for_bindings name executors bindings = mark_groups name executors bindings []
