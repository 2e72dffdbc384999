-- ===== src/Plugin/Collector/Laws.antt =====
-- Which plugins `GetAllEnabledAndUsedPlugins` of collector.go reports.
use botkube.Base.{String, ◌≡◌, refl, ◌↔◌, ◌⊎◌, inl, inr, Bool, true, false, List, [], ◌∷◌, Dict, In}
use mathlib.Core.Path.{subst}
use botkube.Base.Adds.{Adds, Adds-none, Adds-then, Adds-map, StringSet, put_all-Adds}
use botkube.Config.{BotBindings, Action, TeamsBindings, ElsIndex, Communications, Config}
use botkube.Plugin.Collector.{
  Bound, add_bindings, add_sources, collect, by_name, by_id, collect_teams, collect_indices,
  if_enabled, collect_group, collect_groups, action_bindings, collect_actions, collect_bound,
}

-- The two kinds of plugins.
pub data Kind : Type 0 where
  executor source : Kind

abbrev pub names : Kind → BotBindings → List String
names executor b = b.executors
names source b = b.sources

abbrev pub at : Kind → Bound → StringSet
at executor s = s.executors
at source s = s.sources

-- Sinks bind sources only.
abbrev pub sink_names : Kind → List String → List String
sink_names executor l = []
sink_names source l = l

-- A channel of the map binds the name.
abbrev pub InChannels : {T : Type 0} → (T → BotBindings) → Kind → String → Dict T → Type 0
InChannels {T} get kind g channels =
    (kv : String × T) × In kv channels × In g (names kind (get kv.1))

abbrev pub InTeams : Kind → String → List TeamsBindings → Type 0
InTeams kind g teams =
    (team : TeamsBindings) × In team teams × InChannels by_id kind g team.channels

abbrev pub InIndices : Kind → String → Dict ElsIndex → Type 0
InIndices kind g indices =
    (kv : String × ElsIndex) × In kv indices × In g (sink_names kind kv.1.bindings.sources)

-- An enabled platform of the group binds the name.
abbrev pub BoundBy : Kind → String → Communications → Type 0
BoundBy kind g c =
    (((((((((c.socket_slack.enabled ≡ true) × InChannels by_name kind g c.socket_slack.channels)
                  ⊎ ((c.cloud_slack.enabled ≡ true)
                      × InChannels by_name kind g c.cloud_slack.channels))
                ⊎ ((c.mattermost.enabled ≡ true) × InChannels by_name kind g c.mattermost.channels))
              ⊎ ((c.cloud_teams.enabled ≡ true) × InTeams kind g c.cloud_teams.teams))
            ⊎ ((c.discord.enabled ≡ true) × InChannels by_id kind g c.discord.channels))
          ⊎ ((c.webhook.enabled ≡ true) × In g (sink_names kind c.webhook.bindings.sources)))
        ⊎ ((c.elasticsearch.enabled ≡ true) × InIndices kind g c.elasticsearch.indices))
      ⊎ ((c.pager_duty.enabled ≡ true) × In g (sink_names kind c.pager_duty.bindings.sources)))

-- The action is enabled and binds the name.
abbrev pub ByAction : Kind → String → Action → Type 0
ByAction kind g act = (act.enabled ≡ true) × In g (names kind (action_bindings act))

-- An enabled platform or an enabled action binds the name.
abbrev pub IsBound : Kind → String → Config → Type 0
IsBound kind g cfg =
    ((kv : String × Communications) × In kv cfg.communications × BoundBy kind g kv.1)
    ⊎ ((kv : String × Action) × In kv cfg.actions × ByAction kind g kv.1)

-- One more element, for the loops over lists.
pub cons-map :
    {T A B : Type 0} (P : T → Type 0) (x : T) (xs : List T)
    → Adds A B (P x ⊎ ((y : T) × In y xs × P y))
    → Adds A B ((y : T) × In y (x ∷ xs) × P y)
cons-map P x xs f =
    Adds-map (λ h. elim h [ inl p ↦ (x, inl refl, p) | inr (y, i, p) ↦ (y, inr i, p) ])
      (λ (y, i, p). elim i [ inl e ↦ inl (subst P e p) | inr j ↦ inr (y, j, p) ]) f

put_bindings :
    (kind : Kind) (g : String) (b : BotBindings) (s : Bound)
    → Adds (In g (at kind s)) (In g (at kind (add_bindings b s))) (In g (names kind b))
put_bindings executor g b s = put_all-Adds g b.executors s.executors
put_bindings source g b s = put_all-Adds g b.sources s.sources

put_sources :
    (kind : Kind) (g : String) (l : List String) (s : Bound)
    → Adds (In g (at kind s)) (In g (at kind (add_sources l s))) (In g (sink_names kind l))
put_sources executor g l s = Adds-none (λ i. i)
put_sources source g l s = put_all-Adds g l s.sources

none_bound : (kind : Kind) (g : String) → ¬ In g (at kind (record { executors = []; sources = [] }))
none_bound executor g i = i
none_bound source g i = i

module _ (kind : Kind) (g : String) where
  -- The name is bound so far.
  abbrev Has : Bound → Type 0
  Has s = In g (at kind s)

  -- The step adds the name where `M` holds, and only there.
  abbrev StepAdds : (Bound → Bound) → Type 0 → Type 0
  StepAdds f M = (s : Bound) → Adds (Has s) (Has (f s)) M

  enabled-Adds :
      (b : Bool) (f : Bound → Bound) (M : Type 0)
      → StepAdds f M
      → StepAdds (if_enabled b f) ((b ≡ true) × M)
  enabled-Adds true f M h s = Adds-map (λ m. (refl, m)) (λ p. p.1) (h s)
  enabled-Adds false f M h s = Adds-none (λ p. cc (p.0))

  bindings-Adds : (b : BotBindings) → StepAdds (add_bindings b) (In g (names kind b))
  bindings-Adds b s = put_bindings kind g b s

  sources-Adds : (l : List String) → StepAdds (add_sources l) (In g (sink_names kind l))
  sources-Adds l s = put_sources kind g l s

  collect-Adds :
      {T : Type 0} (get : T → BotBindings) (channels : Dict T)
      → StepAdds (collect get channels) (InChannels get kind g channels)
  unfolding collect
  collect-Adds get [] s = Adds-none (λ h. h.1)
  collect-Adds get ((k, ch) ∷ channels) s =
      cons-map (λ kv. In g (names kind (get kv.1))) (k, ch) channels
        (Adds-then (bindings-Adds (get ch) s) (collect-Adds get channels (add_bindings (get ch) s)))

  teams-Adds : (teams : List TeamsBindings) → StepAdds (collect_teams teams) (InTeams kind g teams)
  unfolding collect_teams
  teams-Adds [] s = Adds-none (λ h. h.1)
  teams-Adds (team ∷ teams) s =
      cons-map (λ t. InChannels by_id kind g t.channels) team teams
        (Adds-then (collect-Adds by_id team.channels s)
          (teams-Adds teams (collect by_id team.channels s)))

  indices-Adds :
      (indices : Dict ElsIndex) → StepAdds (collect_indices indices) (InIndices kind g indices)
  unfolding collect_indices
  indices-Adds [] s = Adds-none (λ h. h.1)
  indices-Adds ((k, index) ∷ indices) s =
      cons-map (λ kv. In g (sink_names kind kv.1.bindings.sources)) (k, index) indices
        (Adds-then (sources-Adds index.bindings.sources s)
          (indices-Adds indices (add_sources index.bindings.sources s)))

  group-Adds : (c : Communications) → StepAdds (collect_group c) (BoundBy kind g c)
  unfolding collect_group
  group-Adds c s =
      Adds-then
        (Adds-then
          (Adds-then
            (Adds-then
              (Adds-then
                (Adds-then
                  (Adds-then (enabled-Adds _ _ _ (collect-Adds by_name c.socket_slack.channels) _)
                    (enabled-Adds _ _ _ (collect-Adds by_name c.cloud_slack.channels) _))
                  (enabled-Adds _ _ _ (collect-Adds by_name c.mattermost.channels) _))
                (enabled-Adds _ _ _ (teams-Adds c.cloud_teams.teams) _))
              (enabled-Adds _ _ _ (collect-Adds by_id c.discord.channels) _))
            (enabled-Adds _ _ _ (sources-Adds c.webhook.bindings.sources) _))
          (enabled-Adds _ _ _ (indices-Adds c.elasticsearch.indices) _))
        (enabled-Adds _ _ _ (sources-Adds c.pager_duty.bindings.sources) _)

  groups-Adds :
      (groups : Dict Communications)
      → StepAdds
          (collect_groups groups)
          ((kv : String × Communications) × In kv groups × BoundBy kind g kv.1)
  unfolding collect_groups
  groups-Adds [] s = Adds-none (λ h. h.1)
  groups-Adds ((k, c) ∷ groups) s =
      cons-map (λ kv. BoundBy kind g kv.1) (k, c) groups
        (Adds-then (group-Adds c s) (groups-Adds groups (collect_group c s)))

  actions-Adds :
      (actions : Dict Action)
      → StepAdds
          (collect_actions actions)
          ((kv : String × Action) × In kv actions × ByAction kind g kv.1)
  unfolding collect_actions
  actions-Adds [] s = Adds-none (λ h. h.1)
  actions-Adds ((k, act) ∷ actions) s =
      cons-map (λ kv. ByAction kind g kv.1) (k, act) actions
        (Adds-then
          (enabled-Adds act.enabled (add_bindings (action_bindings act))
            (In g (names kind (action_bindings act))) (bindings-Adds (action_bindings act)) s)
          (actions-Adds actions (if_enabled act.enabled (add_bindings (action_bindings act)) s)))

  pub IsBound-iff : (cfg : Config) → Has (collect_bound cfg) ↔ IsBound kind g cfg
  unfolding collect_bound
  IsBound-iff cfg =
      let none_yet : Bound = record { executors = []; sources = [] } in
      let (to, from) =
        Adds-then (groups-Adds cfg.communications none_yet)
          (actions-Adds cfg.actions (collect_groups cfg.communications none_yet)) in
      (λ i. elim (to i) [ inl n ↦ absurd (none_bound kind g n) | inr m ↦ m ], λ m. from (inr m))
