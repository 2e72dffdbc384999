-- ===== src/Source/Scheduler/Walk.antt =====
-- `generateConfigs` of internal/source/scheduler.go as one loop over the bound sources.
use botkube.Base.{
  String, ◌≡◌, refl, sym, ap, ◌∙◌, Bool, true, false, Option, none, some, List, [], ◌∷◌, ◌++◌, Dict,
}
use botkube.Config.{TeamsBindings, Communications, Action, Config, is_interactive}
use botkube.Source.Scheduler.{Scheduler, Result}
use botkube.Source.Scheduler.Generate.{
  then_go, generate_plugin_config, generate_source_configs, generate_channels, generate_teams,
  generate_group, generate_groups, generate_actions, generate_configs, when_enabled,
}
use botkube.Source.Scheduler.Bound.{
  Binding, bind_all, channels_of, teams_of, if_on, group_of, groups_of, actions_of, bindings_of,
}

module _ (marshal : Option String → Option String) (cfg : Config) where
  -- One binding after the other, up to the first error.
  unfoldable pub generate_all : List Binding → Scheduler → Result
  unfolding then_go
  generate_all [] d = (d, none)
  generate_all ((interactive, name) ∷ bindings) d =
      then_go (generate_all bindings) (generate_plugin_config marshal cfg interactive name d)

  then_go-agree :
      (f g : Scheduler → Result) (r : Result)
      → ((d : Scheduler) → f d ≡ g d)
      → then_go f r ≡ then_go g r
  unfolding then_go
  then_go-agree f g (d, none) h = h d
  then_go-agree f g (d, some err) h = refl

  then_go_assoc :
      (f g : Scheduler → Result) (r : Result)
      → then_go (λ d. then_go g (f d)) r ≡ then_go g (then_go f r)
  unfolding then_go
  then_go_assoc f g (d, none) = refl
  then_go_assoc f g (d, some err) = refl

  generate_all-append :
      (xs ys : List Binding) (d : Scheduler)
      → generate_all (xs ++ ys) d ≡ then_go (generate_all ys) (generate_all xs d)
  unfolding generate_all
  generate_all-append [] ys d = unfold then_go in refl
  generate_all-append ((i, name) ∷ xs) ys d =
      let first = generate_plugin_config marshal cfg i name d in
      then_go-agree (generate_all (xs ++ ys)) (λ e. then_go (generate_all ys) (generate_all xs e))
        first (generate_all-append xs ys)
      ∙ then_go_assoc (generate_all xs) (generate_all ys) first

  -- The loop does what one binding after the other does.
  abbrev Runs : (Scheduler → Result) → List Binding → Type 0
  Runs f bs = (d : Scheduler) → f d ≡ generate_all bs d

  Runs-then :
      (f g : Scheduler → Result) (xs ys : List Binding)
      → Runs f xs
      → Runs g ys
      → Runs (λ d. then_go g (f d)) (xs ++ ys)
  Runs-then f g xs ys hf hg d =
      ap (then_go g) (hf d)
      ∙ then_go-agree g (generate_all ys) (generate_all xs d) hg
      ∙ sym (generate_all-append xs ys d)

  Runs-bind_all :
      (i : Bool) (names : List String)
      → Runs (generate_source_configs marshal cfg i names) (bind_all i names)
  unfolding generate_source_configs generate_all
  Runs-bind_all i [] d = refl
  Runs-bind_all i (name ∷ names) d =
      then_go-agree (generate_source_configs marshal cfg i names) (generate_all (bind_all i names))
        (generate_plugin_config marshal cfg i name d) (Runs-bind_all i names)

  Runs-channels :
      {T : Type 0} (get : T → List String) (i : Bool) (channels : Dict T)
      → Runs (generate_channels marshal cfg get i channels) (channels_of get i channels)
  unfolding generate_channels
  Runs-channels get i [] d = unfold generate_all in refl
  Runs-channels get i ((k, ch) ∷ channels) d =
      Runs-then (generate_source_configs marshal cfg i (get ch))
        (generate_channels marshal cfg get i channels) (bind_all i (get ch))
        (channels_of get i channels) (Runs-bind_all i (get ch)) (Runs-channels get i channels) d

  Runs-teams :
      (i : Bool) (teams : List TeamsBindings)
      → Runs (generate_teams marshal cfg i teams) (teams_of i teams)
  unfolding generate_teams
  Runs-teams i [] d = unfold generate_all in refl
  Runs-teams i (team ∷ teams) d =
      Runs-then (generate_channels marshal cfg (λ ch. ch.bindings.sources) i team.channels)
        (generate_teams marshal cfg i teams)
        (channels_of (λ ch. ch.bindings.sources) i team.channels) (teams_of i teams)
        (Runs-channels (λ ch. ch.bindings.sources) i team.channels) (Runs-teams i teams) d

  Runs-if :
      (on : Bool) (f : Scheduler → Result) (bs : List Binding)
      → Runs f bs
      → Runs (when_enabled on f) (if_on on bs)
  Runs-if true f bs h d = h d
  Runs-if false f bs h d = unfold generate_all in refl

  -- A platform of a group, with what its channels are bound to.
  Runs-channels_if :
      {T : Type 0} (get : T → List String) (on i : Bool) (channels : Dict T)
      → Runs
          (when_enabled on (generate_channels marshal cfg get i channels))
          (if_on on (channels_of get i channels))
  Runs-channels_if get on i channels =
      Runs-if on (generate_channels marshal cfg get i channels) (channels_of get i channels)
        (Runs-channels get i channels)

  Runs-sources_if :
      (on : Bool) (names : List String)
      → Runs
          (when_enabled on (generate_source_configs marshal cfg false names))
          (if_on on (bind_all false names))
  Runs-sources_if on names =
      Runs-if on (generate_source_configs marshal cfg false names) (bind_all false names)
        (Runs-bind_all false names)

  Runs-group : (c : Communications) → Runs (generate_group marshal cfg c) (group_of c)
  unfolding generate_group group_of is_interactive
  Runs-group c =
      Runs-then _ _ _ _
        (Runs-then _ _ _ _
          (Runs-then _ _ _ _
            (Runs-then _ _ _ _
              (Runs-then _ _ _ _
                (Runs-then _ _ _ _
                  (Runs-then _ _ _ _
                    (Runs-channels_if (λ ch. ch.bindings.sources) c.cloud_slack.enabled true
                      c.cloud_slack.channels)
                    (Runs-channels_if (λ ch. ch.bindings.sources) c.socket_slack.enabled true
                      c.socket_slack.channels))
                  (Runs-channels_if (λ ch. ch.bindings.sources) c.mattermost.enabled false
                    c.mattermost.channels))
                (Runs-if c.cloud_teams.enabled _ _ (Runs-teams true c.cloud_teams.teams)))
              (Runs-channels_if (λ ch. ch.bindings.sources) c.discord.enabled false
                c.discord.channels))
            (Runs-sources_if c.webhook.enabled c.webhook.bindings.sources))
          (Runs-channels_if (λ index. index.bindings.sources) c.elasticsearch.enabled false
            c.elasticsearch.indices))
        (Runs-sources_if c.pager_duty.enabled c.pager_duty.bindings.sources)

  Runs-groups :
      (groups : Dict Communications) → Runs (generate_groups marshal cfg groups) (groups_of groups)
  unfolding generate_groups
  Runs-groups [] d = unfold generate_all in refl
  Runs-groups ((k, c) ∷ groups) d =
      Runs-then (generate_group marshal cfg c) (generate_groups marshal cfg groups) (group_of c)
        (groups_of groups) (Runs-group c) (Runs-groups groups) d

  Runs-actions :
      (actions : Dict Action) → Runs (generate_actions marshal cfg actions) (actions_of actions)
  unfolding generate_actions
  Runs-actions [] d = unfold generate_all in refl
  Runs-actions ((k, act) ∷ actions) d =
      Runs-then _ (generate_actions marshal cfg actions) _ (actions_of actions)
        (Runs-sources_if act.enabled act.bindings.sources) (Runs-actions actions) d

  -- `generateConfigs` generates the plugin configurations of the sources bound to the enabled
  -- platforms and sinks of each communication group in turn, and then to the enabled actions, one
  -- after the other up to the first error; only the two Slack platforms and Teams are interactive.
  pub generate_configs-bindings_of :
      (d : Scheduler) → generate_configs marshal cfg d ≡ generate_all (bindings_of cfg) d
  unfolding generate_configs
  generate_configs-bindings_of d =
      Runs-then (generate_groups marshal cfg cfg.communications)
        (generate_actions marshal cfg cfg.actions) (groups_of cfg.communications)
        (actions_of cfg.actions) (Runs-groups cfg.communications) (Runs-actions cfg.actions) d
