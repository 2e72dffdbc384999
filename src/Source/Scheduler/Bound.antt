-- ===== src/Source/Scheduler/Bound.antt =====
-- What `generateConfigs` of internal/source/scheduler.go walks over: the bound sources, as one list.
use botkube.Base.{String, Bool, true, false, List, [], ◌∷◌, ◌++◌, Dict}
use botkube.Config.{TeamsBindings, Communications, Action, Config}

-- A source with whether the platform that it is bound on is interactive.
abbrev pub Binding : Type 0
Binding = Bool × String

abbrev pub bind_all : Bool → List String → List Binding
bind_all interactive [] = []
bind_all interactive (name ∷ names) = (interactive, name) ∷ bind_all interactive names

abbrev pub channels_of : {T : Type 0} → (T → List String) → Bool → Dict T → List Binding
channels_of get interactive [] = []
channels_of get interactive ((k, ch) ∷ channels) =
    bind_all interactive (get ch) ++ channels_of get interactive channels

abbrev pub teams_of : Bool → List TeamsBindings → List Binding
teams_of interactive [] = []
teams_of interactive (team ∷ teams) =
    channels_of (λ ch. ch.bindings.sources) interactive team.channels ++ teams_of interactive teams

abbrev pub if_on : Bool → List Binding → List Binding
if_on true bs = bs
if_on false bs = []

-- The bindings of one communication group, platform by platform.
unfoldable pub group_of : Communications → List Binding
group_of c =
    let b1 =
      if_on c.cloud_slack.enabled
        (channels_of (λ ch. ch.bindings.sources) true c.cloud_slack.channels) in
    let b2 =
      b1
      ++ if_on c.socket_slack.enabled
          (channels_of (λ ch. ch.bindings.sources) true c.socket_slack.channels) in
    let b3 =
      b2
      ++ if_on c.mattermost.enabled
          (channels_of (λ ch. ch.bindings.sources) false c.mattermost.channels) in
    let b4 = b3 ++ if_on c.cloud_teams.enabled (teams_of true c.cloud_teams.teams) in
    let b5 =
      b4
      ++ if_on c.discord.enabled
          (channels_of (λ ch. ch.bindings.sources) false c.discord.channels) in
    let b6 = b5 ++ if_on c.webhook.enabled (bind_all false c.webhook.bindings.sources) in
    let b7 =
      b6
      ++ if_on c.elasticsearch.enabled
          (channels_of (λ index. index.bindings.sources) false c.elasticsearch.indices) in
    b7 ++ if_on c.pager_duty.enabled (bind_all false c.pager_duty.bindings.sources)

abbrev pub groups_of : Dict Communications → List Binding
groups_of [] = []
groups_of ((k, c) ∷ groups) = group_of c ++ groups_of groups

abbrev pub actions_of : Dict Action → List Binding
actions_of [] = []
actions_of ((k, act) ∷ actions) =
    if_on act.enabled (bind_all false act.bindings.sources) ++ actions_of actions

-- The sources bound to enabled platforms, and to enabled actions.
abbrev pub bindings_of : Config → List Binding
bindings_of cfg = groups_of cfg.communications ++ actions_of cfg.actions
