-- ===== src/Config/Sample.antt =====
-- A configuration with an enabled Slack platform and a disabled action, for the tests.
use botkube.Base.{Bool, true, false, none, [], ◌∷◌, Dict}
use botkube.Config.{SinkBindings, Plugin, ChannelBindingsByName, Communications, Config}

abbrev pub plugin : Bool → Plugin
plugin enabled = record { enabled = enabled; config = none; context = record { rbac = none } }

abbrev slack_channels : Dict ChannelBindingsByName
slack_channels =
    (
      "default",
      record {
        name = "general";
        notification_disabled = false;
        bindings = record { sources = "k8s" ∷ []; executors = "tools" ∷ [] };
      },
    )
    ∷ []

abbrev to_tools : SinkBindings
to_tools = record { sources = "tools" ∷ [] }

abbrev pub comms : Communications
comms = record {
  socket_slack = record {
    enabled = true;
    channels = slack_channels;
    bot_token = "xoxb-1";
    app_token = "xapp-1";
  };
  cloud_slack = record { enabled = false; channels = [] };
  mattermost = record { enabled = false; channels = [] };
  discord = record { enabled = false; channels = [] };
  cloud_teams = record { enabled = false; teams = [] };
  webhook = record { enabled = false; bindings = to_tools };
  elasticsearch = record { enabled = false; indices = [] };
  pager_duty = record { enabled = false; bindings = to_tools };
}

abbrev pub config : Config
config = record {
  actions =
      (
        "report",
        record {
          enabled = false;
          display_name = "Report";
          command = "help";
          bindings = record { sources = "k8s" ∷ []; executors = "idle" ∷ [] };
        },
      )
      ∷ [];
  sources =
      (
        "k8s",
        record {
          display_name = "Kubernetes";
          plugins = ("botkube/kubernetes", plugin true) ∷ ("botkube/prometheus", plugin false) ∷ [];
        },
      )
      ∷ [];
  executors =
      ("tools", record { display_name = "Tools"; plugins = ("botkube/kubectl", plugin true) ∷ [] })
      ∷ ("idle", record { display_name = "Idle"; plugins = ("botkube/helm", plugin true) ∷ [] })
      ∷ [];
  aliases = [];
  communications = ("default", comms) ∷ [];
  cluster_name = "dev";
  config_watcher_enabled = false;
}
