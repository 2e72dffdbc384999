-- ===== src/Execute/Switches.antt =====
-- pkg/execute/notifier.go and action.go: the commands that switch notifications and actions on and
-- off. A message is the data that its text is made of.
pub mod Changes
use botkube.Base.{
  String, Bool, true, false, Option, none, some, List, [], ◌∷◌, ◌++◌, Dict, ◌==◌, if◌then◌else◌,
}

-- What `SetNotificationsEnabled` and `PersistNotificationsEnabled` return.
pub data SetAnswer : Type 0 where
  is_set notifications_not_configured set_error : SetAnswer

pub data PersistAnswer : Type 0 where
  persisted unsupported_platform persist_error : PersistAnswer

-- What the user is answered, or the error that is returned.
pub data NotifierAnswer : Type 0 where
  not_configured : (conversation_id cluster_name : String) → NotifierAnswer
  started stopped : (cluster_name : String) → NotifierAnswer
  status : (cluster_name : String) (enabled with_help : Bool) → NotifierAnswer
  setting_failed persisting_failed : NotifierAnswer

-- The calls that change something outside.
pub data Change : Type 0 where
  set_notifications : (conversation_id : String) (enabled : Bool) → Change
  persist_notifications :
      (comm_group_name platform channel_alias : String) (enabled : Bool) → Change
  persist_action : (name : String) (enabled : Bool) → Change

-- The fields of the command context that the executors read.
pub record SwitchContext : Type 0 where
  pub args : List String
  pub cluster_name : String
  pub conversation_id : String
  pub comm_group_name : String
  pub platform : String
  pub channel_alias : String

-- The success message of `Enable` and of `Disable`.
abbrev pub success_message : Bool → String → NotifierAnswer
success_message enabled cluster_name =
    if enabled then started cluster_name else stopped cluster_name

-- `Enable` and `Disable`, which differ in `enabled` and the success message only.
unfoldable pub switch_notifications :
    Bool → SetAnswer → PersistAnswer → SwitchContext → NotifierAnswer × List Change
switch_notifications enabled set_answer persist_answer c =
    let set_call = set_notifications c.conversation_id enabled in
    elim set_answer [
      | notifications_not_configured ↦
          (not_configured c.conversation_id c.cluster_name, set_call ∷ [])
      | set_error ↦ (setting_failed, set_call ∷ [])
      | is_set ↦ (
        elim persist_answer [
          | persist_error ↦ persisting_failed
          | _ ↦ success_message enabled c.cluster_name
        ],
        set_call ∷ persist_notifications c.comm_group_name c.platform c.channel_alias enabled ∷ [],
      )
    ]

-- `Enable`
abbrev pub enable_notifications :
    SetAnswer → PersistAnswer → SwitchContext → NotifierAnswer × List Change
unfolding switch_notifications
enable_notifications = switch_notifications true

-- `Disable`
abbrev pub disable_notifications :
    SetAnswer → PersistAnswer → SwitchContext → NotifierAnswer × List Change
unfolding switch_notifications
disable_notifications = switch_notifications false

-- The second result of `parseCmdVerb`, less its case.
abbrev pub second_arg : List String → String
second_arg [] = ""
second_arg (_ ∷ []) = ""
second_arg (_ ∷ res ∷ _) = res

-- `Status`; `enabled` is what `NotificationsEnabled` returns.
abbrev pub notification_status : Bool → SwitchContext → NotifierAnswer
notification_status enabled c = status c.cluster_name enabled (second_arg c.args == "")

-- What the action executor answers.
pub data ActionAnswer : Type 0 where
  action_name_missing : ActionAnswer
  action_switched : (name cluster_name : String) (enabled : Bool) → ActionAnswer
  action_failed : (name : String) → ActionAnswer

-- `Enable` and `Disable` of actions; `persists` is whether `PersistActionEnabled` succeeds.
unfoldable pub switch_action : Bool → (String → Bool) → SwitchContext → ActionAnswer × List Change
switch_action enabled persists c = elim c.args [
  | [] ↦ (action_name_missing, [])
  | _ ∷ l ↦ elim l [
    | [] ↦ (action_name_missing, [])
    | _ ∷ m ↦ elim m [
      | [] ↦ (action_name_missing, [])
      | action_name ∷ _ ↦ (
        if persists action_name
            then action_switched action_name c.cluster_name enabled
            else action_failed action_name,
        persist_action action_name enabled ∷ [],
      )
    ]
  ]
]
