-- ===== src/Execute/Switches/Changes.antt =====
-- What the commands of pkg/execute/notifier.go change.
use botkube.Base.{◌≡◌, ◌≢◌, ◌↔◌, Bool, In, arith}
use botkube.Execute.Switches.{
  SetAnswer, is_set, PersistAnswer, persist_error, persist_notifications, SwitchContext,
  switch_notifications, success_message,
}

-- The setting of a channel is stored only after it was set, and the user is told of a success exactly
-- if it was set and storing it did not fail; a platform that stores nothing is no failure.
pub switch_notifications_lem :
    (enabled : Bool) (set_answer : SetAnswer) (persist_answer : PersistAnswer) (c : SwitchContext)
    → let (answer, changes) = switch_notifications enabled set_answer persist_answer c in
      (In (persist_notifications c.comm_group_name c.platform c.channel_alias enabled) changes
        ↔ (set_answer ≡ is_set))
      × ((answer ≡ success_message enabled c.cluster_name)
          ↔ ((set_answer ≡ is_set) × (persist_answer ≢ persist_error)))
unfolding switch_notifications
switch_notifications_lem enabled set_answer persist_answer c = ground arith
