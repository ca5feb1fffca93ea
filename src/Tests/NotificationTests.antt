-- ===== src/Tests/NotificationTests.antt =====
-- lib/hooks/use-notifications.ts at concrete inputs.
use optiflow.Prelude.{suc, ◌≡◌, refl, false, none, some, List, [], ◌∷◌, String, length}
use optiflow.Notifications.{
  Notification, share, on_mutate, on_error, on_message, shown, unread_count,
}
use optiflow.Notifications.Rollback.{rollback_loses_push}

abbrev note : String → Notification
note id = record {
  id = id;
  user_id = "u";
  type = share;
  title = "t";
  message = "m";
  action_url = none;
  read = false;
  created_at = "2026";
}

abbrev notes : List Notification
notes = note "a" ∷ note "b" ∷ []

counted : unread_count (on_mutate "a" (some notes)).0 ≡ 1
unfolding on_mutate unread_count
counted = refl

rollback_loses_push_example :
    let (marked, previous) = on_mutate "a" (some notes) in
    let pushed = on_message (note "c") marked in
    (on_error previous pushed ≡ some notes)
    × (length (shown pushed) ≡ suc (length (shown (on_error previous pushed))))
rollback_loses_push_example = rollback_loses_push "a" (note "c") notes
