-- ===== src/Notifications.antt =====
-- lib/api/notifications.ts, lib/hooks/use-notifications.ts and what counts and clicks of
-- components/notifications-popover.tsx (frontend): the cached list of notifications.
--
-- The cache entry under ["notifications"] is an optional list (`undefined` is `none`). A marking is
-- one mutation: onMutate gives its context, and it later succeeds or fails; other mutations,
-- refetches and pushed notifications come in between as further steps.
pub mod Live
pub mod Popover
pub mod Marking
pub mod Rollback
use optiflow.Prelude.{
  ℕ, suc, Bool, true, false, not, Option, none, some, List, [], ◌∷◌, String, is_truthy,
  if◌then◌else◌, str_eq, filter, length, map,
}

pub data NotificationType : Type 0 where
  system storage share : NotificationType

pub record Notification : Type 0 where
  pub id : String
  pub user_id : String
  pub type : NotificationType
  pub title : String
  pub message : String
  pub action_url : Option String
  pub read : Bool
  pub created_at : String

abbrev pub Cache : Type 0
Cache = Option (List Notification)

-- `{ ...n, read: true }` for the notification with this id
unfoldable pub mark : String → Notification → Notification
mark id n = if str_eq n.id id then record n { read = true } else n

-- the updater that onMutate gives to setQueryData
unfoldable pub mark_read : String → List Notification → List Notification
unfolding mark
mark_read id [] = []
mark_read id (n ∷ ns) = mark id n ∷ mark_read id ns

-- The context of a mutation: `{ previous }`.
unfoldable pub on_mutate : String → Cache → Cache × Cache
unfolding mark_read
on_mutate id none = (none, none)
on_mutate id (some ns) = (some (mark_read id ns), some ns)

unfoldable pub on_error : Cache → Cache → Cache
on_error none cache = cache
on_error (some previous) cache = some previous

-- the socket's onMessage: `old ? [notification, ...old] : [notification]`
unfoldable pub on_message : Notification → Cache → Cache
on_message n none = some (n ∷ [])
on_message n (some ns) = some (n ∷ ns)

-- `data: notifications = []`
abbrev pub shown : Cache → List Notification
shown none = []
shown (some ns) = ns

-- NotificationsPopover's `unreadCount`
unfoldable pub unread_count : Cache → ℕ
unread_count cache = length (filter (λ n. not n.read) (shown cache))

-- What a click on a notification asks for: `markRead.mutate(id)` and `router.push(url)`.
pub data Request : Type 0 where
  mark_one push : String → Request

follow : Option String → List Request
follow none = []
follow (some url) = if is_truthy (some url) then push url ∷ [] else []

unfoldable pub handle_notification_click : Notification → List Request
unfolding follow
handle_notification_click n =
    if not n.read then mark_one n.id ∷ follow n.action_url else follow n.action_url
