-- ===== src/Notifications/Popover.antt =====
-- components/notifications-popover.tsx (frontend): what it renders. Its menu is always rendered
-- here; `distance` stands for formatDistanceToNow.
use optiflow.Prelude.{
  ◌≡◌, refl, Bool, false, not, List, [], ◌∷◌, String, any, is_truthy, ltb, arith, str_eq,
}
use optiflow.Notifications.{
  NotificationType, system, storage, share, Notification, Cache, shown, unread_count,
}
use optiflow.View.{View, nothing, text, element, clickable, ◌⊕◌, when, can}
use optiflow.Pages.Files.Cards.{decimal}

pub data Icon : Type 0 where
  share_icon hard_drive_icon sparkles_icon : Icon

unfoldable pub get_icon : NotificationType → Icon
get_icon share = share_icon
get_icon storage = hard_drive_icon
get_icon system = sparkles_icon

-- a click on the notification with an id
pub data Action : Type 0 where
  open_notification : Notification → Action

icon_view : Icon → View Action
icon_view share_icon = element "Share2" nothing
icon_view hard_drive_icon = element "HardDrive" nothing
icon_view sparkles_icon = element "Sparkles" nothing

module _ (distance : String → String) where
  unfoldable pub notification_view : Notification → View Action
  unfolding icon_view get_icon
  notification_view n = clickable false (open_notification n) (
      icon_view (get_icon n.type)
      ⊕ element "h5" (text n.title)
      ⊕ element "span" (text (distance n.created_at))
      ⊕ element "p" (text n.message)
      ⊕ when (is_truthy n.action_url) (text "View action")
      ⊕ when (not n.read) (element "div" nothing))

  unfoldable pub notification_list : List Notification → View Action
  unfolding notification_view
  notification_list [] = nothing
  notification_list (n ∷ ns) = notification_view n ⊕ notification_list ns

  list_view : List Notification → View Action
  unfolding notification_list
  list_view [] = element "div" (text "No notifications yet")
  list_view ns = notification_list ns

  unfoldable pub view : Cache → View Action
  unfolding list_view unread_count
  view cache =
      when (ltb 0 (unread_count cache)) (element "div" (text (decimal 16 (unread_count cache))))
      ⊕ element "span" (text "Notifications")
      ⊕ when (ltb 0 (unread_count cache))
          (element "span" (text (decimal 16 (unread_count cache)) ⊕ text " new"))
      ⊕ list_view (shown cache)

  abbrev pub opens : String → Action → Bool
  opens id (open_notification n) = str_eq n.id id

  list_opens :
      (id : String) (ns : List Notification)
      → can (opens id) (notification_list ns) ≡ any (λ n. str_eq n.id id) ns
  unfolding notification_list notification_view icon_view
  list_opens id [] = refl
  list_opens id (n ∷ ns) = ground (arith, list_opens id ns)

  all_opens :
      (id : String) (ns : List Notification)
      → can (opens id) (list_view ns) ≡ any (λ n. str_eq n.id id) ns
  unfolding list_view
  all_opens id [] = refl
  all_opens id (n ∷ ns) = list_opens id (n ∷ ns)

  -- Exactly the notifications in the cache can be clicked.
  pub view-opens :
      (id : String) (cache : Cache)
      → can (opens id) (view cache) ≡ any (λ n. str_eq n.id id) (shown cache)
  unfolding view
  view-opens id cache = ground (arith, all_opens id (shown cache))
