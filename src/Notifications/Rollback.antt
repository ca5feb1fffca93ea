-- ===== src/Notifications/Rollback.antt =====
-- lib/hooks/use-notifications.ts: what a failed marking restores, and what it throws away.
use optiflow.Prelude.{
  suc, ◌+◌, ◌≡◌, refl, ap, none, some, List, [], ◌∷◌, String, arith, if◌then◌else◌, length,
}
use optiflow.Notifications.{
  Notification, Cache, mark_read, on_mutate, on_error, on_message, shown, unread_count,
}

-- If nothing else has touched the cache in between, a failed marking leaves it as it was.
pub on_error-on_mutate :
    (id : String) (cache : Cache) → on_error (on_mutate id cache).1 (on_mutate id cache).0 ≡ cache
unfolding on_error on_mutate
on_error-on_mutate id none = refl
on_error-on_mutate id (some ns) = refl

length-mark_read : (id : String) (ns : List Notification) → length (mark_read id ns) ≡ length ns
unfolding mark_read
length-mark_read id [] = refl
length-mark_read id (n ∷ ns) = ap suc (length-mark_read id ns)

-- A notification that the socket pushes between the marking and its failure is lost: the list is
-- the one from before the push, one shorter than what was shown.
pub rollback_loses_push :
    (id : String) (n : Notification) (ns : List Notification)
    → let (marked, previous) = on_mutate id (some ns) in
      let pushed = on_message n marked in
      (on_error previous pushed ≡ some ns)
      × (length (shown pushed) ≡ suc (length (shown (on_error previous pushed))))
unfolding on_error on_mutate on_message
rollback_loses_push id n ns = (refl, ap suc (length-mark_read id ns))

-- Two markings in flight at once: when the first fails after the second was made, the second one's
-- mark is undone too, though its request may succeed.
pub rollback_loses_marking :
    (a b : String) (ns : List Notification)
    → let (marked, previous) = on_mutate a (some ns) in
      let (marked', previous') = on_mutate b marked in
      unread_count (on_error previous marked') ≡ unread_count (some ns)
unfolding on_error on_mutate
rollback_loses_marking a b ns = refl

-- A pushed notification stands first, the others keep their order, and the badge's count goes up
-- by one if it is unread.
pub on_message-unread_count :
    (n : Notification) (cache : Cache)
    → (shown (on_message n cache) ≡ n ∷ shown cache)
      × (unread_count (on_message n cache) ≡ (if n.read then 0 else 1) + unread_count cache)
unfolding on_message unread_count
on_message-unread_count n none = ground arith
on_message-unread_count n (some ns) = ground arith
