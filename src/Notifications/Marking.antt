-- ===== src/Notifications/Marking.antt =====
-- lib/hooks/use-notifications.ts: what the optimistic update does to the list and to its count.
use optiflow.Prelude.{
  ◌+◌, ◌≡◌, refl, Bool, true, false, not, ◌&&◌, none, some, List, [], ◌∷◌, String, str_eq,
  str_eq_iff, filter, length, arith,
}
use optiflow.Notifications.{Notification, Cache, mark_read, on_mutate, shown, unread_count}

-- Whether a notification is unread and has this id.
abbrev pub is_target : String → Notification → Bool
is_target id n = not n.read && str_eq n.id id

mark_read-count :
    (id : String) (ns : List Notification)
    → length (filter (λ n. not n.read) (mark_read id ns)) + length (filter (is_target id) ns)
      ≡ length (filter (λ n. not n.read) ns)
unfolding mark_read
mark_read-count id [] = omega arith
mark_read-count id (n ∷ ns) = ground (arith, mark_read-count id ns)

-- The optimistic update lowers the badge's count by the number of unread notifications that have
-- the id, with or without a cached list.
pub on_mutate-unread_count :
    (id : String) (cache : Cache)
    → unread_count (on_mutate id cache).0 + length (filter (is_target id) (shown cache))
      ≡ unread_count cache
unfolding on_mutate unread_count
on_mutate-unread_count id none = omega arith
on_mutate-unread_count id (some ns) = mark_read-count id ns

-- What a marking may change: `read`, of the notification with the id, to true.
pub record IsMarking (id : String) (old new : Notification) : Type 0 where
  pub same_id : new.id ≡ old.id
  pub same_text : (new.title ≡ old.title) × (new.message ≡ old.message)
  pub same_action : new.action_url ≡ old.action_url
  pub same_rest :
      (new.user_id ≡ old.user_id) × (new.type ≡ old.type) × (new.created_at ≡ old.created_at)
  pub now_read : old.id ≡ id → new.read ≡ true
  pub others : str_eq old.id id ≡ false → new.read ≡ old.read

abbrev pub Zip :
    (Notification → Notification → Type 0) → List Notification → List Notification → Type 0
Zip P [] [] = Unit
Zip P (x ∷ xs) (y ∷ ys) = P x y × Zip P xs ys
Zip P [] (y ∷ ys) = ⊥
Zip P (x ∷ xs) [] = ⊥

-- The optimistic update keeps the length and the order of the list, and in each notification it
-- changes `read` alone: to true at the id, and nothing elsewhere.
pub mark_read-IsMarking :
    (id : String) (ns : List Notification) → Zip (IsMarking id) ns (mark_read id ns)
unfolding mark_read
mark_read-IsMarking id [] = tt
mark_read-IsMarking id (n ∷ ns) = (ground (arith, str_eq_iff n.id id), mark_read-IsMarking id ns)

-- Marking again changes nothing.
pub mark_read_idem :
    (id : String) (ns : List Notification) → mark_read id (mark_read id ns) ≡ mark_read id ns
unfolding mark_read
mark_read_idem id [] = refl
mark_read_idem id (n ∷ ns) = ground (arith, mark_read_idem id ns)
