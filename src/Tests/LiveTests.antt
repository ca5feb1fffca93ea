-- ===== src/Tests/LiveTests.antt =====
-- useNotificationSocket of lib/hooks/use-notifications.ts in two courses.
use optiflow.Prelude.{
  ◌≡◌, refl, Bool, true, false, option_eq, Option, none, some, List, [], ◌∷◌, All,
}
use optiflow.Socket.{Socket, opened, Event, opening, receiving}
use optiflow.Notifications.Live.{initial, Happening, rendering, now, late, happen, course}
use optiflow.Notifications.Live.Lifetime.{has_two, course-one_connection}
use optiflow.Notifications.Live.Objects.{is_awake}

-- a first token, a message, another token, and an event of the first effect's WebSocket
abbrev two_effects : List Happening
two_effects =
    rendering (some "t")
    ∷ now (opening 0)
    ∷ rendering (some "u")
    ∷ late 0 (Event.closing 0)
    ∷ now (opening 0)
    ∷ []

course-one_connection_example :
    let l = course (initial none) two_effects in
    (has_two l.current 0 1 ≡ false)
    × All (λ s. (is_awake (s.phase 0) ≡ false) × (s.pending 0 ≡ false)) l.past
    × ((happen l (late 0 (receiving 0 none))).cache ≡ l.cache)
course-one_connection_example = course-one_connection none two_effects (receiving 0 none) 0 1 0 0

abbrev is_open : Option Socket → Bool
is_open none = false
is_open (some s) = elim (s.phase 0) [ opened ↦ option_eq s.token (some "u") | _ ↦ false ]

-- the second effect's WebSocket is open, with the second token
course_tested : is_open (course (initial none) two_effects).current ≡ true
unfolding course happen
course_tested = refl
