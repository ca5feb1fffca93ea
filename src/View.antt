-- ===== src/View.antt =====
-- What a component of the frontend renders, as far as a user can act on it: its elements and texts
-- in order, its fields with their values, its buttons with their `disabled` test and what a click
-- does. Class names, icons, animations and attributes that only style are left out. `A` is the
-- page's own type of actions.
use optiflow.Prelude.{
  Bool, true, false, not, ◌&&◌, ◌||◌, Option, none, some, String, str_eq, is_truthy,
}

pub data View (A : Type 0) : Type 0 where
  nothing spinner : View A
  text : String → View A
  element : String → View A → View A
  link : String → View A → View A
  -- a button, or another element with onClick: whether it is disabled, what a click does
  clickable : Bool → A → View A → View A
  -- an input: its type, placeholder and value, and what a change does
  field : (type placeholder value : String) → (String → A) → View A
  ◌⊕◌ : View A → View A → View A

infixr 40 ◌⊕◌
module _ {A : Type 0} where
  -- `{b && v}`
  abbrev pub when : Bool → View A → View A
  when true v = v
  when false v = nothing

  -- `{s && <div>{s}</div>}` of an optional text
  abbrev pub text_if : Option String → View A
  text_if none = nothing
  text_if (some s) = when (is_truthy (some s)) (element "div" (text s))

  -- Whether a user can do something that passes the test.
  abbrev pub can : (A → Bool) → View A → Bool
  can p nothing = false
  can p spinner = false
  can p (text s) = false
  can p (element tag v) = can p v
  can p (link to v) = can p v
  can p (clickable disabled a v) = (not disabled && p a) || can p v
  can p (field type placeholder value change) = p (change value)
  can p (v ⊕ w) = can p v || can p w

  -- Whether a text is shown.
  abbrev pub shows : String → View A → Bool
  shows t nothing = false
  shows t spinner = false
  shows t (text s) = str_eq s t
  shows t (element tag v) = shows t v
  shows t (link to v) = shows t v
  shows t (clickable disabled a v) = shows t v
  shows t (field type placeholder value change) = false
  shows t (v ⊕ w) = shows t v || shows t w
