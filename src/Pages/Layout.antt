-- ===== src/Pages/Layout.antt =====
-- app/dashboard/layout.tsx and components/logout-button.tsx (frontend): the frame of every page of
-- the dashboard. `session` is what auth() answers, `children` the page. The letter beside a name is
-- that of a name whose first character is one UTF-16 code unit.
use Prim.Native.String.{slice}
use optiflow.Prelude.{
  ◌≡◌, refl, Bool, false, Option, none, some, List, [], ◌∷◌, String, or_else, truthy, if◌then◌else◌,
  arith,
}
use optiflow.View.{View, nothing, text, element, link, clickable, ◌⊕◌, can}
use optiflow.Pages.Profile.{SessionUser}

pub data Outcome (A : Type 0) : Type 0 where
  redirected : String → Outcome A
  rendered : View A → Outcome A

-- the page's own actions, and `signOut({ callbackUrl })`
pub data Action (A : Type 0) : Type 0 where
  of_page : A → Action A
  sign_out : (callback_url : String) → Action A

pub record Item : Type 0 where
  pub href : String
  pub label : String

unfoldable pub items : List Item
items =
    record { href = "/dashboard"; label = "Overview" }
    ∷ record { href = "/dashboard/files"; label = "My Files" }
    ∷ record { href = "/dashboard/shared"; label = "Share Links" }
    ∷ record { href = "/dashboard/profile"; label = "Profile" }
    ∷ []

-- `name?.[0] ?? "U"`
letter : Option String → String
letter none = "U"
letter (some name) = if truthy name then slice name 0 1 else "U"

module _ {A : Type 0} where
  -- the elements of the page, with its actions as those of the frame
  unfoldable pub lift : View A → View (Action A)
  lift nothing = nothing
  lift View.spinner = View.spinner
  lift (text s) = text s
  lift (element tag v) = element tag (lift v)
  lift (link to v) = link to (lift v)
  lift (clickable disabled a v) = clickable disabled (of_page a) (lift v)
  lift (View.field type placeholder value change) =
      View.field type placeholder value (λ t. of_page (change t))
  lift (v ⊕ w) = lift v ⊕ lift w

  menu : List Item → View (Action A)
  menu [] = nothing
  menu (i ∷ is) = link i.href (text i.label) ⊕ menu is

  unfoldable pub logout_button : View (Action A)
  logout_button = clickable false (sign_out "/signin") nothing

  unfoldable pub frame : SessionUser → View A → View (Action A)
  unfolding items menu letter lift logout_button
  frame user children =
      link "/dashboard" (text "StreamVault")
      ⊕ text "Menu"
      ⊕ menu items
      ⊕ element "div" (text "Trash" ⊕ text "Soon")
      ⊕ link "/dashboard/profile" (
          element "div" (text (letter user.name))
          ⊕ element "p" (text (or_else user.name "User"))
          ⊕ element "p" (text (or_else user.email "")))
      ⊕ logout_button
      ⊕ element "main" (lift children)

  -- DashboardLayout, given the user of the session if there is one
  unfoldable pub dashboard_layout : Option SessionUser → View A → Outcome (Action A)
  unfolding frame
  dashboard_layout none children = redirected "/signin"
  dashboard_layout (some user) children = rendered (frame user children)

  abbrev pub of : (A → Bool) → Action A → Bool
  of p (of_page a) = p a
  of p (sign_out url) = false

  abbrev pub offers : (Action A → Bool) → Outcome (Action A) → Bool
  offers p (redirected url) = false
  offers p (rendered v) = can p v

  can-lift : (p : A → Bool) (v : View A) → can (of p) (lift v) ≡ can p v
  unfolding lift
  can-lift p nothing = refl
  can-lift p View.spinner = refl
  can-lift p (text s) = refl
  can-lift p (element tag v) = can-lift p v
  can-lift p (link to v) = can-lift p v
  can-lift p (clickable disabled a v) = ground (arith, can-lift p v)
  can-lift p (View.field type placeholder value change) = refl
  can-lift p (v ⊕ w) = ground (arith, can-lift p v, can-lift p w)

  -- What a page of the dashboard lets a user do can be done in its frame exactly when there is a
  -- session with a user.
  pub dashboard_layout-offers :
      (p : A → Bool) (user : Option SessionUser) (children : View A)
      → offers (of p) (dashboard_layout user children)
        ≡ elim user [ none ↦ false | some u ↦ can p children ]
  unfolding dashboard_layout frame menu items logout_button
  dashboard_layout-offers p none children = refl
  dashboard_layout-offers p (some user) children = can-lift p children
