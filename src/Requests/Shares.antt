-- ===== src/Requests/Shares.antt =====
-- lib/api/shares.ts
use optiflow.Prelude.{ℕ, Bool, Option, [], ◌∷◌, ◌++◌, String, concat, or_else}
use optiflow.Requests.{
  api, upload, get, post, delete, Request, plain, with_body, str, str_field, num_field, path3,
}

pub record Share : Type 0 where
  pub id : String
  pub file_id : String
  pub user_id : String
  pub token : String
  pub expires_at : Option String
  pub max_downloads : Option ℕ
  pub download_count : ℕ
  pub created_at : String
  pub file_name : String
  pub requires_password : Bool

-- `N` is the type of JavaScript's numbers; createShare is modelled for those that are in ℕ
pub record CreateShareInput (N : Type 0) : Type 0 where
  pub expires_in_hours : Option N
  pub password : Option String
  pub max_downloads : Option N

unfoldable pub create_share : String → CreateShareInput ℕ → Request
create_share file_id payload = with_body api post (path3 "/files/" file_id "/shares") (
    num_field "expires_in_hours" payload.expires_in_hours
    ++ (str_field "password" payload.password ++ num_field "max_downloads" payload.max_downloads))

unfoldable pub list_file_shares : String → Request
list_file_shares file_id = plain api get (path3 "/files/" file_id "/shares")

unfoldable pub list_shares : Request
list_shares = plain api get "/shares/"

unfoldable pub delete_share : String → Request
delete_share id = plain api delete (concat "/shares/" id)

pub record PublicShare : Type 0 where
  pub file_name : String
  pub size_bytes : ℕ
  pub mime_type : String
  pub requires_password : Bool
  pub has_thumbnail : Bool

unfoldable pub get_public_share : String → Request
get_public_share token = plain api get (concat "/shares/" token)

unfoldable pub get_share_download_url : String → Option String → Request
get_share_download_url token password =
    with_body upload post (path3 "/shares/" token "/download-url")
      (("password", str (or_else password "")) ∷ [])
