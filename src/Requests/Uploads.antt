-- ===== src/Requests/Uploads.antt =====
-- lib/api/uploads.ts, less putFileToPresignedUrl, which is in Versions
use optiflow.Prelude.{ℕ, Option, [], ◌∷◌, String}
use optiflow.Requests.{
  upload, get, post, Request, plain, with_body, param_if, str, num, str_field, path3,
}

pub record PresignPayload : Type 0 where
  pub name : String
  pub size_bytes : ℕ
  pub mime_type : String
  pub folder_id : Option String

unfoldable pub presign_upload : PresignPayload → Request
presign_upload p = with_body upload post "/uploads/presign" (
    ("name", str p.name)
    ∷ ("size_bytes", num p.size_bytes)
    ∷ ("mime_type", str p.mime_type)
    ∷ str_field "folder_id" p.folder_id)

unfoldable pub presign_new_version : String → ℕ → String → Request
presign_new_version file_id size_bytes mime_type =
    with_body upload post (path3 "/uploads/" file_id "/versions/presign")
      (("size_bytes", num size_bytes) ∷ ("mime_type", str mime_type) ∷ [])

unfoldable pub complete_upload : String → Request
complete_upload file_id = plain upload post (path3 "/uploads/" file_id "/complete")

unfoldable pub get_download_url : String → Option String → Request
get_download_url file_id variant =
    record (plain upload get (path3 "/uploads/" file_id "/download-url")) {
      params = param_if "variant" variant;
    }
