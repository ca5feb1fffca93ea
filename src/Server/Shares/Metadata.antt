-- ===== src/Server/Shares/Metadata.antt =====
-- getPublicShare of backend/cmd/api-svc/handlers_share.go.
use optiflow.Prelude.{ℕ, Bool, Option, none, some, List, String, is_some, Eq}
use optiflow.Server.Shares.{Share, resolve_active_share}

-- what getPublicShare reads of the row of a file
pub record FileInfo : Type 0 where
  pub name : String
  pub size_bytes : ℕ
  pub mime_type : String
  pub has_thumbnail : Bool

-- publicShareResponse
pub record PublicShare : Type 0 where
  pub file_name : String
  pub size_bytes : ℕ
  pub mime_type : String
  pub requires_password : Bool
  pub has_thumbnail : Bool

pub data Metadata : Type 0 where
  found : PublicShare → Metadata
  refused : ℕ → String → Metadata

module _ {U H : Type 0} ⦃e : Eq U⦄ (info_of : U → Option FileInfo) where
  described : Share U H → Option FileInfo → Metadata
  described s none = refused 404 "shared file no longer exists"
  described s (some f) = found (record {
    file_name = f.name;
    size_bytes = f.size_bytes;
    mime_type = f.mime_type;
    requires_password = is_some s.password_hash;
    has_thumbnail = f.has_thumbnail;
  })

  resolved : Option (Share U H) → Metadata
  unfolding described
  resolved none = refused 404 "share link not found or expired"
  resolved (some s) = described s (info_of s.file_id)

  -- getPublicShare, with api-svc's own copy of resolveActiveShare, which is the same text
  unfoldable pub get_public_share : ℕ → String → List (Share U H) → Metadata
  unfolding resolved resolve_active_share
  get_public_share now token db = resolved (resolve_active_share now token db)
