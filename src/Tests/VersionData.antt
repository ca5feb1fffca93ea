-- ===== src/Tests/VersionData.antt =====
-- The tables of files that the tests of files and versions are about, with numbers as ids.
use optiflow.Prelude.{
  ℕ, refl, ap, inl, inr, Bool, true, false, Option, none, some, List, [], ◌∷◌, arith, nat_eq,
}
use optiflow.Server.Shares.{Share}
use optiflow.Server.Folders.{Folder, into}
use optiflow.Server.Files.{File, pending, lineage_root_id}
use optiflow.Server.Files.Uploads.{presign, presign_version}
use optiflow.Server.Files.Tree.{Db}
use optiflow.Server.Files.Shapes.{IsNew}
use optiflow.Server.Files.Reached.{
  Services, Reach, empty, next, presigning, versioning, elsewhere, handle,
}
use optiflow.Server.Folders.{to_root}
use optiflow.Server.Files.{update_file}
use optiflow.Server.Files.Reached.{updating}

abbrev pub services : Services ℕ
services = record {
  quota_of = λ u. some 100;
  text = λ n. "u";
  sign = λ key. some "url";
  stat = λ key. some 5;
}

-- a file of user 7 in folder 3, and its second version
abbrev pub first : Bool → File ℕ
first current = record {
  id = 1;
  name = "a";
  user_id = 7;
  folder_id = some 3;
  storage_key = "users/u/u/a";
  size_bytes = 10;
  mime_type = "text/plain";
  status = pending;
  thumbnail_key = none;
  playlist_key = none;
  version = 1;
  parent_id = none;
  is_current = current;
}

abbrev pub second : Option ℕ → Bool → File ℕ
second folder current = record {
  id = 2;
  name = "a";
  user_id = 7;
  folder_id = folder;
  storage_key = "users/u/u/a";
  size_bytes = 20;
  mime_type = "text/plain";
  status = pending;
  thumbnail_key = none;
  playlist_key = none;
  version = 2;
  parent_id = some 1;
  is_current = current;
}

abbrev pub folder : Folder ℕ
folder = record { id = 3; name = "f"; user_id = 7; parent_id = none }

abbrev pub share : Share ℕ ℕ
share = record {
  id = 9;
  file_id = 1;
  user_id = 7;
  token = "t";
  password_hash = none;
  expires_at = none;
  max_downloads = none;
  download_count = 0;
}

abbrev pub tables : List (File ℕ) → Db ℕ ℕ
tables files = record { folders = folder ∷ []; files = files; shares = share ∷ [] }

pub reached_0 : Reach services (tables [])
unfolding handle
reached_0 = next empty (elsewhere (folder ∷ []) (share ∷ [])) tt refl

pub reached_1 : Reach services (tables (first true ∷ []))
unfolding handle presign
reached_1 =
    next reached_0 (presigning 7 1 "a" (some 10) "text/plain" (into 3)) (λ f m. absurd m) refl

pub IsNew-2 : IsNew 2 (first true ∷ [])
IsNew-2 f (inl same) = ground (arith, ap (λ r. r.id) same, ap lineage_root_id same)
IsNew-2 f (inr m) = absurd m

pub reached_2 : Reach services (tables (first false ∷ second (some 3) true ∷ []))
unfolding handle presign_version
reached_2 = next reached_1 (versioning 7 1 2 (some 20) "text/plain") IsNew-2 refl

-- the two versions of the file, the second of them at the top
abbrev pub versions : List (File ℕ)
versions = first false ∷ second none true ∷ []

pub reached_3 : Reach services (tables versions)
unfolding handle update_file
reached_3 = next reached_2 (updating 7 2 none to_root) tt refl
