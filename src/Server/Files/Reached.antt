-- ===== src/Server/Files/Reached.antt =====
-- The requests on the table of files, and the tables that they lead to.
use optiflow.Prelude.{ℕ, ◌≡◌, refl, sym, subst, inl, Bool, Option, none, some, List, [], String, Eq}
use optiflow.Server.Folders.{Folder, ParentField, resolve_owned_folder}
use optiflow.Server.Shares.{Share}
use optiflow.Server.Files.{
  File, resolve_owned_file, restore_file_version, update_file, delete_lineage, delete_file,
}
use optiflow.Server.Files.Uploads.{presign, presign_version}
use optiflow.Server.Files.Completion.{Finished, complete, finish_tus_upload}
use optiflow.Server.Files.Tree.{Db, delete_tree, answered, delete_found_files, delete_folder_files}
use optiflow.Server.Files.Lineages.{IsSound}
use optiflow.Server.Files.Shapes.{IsNew}
use optiflow.Server.Files.Deleted.{drop_lineage-IsSound}
use optiflow.Server.Files.Found.{found-IsRow}
use optiflow.Server.Files.Starting.{presign-IsSound, presign_version-IsSound}
use optiflow.Server.Files.Editing.{
  complete-IsSound, update_file-IsSound, restore_file_version-IsSound, finish-IsSound,
}
use optiflow.Server.Files.Trees.{IsDone, delete_tree-IsDone}

-- A request that reaches the table of files, or one that leaves it alone.
pub data Request (U H : Type 0) : Type 0 where
  presigning : (user id : U) → String → Option ℕ → String → ParentField U → Request U H
  versioning : (user of id : U) → Option ℕ → String → Request U H
  completing : (user id : U) → Request U H
  finishing : U → Finished U → Bool → Request U H
  updating : (user id : U) → Option String → ParentField U → Request U H
  restoring : (user id version_id : U) → Request U H
  deleting : (user id : U) → Request U H
  deleting_folder : ℕ → (user id : U) → Request U H
  -- whatever another handler does to the folders and the shares
  elsewhere : List (Folder U) → List (Share U H) → Request U H

-- The table of users, the text of a uuid, the signing of a URL and the storage.
pub record Services (U : Type 0) : Type 0 where
  pub quota_of : U → Option ℕ
  pub text : U → String
  pub sign : String → Option String
  pub stat : String → Option ℕ

module _ {U : Type 0} ⦃e : Eq U⦄ where
  empty-IsSound : IsSound {U = U} []
  empty-IsSound = record {
    shaped = record { keyed = tt; flat = λ f g m. absurd m; numbered = λ f g m. absurd m };
    single = λ user root. inl refl;
  }

module _ {U H : Type 0} ⦃e : Eq U⦄ where
  unfoldable pub handle : Services U → Request U H → Db U H → Db U H
  handle v (presigning user id name size mime folder) db = record db {
    files = (presign v.quota_of v.text v.sign user id db.folders name size mime folder db.files).0;
  }
  handle v (versioning user of id size mime) db = record db {
    files = (presign_version v.quota_of v.text v.sign user of id size mime db.files).0;
  }
  handle v (completing user id) db = record db { files = (complete v.stat user id db.files).0 }
  handle v (finishing id u is_stored) db = record db {
    files = (finish_tus_upload v.text id u is_stored db.files).0;
  }
  handle v (updating user id name folder) db = record db {
    files = (update_file user id db.folders name folder db.files).0;
  }
  handle v (restoring user id version_id) db = record db {
    files = (restore_file_version user id version_id db.files).0;
  }
  handle v (deleting user id) db =
      let (files, shares, answer) = delete_file user id db.files db.shares in
      record db { files = files; shares = shares }
  handle v (deleting_folder fuel user id) db = (delete_folder_files fuel user id db).0
  handle v (elsewhere folders shares) db = record db { folders = folders; shares = shares }

  -- The id that uuid.New makes up for a new row is not in use.
  abbrev pub IsPossible : Request U H → Db U H → Type 0
  IsPossible (presigning user id name size mime folder) db = IsNew id db.files
  IsPossible (versioning user of id size mime) db = IsNew id db.files
  IsPossible (finishing id u is_stored) db = IsNew id db.files
  IsPossible _ db = Unit

  -- The tables that requests lead to from empty ones, one request after another.
  pub data Reach (v : Services U) : Db U H → Type 0 where
    empty : Reach v (record { folders = []; files = []; shares = [] })
    next :
        {db db' : Db U H}
        → Reach v db
        → (r : Request U H) → IsPossible r db
        → db' ≡ handle v r db
        → Reach v db'

  deleted-IsSound :
      (user id : U) (files : List (File U)) (shares : List (Share U H)) (m : Option (File U))
      → resolve_owned_file user id files ≡ m
      → IsSound files
      → IsSound (delete_lineage user files shares m).0
  unfolding delete_lineage
  deleted-IsSound user id files shares none h s = s
  deleted-IsSound user id files shares (some f) h s =
      drop_lineage-IsSound user files f (found-IsRow user id files f h).0 s

  done-IsSound :
      (user : U) (db : Db U H) (m : Option (Db U H × List (File U)))
      → IsDone user db m
      → IsSound db.files
      → IsSound (answered db m).0.files
  unfolding answered
  done-IsSound user db none h s = s
  done-IsSound user db (some r) h s = h.sound

  folder_deleted-IsSound :
      (fuel : ℕ) (user id : U) (db : Db U H) (m : Option (Folder U))
      → IsSound db.files
      → IsSound (delete_found_files fuel user id db m).0.files
  unfolding delete_found_files
  folder_deleted-IsSound fuel user id db none s = s
  folder_deleted-IsSound fuel user id db (some f) s =
      done-IsSound user db (delete_tree fuel user id db) (delete_tree-IsDone fuel user id db s) s

  handle-IsSound :
      (v : Services U) (r : Request U H) (db : Db U H)
      → IsPossible r db
      → IsSound db.files
      → IsSound (handle v r db).files
  unfolding handle delete_file delete_folder_files
  handle-IsSound v (presigning user id name size mime folder) db ok s =
      presign-IsSound db.files s v.quota_of v.text v.sign user id ok db.folders name size mime
        folder
  handle-IsSound v (versioning user of id size mime) db ok s =
      presign_version-IsSound db.files s v.quota_of v.text v.sign user id ok of size mime
  handle-IsSound v (completing user id) db ok s = complete-IsSound db.files s v.stat user id
  handle-IsSound v (finishing id u is_stored) db ok s =
      finish-IsSound db.files s v.text id u is_stored ok
  handle-IsSound v (updating user id name folder) db ok s =
      update_file-IsSound db.files s user id db.folders name folder
  handle-IsSound v (restoring user id version_id) db ok s =
      restore_file_version-IsSound db.files s user id version_id
  handle-IsSound v (deleting user id) db ok s =
      deleted-IsSound user id db.files db.shares (resolve_owned_file user id db.files) refl s
  handle-IsSound v (deleting_folder fuel user id) db ok s =
      folder_deleted-IsSound fuel user id db (resolve_owned_folder user id db.folders) s
  handle-IsSound v (elsewhere folders shares) db ok s = s

  pub Reach-IsSound : (v : Services U) {db : Db U H} → Reach v db → IsSound db.files
  Reach-IsSound v empty = empty-IsSound
  Reach-IsSound v (next {db} r q ok same) =
      subst (λ d. IsSound d.files) (sym same) (handle-IsSound v q db ok (Reach-IsSound v r))
