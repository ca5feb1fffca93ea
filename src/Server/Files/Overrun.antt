-- ===== src/Server/Files/Overrun.antt =====
-- backend/cmd/upload-svc/tus.go: tusPreCreate checks the quota, and finishTusUpload makes the row
-- when the bytes are there.
use optiflow.Prelude.{
  ℕ, ◌+◌, ◌^◌, ◌<◌, ◌≡◌, ◌∙◌, true, ◌&&◌, Option, none, some, List, String, truthy, arith, Eq,
}
use optiflow.Server.Folders.{Folder, absent}
use optiflow.Server.Files.{File, pending}
use optiflow.Server.Files.Uploads.{
  within, beyond, used_bytes, check_quota, compare_quota, new_file, presign, presign_checked,
  presign_in,
}
use optiflow.Server.Files.Completion.{
  accepted, stamped, tus_pre_create, Finished, finish_tus_upload, finish_owned, tus_file,
}
use optiflow.Server.Files.Usage.{used_bytes-append}

module _ {U : Type 0} ⦃e : Eq U⦄ where
  finish_usage :
      (text : U → String) (user id : U) (u : Finished U) (files : List (File U))
      → u.owner ≡ some user
      → used_bytes user (finish_tus_upload text id u true files).0 ≡ used_bytes user files + u.size
  unfolding finish_tus_upload finish_owned
  finish_usage text user id u files mine =
      ground
        (arith, mine, used_bytes-append user files (tus_file text user id u), e.beq_iff user user)

  presign_usage :
      (quota_of : U → Option ℕ) (text : U → String) (sign : String → Option String) (user id : U)
      (folders : List (Folder U)) (name mime : String) (size : ℕ) (files : List (File U))
      → check_quota quota_of user size files ≡ within
      → (truthy name && truthy mime) ≡ true
      → used_bytes user
          (presign quota_of text sign user id folders name (some size) mime absent files).0
        ≡ used_bytes user files + size
  unfolding presign presign_checked presign_in
  presign_usage quota_of text sign user id folders name mime size files ok h = ground (
    arith,
    ok,
    h,
    used_bytes-append user files (new_file text user id name size mime none pending),
    e.beq_iff user user,
  )

  accepted_within :
      (quota_of : U → Option ℕ) (user : U) (u u' : Finished U) (folders : List (Folder U))
      (files : List (File U))
      → tus_pre_create quota_of (some user) u folders files ≡ accepted u'
      → (check_quota quota_of user u.size files ≡ within)
        × (u'.owner ≡ some user)
        × (u'.size ≡ u.size)
  unfolding tus_pre_create stamped
  accepted_within quota_of user u u' folders files h =
      (ground (arith, h), ground (arith, h), ground (arith, h))

  -- Two tus uploads of a user, of which tusPreCreate accepts each on the same table while both
  -- together are over the quota, but no more than an int64 holds. If the first came through presign,
  -- the check would refuse the second once the first has its row. As tus uploads, once their bytes
  -- are there and stored, the rows of both are made, and the user is over the quota.
  pub tus_over_quota :
      (quota_of : U → Option ℕ) (text : U → String) (sign : String → Option String) (user a b : U)
      (quota : ℕ) (folders : List (Folder U)) (name mime : String) (u u' w w' : Finished U)
      (files : List (File U))
      → quota_of user ≡ some quota
      → tus_pre_create quota_of (some user) u folders files ≡ accepted u'
      → tus_pre_create quota_of (some user) w folders files ≡ accepted w'
      → quota < used_bytes user files + u.size + w.size
      → used_bytes user files + u.size + w.size < 2 ^ 63
      → (truthy name && truthy mime) ≡ true
      → (check_quota quota_of user w.size
            (presign quota_of text sign user a folders name (some u.size) mime absent files).0
          ≡ beyond (used_bytes user files + u.size) quota w.size)
        × (used_bytes user
              (finish_tus_upload text b w' true (finish_tus_upload text a u' true files).0).0
            ≡ used_bytes user files + u.size + w.size)
  unfolding check_quota compare_quota
  tus_over_quota quota_of text sign user a b quota folders name mime u u' w w' files known one two
        over small typed =
      let (ok, mine, size) = accepted_within quota_of user u u' folders files one in
      let (ok', own, size') = accepted_within quota_of user w w' folders files two in
      let used = presign_usage quota_of text sign user a folders name mime u.size files ok typed in
      (
        ground (arith, known, used, over, small),
        finish_usage text user b w' (finish_tus_upload text a u' true files).0 own
            ∙ ground (arith, finish_usage text user a u' files mine, size, size'),
      )
