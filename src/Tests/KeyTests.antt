-- ===== src/Tests/KeyTests.antt =====
-- The query keys and the requests at concrete inputs, with a test of keys that is that for
-- prefixes.
use optiflow.Prelude.{
  ◌≡◌, refl, ◌≢◌, true, false, Bool, none, some, [], ◌∷◌, ◌++◌, String, str_eq, str_eq_iff, arith,
  if◌then◌else◌,
}
use optiflow.Requests.Files.{FileRecord, pending}
use optiflow.Requests.Placement.{Row, Folders}
use optiflow.Keys.{QueryKey, QueryClient}

abbrev begins : QueryKey → QueryKey → Bool
begins [] q = true
begins (a ∷ k) [] = false
begins (a ∷ k) (b ∷ q) = if str_eq a b then begins k q else false

begins_prefix : (k r : QueryKey) → begins k (k ++ r) ≡ true
begins_prefix [] r = refl
begins_prefix (a ∷ k) r = ground (arith, str_eq_iff a a, begins_prefix k r)

prefix_of_begins : (k q : QueryKey) → begins k q ≡ true → (r : QueryKey) × (q ≡ k ++ r)
prefix_of_begins [] q h = (q, refl)
prefix_of_begins (a ∷ k) [] h = cc
prefix_of_begins (a ∷ k) (b ∷ q) h =
    let (r, e) = prefix_of_begins k q (ground arith) in (r, ground (arith, str_eq_iff a b))

abbrev client : QueryClient
client = record {
  matches = begins;
  matches_prefix = begins_prefix;
  prefix_of_matches = prefix_of_begins;
}

root_is_not_stats : ◌≢◌ {A = String} "root" "stats"
root_is_not_stats = ground (arith, str_eq_iff "root" "stats")

abbrev report : FileRecord
report = record {
  id = "f";
  name = "report.pdf";
  user_id = "u";
  folder_id = none;
  size_bytes = 3;
  mime_type = "application/pdf";
  status = pending;
  thumbnail_key = none;
  playlist_key = none;
  version = 1;
  parent_id = none;
  is_current = true;
  created_at = "2026";
  updated_at = "2026";
}

-- Folders are named by themselves, all are owned, and none makes a cycle.
abbrev db : Folders String
db = record { parse = λ s. some s; owned = λ u. true; cyclic = λ u. false }

abbrev row : Row String
row = record { name = "report.pdf"; folder = some "d" }
