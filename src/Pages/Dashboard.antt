-- ===== src/Pages/Dashboard.antt =====
-- app/dashboard/page.tsx (frontend). What the hooks return at a render is `Queries`; a chart of the
-- library recharts is an element with the texts of its data. `Math.log(bytes) / Math.log(k)`
-- is taken to be exact, for numbers of bytes that are less than 2^53.
pub mod Sizes
use optiflow.Prelude.{
  ℕ, ◌+◌, ◌*◌, ◌/◌, ◌%◌, ◌^◌, zero, suc, min, Bool, true, false, Option, none, some, List, [], ◌∷◌,
  String, concat, map, str_eq, if◌then◌else◌, ◌==◌,
}
use optiflow.Requests.Accounts.{Me}
use optiflow.Requests.Files.{FileStats}
use optiflow.View.{View, nothing, spinner, text, element, ◌⊕◌}
use optiflow.Pages.Files.Cards.{magnitude, decimal}

abbrev unit_text : ℕ → String
unit_text zero = "Bytes"
unit_text (suc zero) = "KB"
unit_text (suc (suc zero)) = "MB"
unit_text (suc (suc (suc zero))) = "GB"
unit_text (suc (suc (suc (suc zero)))) = "TB"
unit_text _ = "undefined"

-- bytes / 1024^i in hundredths, rounded to the nearest, as toFixed(2) does
unfoldable pub hundredths : ℕ → ℕ → ℕ
hundredths bytes i = (200 * bytes + 1024 ^ i) / (2 * 1024 ^ i)

-- `parseFloat(x.toFixed(2))` as text, for x in hundredths
unfoldable pub hundredths_text : ℕ → String
unfolding decimal
hundredths_text h =
    let whole = decimal 16 (h / 100) in
    let last = decimal 1 (h % 10) in
    let first = decimal 1 (h / 10 % 10) in
    if h % 100 == 0
    then whole
    else (if h % 10 == 0
        then concat whole (concat "." first)
        else concat whole (concat "." (concat first last)))

unfoldable pub format_bytes : ℕ → String
unfolding magnitude hundredths hundredths_text
format_bytes bytes =
    if bytes == 0
    then "0 Bytes"
    else (let i = magnitude 6 bytes in
        concat (hundredths_text (hundredths bytes i)) (concat " " (unit_text i)))

-- `STATUS_LABELS[status as FileStatus] ?? status`
unfoldable pub status_label : String → String
status_label status =
    if str_eq status "pending"
    then "Pending"
    else (if str_eq status "processing"
        then "Processing"
        else (if str_eq status "ready"
            then "Ready"
            else (if str_eq status "failed" then "Failed" else status)))

-- what useMemo makes of the statistics
pub record Stats : Type 0 where
  pub total_files : ℕ
  pub total_bytes : ℕ
  pub status_data : List (String × ℕ)
  pub type_data : List (String × ℕ)

unfoldable pub stats_of : Option FileStats → Stats
unfolding status_label
stats_of none = record { total_files = 0; total_bytes = 0; status_data = []; type_data = [] }
stats_of (some raw) = record {
  total_files = raw.total_files;
  total_bytes = raw.total_bytes;
  status_data = map (λ e. (status_label e.0, e.1)) raw.status_counts;
  type_data = raw.type_counts;
}

pub record Queries : Type 0 where
  pub raw_stats : Option FileStats
  pub is_loading : Bool
  pub me : Option Me

unfoldable pub quota_of : Option Me → ℕ
quota_of none = 0
quota_of (some me) = me.storage_quota_bytes

-- the value of the progress bar as a fraction, its numerator first
unfoldable pub usage : Option Me → ℕ → ℕ × ℕ
unfolding quota_of
usage me bytes =
    if quota_of me == 0 then (0, 1) else (min (100 * quota_of me) (100 * bytes), quota_of me)

-- The page has nothing to click.
chart_data : List (String × ℕ) → View ⊥
unfolding decimal
chart_data [] = nothing
chart_data (e ∷ es) = text e.0 ⊕ text (decimal 16 e.1) ⊕ chart_data es

chart_view : String → List (String × ℕ) → View ⊥
unfolding chart_data
chart_view tag [] = element "div" (text "No files uploaded yet.")
chart_view tag es = element tag (chart_data es)

stats_view : Stats → Option Me → View ⊥
unfolding chart_view format_bytes quota_of
stats_view stats me =
    element "h1" (text "Dashboard Overview")
    ⊕ element "p" (text "Every file across your account, in every folder.")
    ⊕ text "Storage Used"
    ⊕ element "div" (text (format_bytes stats.total_bytes))
    ⊕ element "span" (text "of " ⊕ text (format_bytes (quota_of me)))
    ⊕ element "Progress" nothing
    ⊕ text "Total Files"
    ⊕ element "div" (text (decimal 16 stats.total_files))
    ⊕ element "p" (text "Across your whole account")
    ⊕ text "Processing Status"
    ⊕ text "Where your files currently stand in the pipeline."
    ⊕ chart_view "BarChart" stats.status_data
    ⊕ text "File Distribution"
    ⊕ text "A breakdown of the types of files you store."
    ⊕ chart_view "PieChart" stats.type_data

unfoldable pub view : Queries → View ⊥
unfolding stats_view stats_of
view q =
    if q.is_loading
    then spinner ⊕ element "p" (text "Loading your files...")
    else stats_view (stats_of q.raw_stats) q.me
