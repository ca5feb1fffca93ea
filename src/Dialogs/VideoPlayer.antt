-- ===== src/Dialogs/VideoPlayer.antt =====
-- components/files/video-player-dialog.tsx (frontend): its effect, with `open` and `fileId` as
-- dependencies, and what it renders.
--
-- The objects of hls.js belong to the state: the i-th one that was made loads `source i`, and
-- `playing i` says that it has not been destroyed; a destroyed one calls nothing back. `Browser`
-- is what the browser answers when the effect runs.
pub mod Lifetime
use optiflow.Prelude.{
  ℕ, suc, Bool, true, false, not, ◌&&◌, Option, none, some, List, [], ◌∷◌, String, concat, truthy,
  is_truthy, is_some, option_eq, if◌then◌else◌, ◌==◌,
}
use optiflow.Socket.{set_at}
use optiflow.View.{View, nothing, spinner, text, element, ◌⊕◌, when}

-- whether the `video` element is there, `Hls.isSupported()`, and whether `canPlayType` gives a text
pub record Browser : Type 0 where
  pub has_video : Bool
  pub hls_supported : Bool
  pub plays_natively : Bool

-- Whether the effect has run, and for which `open` and `fileId`.
pub data Dependency : Type 0 where
  unmounted : Dependency
  mounted : (shown : Bool) → (file_id : Option String) → Dependency

pub record State : Type 0 where
  pub dependency : Dependency
  pub error : Option String
  pub loading : Bool
  -- `hlsRef.current`, which is what the effect's clean-up destroys
  pub hls : Option ℕ
  pub source : ℕ → String
  pub playing : ℕ → Bool
  pub next_hls : ℕ

abbrev pub initial : State
initial = record {
  dependency = unmounted;
  error = none;
  loading = true;
  hls = none;
  source = λ i. "";
  playing = λ i. false;
  next_hls = 0;
}

pub data Happening : Type 0 where
  rendering : Browser → (shown : Bool) → (file_id : Option String) → Happening
  unmounting : Happening
  parsing : ℕ → Happening
  failing : ℕ → (fatal : Bool) → Happening

module _ (upload_url : String) where
  unfoldable pub source_of : String → String
  source_of file_id = concat upload_url (concat "/uploads/" (concat file_id "/hls/master.m3u8"))

  -- `new Hls` and what follows
  start : String → State → State
  unfolding source_of
  start file_id s = record s {
    hls = some s.next_hls;
    source = set_at s.next_hls (source_of file_id) s.source;
    playing = set_at s.next_hls true s.playing;
    next_hls = suc s.next_hls;
  }

  load : Browser → String → State → State
  unfolding start
  load b file_id s =
      if not b.has_video
      then s
      else (if b.hls_supported
          then start file_id s
          else (if b.plays_natively
              then record s {
                error = some "Video preview isn't supported in this browser yet.";
                loading = false;
              }
              else record s {
                error = some "Your browser doesn't support HLS playback.";
                loading = false;
              }))

  -- the effect
  begin : Browser → Bool → Option String → State → State
  unfolding load
  begin b shown none s = record s { dependency = mounted shown none }
  begin b shown (some file_id) s =
      if shown && truthy file_id
      then load b file_id
          (record s { dependency = mounted shown (some file_id); error = none; loading = true })
      else record s { dependency = mounted shown (some file_id) }

  -- what the effect returns, where it has made an object
  clean_up : Option ℕ → State → State
  clean_up none s = s
  clean_up (some i) s = record s { hls = none; playing = set_at i false s.playing }

  same_bool : Bool → Bool → Bool
  same_bool true b = b
  same_bool false b = not b

  render_with : Dependency → Browser → Bool → Option String → State → State
  unfolding begin clean_up same_bool
  render_with unmounted b shown file_id s = begin b shown file_id s
  render_with (mounted was old) b shown file_id s =
      if same_bool was shown && option_eq old file_id
      then s
      else begin b shown file_id (clean_up s.hls s)

  -- A render: the effect runs at first, and when one of its dependencies has changed.
  unfoldable pub render : Browser → Bool → Option String → State → State
  unfolding render_with
  render b shown file_id s = render_with s.dependency b shown file_id s

  unfoldable pub unmount : State → State
  unfolding clean_up
  unmount s = record (clean_up s.hls s) { dependency = unmounted }

  -- the callbacks of object i
  manifest_parsed : ℕ → State → State
  manifest_parsed i s = if s.playing i then record s { loading = false } else s

  hls_error : ℕ → Bool → State → State
  hls_error i fatal s =
      if s.playing i && fatal then record s { error = some "Could not load video stream." } else s

  unfoldable pub happen : State → Happening → State
  unfolding render unmount manifest_parsed hls_error
  happen s (rendering b shown file_id) = render b shown file_id s
  happen s unmounting = unmount s
  happen s (parsing i) = manifest_parsed i s
  happen s (failing i fatal) = hls_error i fatal s

  unfoldable pub course : State → List Happening → State
  course s [] = s
  course s (h ∷ hs) = course (happen s h) hs

error_view : Option String → View ⊥
error_view none = nothing
error_view (some error) = when (truthy error) (text error)

unfoldable pub view : Bool → String → State → View ⊥
unfolding error_view
view shown file_name s = when shown (
    text file_name
    ⊕ when (s.loading && not (is_truthy s.error)) spinner
    ⊕ error_view s.error
    ⊕ element "video" nothing)
