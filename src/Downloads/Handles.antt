-- ===== src/Downloads/Handles.antt =====
-- What the end of one download of src/services/download.rs does to it and leaves of the others.
use almond.Prelude.{
  ℕ, ◌≡◌, ◌≢◌, ◌∙◌, ap, ◌&&◌, none, if◌then◌else◌, Bytes, get, get-remove, text_eq,
  text_eq_instance, Bool-cases, inl, inr, arith, update, is_current,
}
use almond.Tail.{DownloadProgress, DownloadPhase, running, complete, failed}
use almond.Downloads.{Downloads, remove_handle, with_phase, dropped, drop_download}

get-remove_handle :
    (s : Downloads) (f g : Bytes) (h : ℕ)
    → get (remove_handle s f h).ongoing_downloads g ≡ (
        if text_eq f g && is_current h (get s.ongoing_downloads f)
        then none
        else get s.ongoing_downloads g)
unfolding remove_handle
get-remove_handle s f g h = elim (Bool-cases (is_current h (get s.ongoing_downloads f))) [
  | inl mine ↦ rw mine (ground (arith, get-remove s.ongoing_downloads f g))
  | inr other ↦ rw other (ground arith)
]

progress-remove_handle :
    (s : Downloads) (f : Bytes) (h : ℕ) → (remove_handle s f h).progress ≡ s.progress
unfolding remove_handle
progress-remove_handle s f h = ground arith

dropped-ne-running : (phase : DownloadPhase) → dropped phase ≢ running
dropped-ne-running running h = cc
dropped-ne-running complete h = cc
dropped-ne-running failed h = cc

-- A download whose guard is dropped, on whichever path: it is not running any more, what it wrote
-- still counts, and no other download's progress changes. Its file name is free, unless another
-- download of that name has taken its place, which stays; so do all other file names.
pub drop_download_lem :
    (s : Downloads) (f g : Bytes) (h j : ℕ)
    → let t = drop_download s f h in
      ((t.progress h).phase ≢ running)
      × ((t.progress h).written ≡ (s.progress h).written)
      × (j ≢ h → t.progress j ≡ s.progress j)
      × (get t.ongoing_downloads g ≡ (
          if text_eq f g && is_current h (get s.ongoing_downloads f)
          then none
          else get s.ongoing_downloads g))
unfolding drop_download with_phase
drop_download_lem s f g h j =
    let p : DownloadProgress = record (s.progress h) { phase = dropped (s.progress h).phase } in
    let u : Downloads = record s { progress = update s.progress h p } in
    let at : (x : ℕ) → (drop_download s f h).progress x ≡ update s.progress h p x =
      λ x. ap (λ q. q x) (progress-remove_handle u f h) in
    let mine : (drop_download s f h).progress h ≡ p = at h ∙ ground arith in
    (
      rw mine (dropped-ne-running (s.progress h).phase),
      rw mine,
      λ other. at j ∙ ground arith,
      get-remove_handle u f g h,
    )
