-- ===== src/Downloads.antt =====
-- src/services/download.rs: the downloads under way, their guards, and the recent failures. A handle
-- is the number under which it was created, so `ptr_eq` is equality; its progress is in a store by
-- that number. The file operations of a preparation are not modelled.
pub mod Handles
pub mod Tests
use almond.Prelude.{
  ℕ, ◌+◌, ◌-◌, Bool, true, false, Option, none, some, ltb, ◌==◌, if◌then◌else◌, Bytes, HashMap, get,
  contains_key, insert, remove, text_eq_instance, update, is_current,
}
use almond.Tail.{DownloadPhase, DownloadProgress, running, complete, failed}

-- The downloads under way, the progress of their handles, and the recent failures.
pub record Downloads : Type 0 where
  pub ongoing_downloads : HashMap Bytes ℕ
  pub progress : ℕ → DownloadProgress
  pub next_handle : ℕ
  pub failed_upstream_lookups : HashMap Bytes ℕ

-- `prepare_download_state`, where its file operations succeed: the handle and its guard.
pub prepare_download_state : Downloads → Bytes → Downloads × ℕ
prepare_download_state s filename = (
  record s {
    ongoing_downloads = insert s.ongoing_downloads filename s.next_handle;
    progress = update s.progress s.next_handle (record { written = 0; phase = running });
    next_handle = s.next_handle + 1;
  },
  s.next_handle,
)

pub remove_handle : Downloads → Bytes → ℕ → Downloads
remove_handle s filename handle =
    if is_current handle (get s.ongoing_downloads filename)
    then record s { ongoing_downloads = remove s.ongoing_downloads filename }
    else s

pub with_phase : DownloadPhase → DownloadProgress → DownloadProgress
with_phase phase p = record p { phase = phase }

-- `DownloadGuard::finish`
pub finish_download : Downloads → Bytes → ℕ → DownloadPhase → Downloads
unfolding remove_handle with_phase
finish_download s filename handle phase =
    remove_handle
      (record s { progress = update s.progress handle (with_phase phase (s.progress handle)) })
      filename handle

-- A download that is dropped while it runs has failed.
abbrev pub dropped : DownloadPhase → DownloadPhase
dropped running = failed
dropped complete = complete
dropped failed = failed

-- `DownloadGuard::drop` of an armed guard, with the task that it spawns.
pub drop_download : Downloads → Bytes → ℕ → Downloads
unfolding remove_handle with_phase
drop_download s filename handle =
    let p = s.progress handle in
    remove_handle
      (record s { progress = update s.progress handle (with_phase (dropped p.phase) p) }) filename
      handle

unfoldable pub remove_from_ongoing_downloads : Downloads → Bytes → Downloads
remove_from_ongoing_downloads s filename = record s {
  ongoing_downloads = remove s.ongoing_downloads filename;
}

pub is_download_in_progress : Downloads → Bytes → Bool
is_download_in_progress s filename = contains_key s.ongoing_downloads filename

-- Times are seconds of a clock that does not go back.
pub mark_failed_lookup : Downloads → Bytes → ℕ → Downloads
mark_failed_lookup s filename now = record s {
  failed_upstream_lookups = insert s.failed_upstream_lookups filename now;
}

abbrev pub within_hour : ℕ → Option ℕ → Bool
within_hour now none = false
within_hour now (some failed_time) = ltb (now - failed_time) 3600

pub is_recently_failed : Downloads → Bytes → ℕ → Bool
is_recently_failed s filename now = within_hour now (get s.failed_upstream_lookups filename)
