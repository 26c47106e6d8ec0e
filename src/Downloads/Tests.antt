-- ===== src/Downloads/Tests.antt =====
-- Two downloads of one file name, of which the first is dropped.
use almond.Prelude.{
  ◌≡◌, refl, some, false, codes, Bytes, get, insert, text_eq, text_eq_instance, [], remove,
  contains_key,
}
use almond.Tail.{complete, failed}
use almond.Downloads.{
  Downloads, prepare_download_state, finish_download, drop_download, is_download_in_progress,
  mark_failed_lookup, is_recently_failed,
}

abbrev name : Bytes
name = codes "f"

abbrev empty : Downloads
empty = record {
  ongoing_downloads = [];
  progress = λ h. record { written = 0; phase = complete };
  next_handle = 0;
  failed_upstream_lookups = [];
}

both : Downloads
both = (prepare_download_state (prepare_download_state empty name).0 name).0

second_stays : get (drop_download both name 0).ongoing_downloads name ≡ some 1
unfolding both prepare_download_state drop_download get insert text_eq
second_stays = refl

first_failed : ((drop_download both name 0).progress 0).phase ≡ failed
unfolding both prepare_download_state drop_download get insert text_eq
first_failed = refl

ended : is_download_in_progress (finish_download both name 1 complete) name ≡ false
unfolding both prepare_download_state finish_download is_download_in_progress contains_key get
    insert text_eq remove
ended = refl

forgets : is_recently_failed (mark_failed_lookup empty name 100) name 3700 ≡ false
unfolding is_recently_failed mark_failed_lookup get insert text_eq
forgets = refl
