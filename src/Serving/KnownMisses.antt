-- ===== src/Serving/KnownMisses.antt =====
-- `resolve_blob` of src/handlers/file_serving.rs: when it answers that a blob was missing recently.
use mathlib.Core.Logic.{inl, inr}
use almond.Prelude.{
  ℕ, ◌-◌, ◌<◌, ltb→lt, ◌≡◌, ◌≢◌, Option, none, some, ltb, Bytes, get, text_eq_instance, Bool-cases,
  Option-cases,
}
use almond.Error.{AppResult, ok, err, >>=-eq-ok}
use almond.Retention.{FileMetadata}
use almond.Storage.{Storage, Faults, Outcome, and_do}
use almond.Storage.Publish.{publish_existing_metadata}
use almond.Serving.Sources.{
  UpstreamPlan, indexed, upstream, recently_missing, names_specific_servers, resolve_blob,
  beyond_index, beyond_storage, upstream_plan, FileRequestQuery, ServeFileMetadata, planned,
  from_index, upstream_recently_missed, upstream_miss_ttl, find_native,
}
use almond.Serving.Requests.{Settings}
use almond.Serving.Misses.{Memory, names_specific_servers_sound}

-- What makes a lookup answer that the blob was missing recently.
pub record IsKnownMiss (settings : Settings) (failed : Memory) (now : ℕ) (hash : Bytes)
    (q : FileRequestQuery) : Type 0 where
  pub plan : UpstreamPlan
  pub planned_so :
      upstream_plan settings.config.lookups settings.config.app
        settings.config.feature_custom_upstream_origin_enabled q
      ≡ ok plan
  pub no_origin : plan.custom_origin ≡ none
  pub no_servers : plan.xs_servers ≡ none
  pub missed_at : ℕ
  pub remembered : get failed hash ≡ some missed_at
  pub recent : now - missed_at < upstream_miss_ttl

module _ (settings : Settings) (failed : Memory) (now : ℕ) (hash : Bytes)
    (q : FileRequestQuery) where
  planned-IsKnownMiss :
      (plan : UpstreamPlan)
      → upstream_plan settings.config.lookups settings.config.app
          settings.config.feature_custom_upstream_origin_enabled q
        ≡ ok plan
      → planned failed now hash plan ≡ recently_missing
      → IsKnownMiss settings failed now hash q
  unfolding upstream_recently_missed
  planned-IsKnownMiss plan planned_so h = elim (Bool-cases (names_specific_servers plan)) [
    | inl scoped ↦ let k : upstream plan ≡ recently_missing = rw scoped at h in cc k
    | inr unscoped ↦ elim (Option-cases (get failed hash)) [
      | inl never ↦ let k : upstream plan ≡ recently_missing = rw (unscoped, never) at h in cc k
      | inr (at, found) ↦ elim (Bool-cases (ltb (now - at) upstream_miss_ttl)) [
        | inl recent ↦ record {
          plan = plan;
          planned_so = planned_so;
          no_origin = (names_specific_servers_sound plan unscoped).0;
          no_servers = (names_specific_servers_sound plan unscoped).1;
          missed_at = at;
          remembered = found;
          recent = ltb→lt (now - at) upstream_miss_ttl recent;
        }
        | inr old ↦
            let k : upstream plan ≡ recently_missing = rw (unscoped, found, old) at h in cc k
      ]
    ]
  ]

  beyond_storage-IsKnownMiss :
      (o : Option ServeFileMetadata)
      → beyond_storage settings.config failed now hash q o ≡ ok recently_missing
      → IsKnownMiss settings failed now hash q
  unfolding beyond_storage
  beyond_storage-IsKnownMiss (some file) h = cc
  beyond_storage-IsKnownMiss none h =
      let (plan, planned_so, k) =
        >>=-eq-ok
          (upstream_plan settings.config.lookups settings.config.app
            settings.config.feature_custom_upstream_origin_enabled q)
          _ h in
      planned-IsKnownMiss plan planned_so (cc k)

  published-indexed :
      (o : Outcome FileMetadata)
      → (and_do o (λ s' published. (s', ok (indexed published)))).1 ≢ ok recently_missing
  published-indexed (s, ok m) h = cc
  published-indexed (s, err e) h = cc

  beyond_index-IsKnownMiss :
      (io : Faults) (s : Storage) (found : AppResult (Option FileMetadata))
      → (beyond_index settings.config io s failed now hash q found).1 ≡ ok recently_missing
      → IsKnownMiss settings failed now hash q
  unfolding beyond_index
  beyond_index-IsKnownMiss io s (err e) h = cc
  beyond_index-IsKnownMiss io s (ok (some m)) h =
      absurd (published-indexed (publish_existing_metadata s io hash m) h)
  beyond_index-IsKnownMiss io s (ok none) h =
      beyond_storage-IsKnownMiss (get settings.config.serve_file_index hash) h

  from_index-IsKnownMiss :
      (io : Faults) (s : Storage) (o : Option FileMetadata)
      → (from_index o s (
          beyond_index settings.config io s failed now hash q
            (find_native settings.config.lookups io s hash))).1
        ≡ ok recently_missing
      → IsKnownMiss settings failed now hash q
  from_index-IsKnownMiss io s none h = beyond_index-IsKnownMiss io s _ h
  from_index-IsKnownMiss io s (some m) h = cc

  pub resolve-IsKnownMiss :
      (io : Faults) (s : Storage)
      → (resolve_blob settings.config io s failed now hash q).1 ≡ ok recently_missing
      → IsKnownMiss settings failed now hash q
  unfolding resolve_blob
  resolve-IsKnownMiss io s h = from_index-IsKnownMiss io s (get s.file_index.map hash) h
