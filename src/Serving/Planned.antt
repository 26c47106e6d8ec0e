-- ===== src/Serving/Planned.antt =====
-- `resolve_blob` of src/handlers/file_serving.rs: the plan with which it goes upstream.
use mathlib.Core.Logic.{inl, inr}
use almond.Prelude.{
  ℕ, ◌≡◌, ◌≢◌, ap, ◌∙◌, ◌&&◌, not, Option, none, some, Bytes, get, HashMap, text_eq_instance,
  Bool-cases,
}
use almond.Error.{AppResult, ok, err, >>=-eq-ok}
use almond.Retention.{FileMetadata}
use almond.Storage.{Storage, Faults, Outcome, and_do}
use almond.Storage.Publish.{publish_existing_metadata}
use almond.Serving.Sources.{
  UpstreamPlan, indexed, upstream, recently_missing, names_specific_servers, resolve_blob,
  beyond_index, beyond_storage, upstream_plan, FileRequestQuery, ServeFileMetadata, planned,
  from_index, upstream_recently_missed, find_native,
}
use almond.Serving.Requests.{Settings}

-- The plan is the one that the query makes.
abbrev pub IsPlan : Settings → FileRequestQuery → UpstreamPlan → Type 0
IsPlan settings q plan =
    upstream_plan settings.config.lookups settings.config.app
      settings.config.feature_custom_upstream_origin_enabled q
    ≡ ok plan

module _ (settings : Settings) (failed : HashMap Bytes ℕ) (now : ℕ) (hash : Bytes)
    (q : FileRequestQuery) (plan : UpstreamPlan) where
  planned-IsPlan :
      (made : UpstreamPlan)
      → IsPlan settings q made
      → planned failed now hash made ≡ upstream plan
      → IsPlan settings q plan
  planned-IsPlan made planned_so h =
      elim (Bool-cases
        (not (names_specific_servers made) && upstream_recently_missed failed now hash)) [
          | inl missed ↦ let k : recently_missing ≡ upstream plan = rw missed at h in absurd (cc k)
          | inr asks ↦
              let k : upstream made ≡ upstream plan = rw asks at h in
              let same : made ≡ plan = cc k in planned_so ∙ ap (λ p. ok p) same
        ]

  beyond_storage-IsPlan :
      (o : Option ServeFileMetadata)
      → beyond_storage settings.config failed now hash q o ≡ ok (upstream plan)
      → IsPlan settings q plan
  unfolding beyond_storage
  beyond_storage-IsPlan (some file) h = cc
  beyond_storage-IsPlan none h =
      let (made, planned_so, k) =
        >>=-eq-ok
          (upstream_plan settings.config.lookups settings.config.app
            settings.config.feature_custom_upstream_origin_enabled q)
          _ h in
      planned-IsPlan made planned_so (cc k)

  published-upstream :
      (o : Outcome FileMetadata)
      → (and_do o (λ s' published. (s', ok (indexed published)))).1 ≢ ok (upstream plan)
  published-upstream (s, ok m) h = cc
  published-upstream (s, err e) h = cc

  beyond_index-IsPlan :
      (io : Faults) (s : Storage) (found : AppResult (Option FileMetadata))
      → (beyond_index settings.config io s failed now hash q found).1 ≡ ok (upstream plan)
      → IsPlan settings q plan
  unfolding beyond_index
  beyond_index-IsPlan io s (err e) h = cc
  beyond_index-IsPlan io s (ok (some m)) h =
      absurd (published-upstream (publish_existing_metadata s io hash m) h)
  beyond_index-IsPlan io s (ok none) h =
      beyond_storage-IsPlan (get settings.config.serve_file_index hash) h

  from_index-IsPlan :
      (io : Faults) (s : Storage) (o : Option FileMetadata)
      → (from_index o s (
          beyond_index settings.config io s failed now hash q
            (find_native settings.config.lookups io s hash))).1
        ≡ ok (upstream plan)
      → IsPlan settings q plan
  from_index-IsPlan io s none h = beyond_index-IsPlan io s _ h
  from_index-IsPlan io s (some m) h = cc

  -- A lookup that goes upstream does so with the plan of its own query.
  pub resolve_blob-IsPlan :
      (io : Faults) (s : Storage)
      → (resolve_blob settings.config io s failed now hash q).1 ≡ ok (upstream plan)
      → IsPlan settings q plan
  unfolding resolve_blob
  resolve_blob-IsPlan io s h = from_index-IsPlan io s (get s.file_index.map hash) h
