-- ===== src/Serving/Misses.antt =====
-- src/handlers/file_serving.rs: the memory of hashes that no upstream server had, over the requests
-- and the cleanups that a server sees.
use mathlib.Core.Logic.{inl, inr}
use almond.Prelude.{
  ℕ, ◌≡◌, ◌⊎◌, refl, true, false, Option, none, some, List, [], ◌∷◌, Bytes, HashMap, insert,
  text_eq_instance, Bool-cases, Option-cases, arith,
}
use almond.Error.{ok, err}
use almond.Payments.{Cdk}
use almond.Retention.{FileMetadata, FileLocation, local, s3}
use almond.Storage.{Storage, Outcome}
use almond.Serving.{Response}
use almond.Serving.Sources.{
  UpstreamPlan, BlobSource, indexed, serve_file, upstream, recently_missing, names_specific_servers,
  get_sha256_hash_from_filename, cleanup_expired_failed_lookups,
}
use almond.Serving.Planned.{IsPlan, resolve_blob-IsPlan}
use almond.Serving.Requests.{
  Request, Server, Settings, fetch_from_upstream, serve_indexed, serve_source, handle_file_request,
}

pub data Event : Type 0 where
  requested : Request → Event
  cleaned : ℕ → Event

module _ {Token Wallet : Type 0} (cdk : Cdk Token Wallet) (settings : Settings) where
  unfoldable pub on_event : Server Wallet → Event → Server Wallet
  on_event server (requested r) = (handle_file_request cdk settings server r).0
  on_event server (cleaned now) = record server {
    failed_upstream_lookups = cleanup_expired_failed_lookups server.failed_upstream_lookups now;
  }

  -- The latest event comes first.
  unfoldable pub after_events : Server Wallet → List Event → Server Wallet
  after_events server [] = server
  after_events server (e ∷ es) = on_event (after_events server es) e

-- A request for the hash whose plan named no servers, and which the upstream servers failed.
pub record IsMiss (settings : Settings) (hash : Bytes) (at : ℕ) (r : Request) : Type 0 where
  pub asked : get_sha256_hash_from_filename r.filename ≡ some hash
  pub plan : UpstreamPlan
  pub planned_so : IsPlan settings r.query plan
  pub no_origin : plan.custom_origin ≡ none
  pub no_servers : plan.xs_servers ≡ none
  pub failed : r.upstream_answer plan ≡ none
  pub answered : r.answered_at ≡ at

-- A plan that names no servers has neither an origin nor a list of servers.
pub names_specific_servers_sound :
    (plan : UpstreamPlan)
    → names_specific_servers plan ≡ false
    → (plan.custom_origin ≡ none) × (plan.xs_servers ≡ none)
unfolding names_specific_servers
names_specific_servers_sound plan h = elim (Option-cases plan.custom_origin) [
  | inl no_origin ↦ elim (Option-cases plan.xs_servers) [
    | inl no_servers ↦ (no_origin, no_servers)
    | inr (servers, named) ↦ let k : true ≡ false = rw (no_origin, named) at h in absurd (cc k)
  ]
  | inr (origin, named) ↦ let k : true ≡ false = rw named at h in absurd (cc k)
]

abbrev pub IsMissEvent : Settings → Bytes → ℕ → Event → Type 0
IsMissEvent settings hash at (requested r) = IsMiss settings hash at r
IsMissEvent settings hash at (cleaned now) = ⊥

pub data HasMiss (settings : Settings) (hash : Bytes) (at : ℕ) : List Event → Type 0 where
  here :
      {e : Event} {es : List Event}
      → IsMissEvent settings hash at e
      → HasMiss settings hash at (e ∷ es)
  there :
      {e : Event} {es : List Event}
      → HasMiss settings hash at es
      → HasMiss settings hash at (e ∷ es)

abbrev pub Memory : Type 0
Memory = HashMap Bytes ℕ

-- What a request does to the memory.
abbrev pub Remembers : Settings → Request → Memory → Memory → Type 0
Remembers settings r before after =
    (after ≡ before)
    ⊎ ((hash : Bytes) × IsMiss settings hash r.answered_at r
        × (after ≡ insert before hash r.answered_at))

module _ {Token Wallet : Type 0} (cdk : Cdk Token Wallet) (settings : Settings) where
  serve_indexed-keeps :
      (server : Server Wallet) (s : Storage) (r : Request) (hash : Bytes) (m : FileMetadata)
      (l : FileLocation)
      → (serve_indexed cdk settings server s r hash m l).0.failed_upstream_lookups
        ≡ server.failed_upstream_lookups
  unfolding serve_indexed
  serve_indexed-keeps server s r hash m (local path) = refl
  serve_indexed-keeps server s r hash m (s3 key) = ground arith

  fetch-Remembers :
      (r : Request) (hash : Bytes) (failed : Memory) (plan : UpstreamPlan)
      (answer : Option Response)
      → get_sha256_hash_from_filename r.filename ≡ some hash
      → IsPlan settings r.query plan
      → r.upstream_answer plan ≡ answer
      → Remembers settings r failed (fetch_from_upstream failed hash r.answered_at plan answer).0
  unfolding fetch_from_upstream
  fetch-Remembers r hash failed plan (some response) asked planned_so answered = inl refl
  fetch-Remembers r hash failed plan none asked planned_so answered =
      elim (Bool-cases (names_specific_servers plan)) [
        | inl scoped ↦ inl (rw scoped refl)
        | inr unscoped ↦ inr (
          hash,
          record {
            asked = asked;
            plan = plan;
            planned_so = planned_so;
            no_origin = (names_specific_servers_sound plan unscoped).0;
            no_servers = (names_specific_servers_sound plan unscoped).1;
            failed = answered;
            answered = refl;
          },
          rw unscoped refl,
        )
      ]

  serve_source-Remembers :
      (server : Server Wallet) (r : Request) (hash : Bytes) (o : Outcome BlobSource)
      → get_sha256_hash_from_filename r.filename ≡ some hash
      → ((plan : UpstreamPlan) → o.1 ≡ ok (upstream plan) → IsPlan settings r.query plan)
      → Remembers settings r server.failed_upstream_lookups
          (serve_source cdk settings server r hash o).0.failed_upstream_lookups
  unfolding serve_source
  serve_source-Remembers server r hash (s, err e) asked planned_so = inl refl
  serve_source-Remembers server r hash (s, ok (indexed m)) asked planned_so =
      inl (serve_indexed-keeps server s r hash m m.location)
  serve_source-Remembers server r hash (s, ok (serve_file m)) asked planned_so = inl refl
  serve_source-Remembers server r hash (s, ok recently_missing) asked planned_so = inl refl
  serve_source-Remembers server r hash (s, ok (upstream plan)) asked planned_so =
      fetch-Remembers r hash server.failed_upstream_lookups plan (r.upstream_answer plan) asked
        (planned_so plan refl) refl

  pub handle-Remembers :
      (server : Server Wallet) (r : Request)
      → Remembers settings r server.failed_upstream_lookups
          (handle_file_request cdk settings server r).0.failed_upstream_lookups
  unfolding handle_file_request
  handle-Remembers server r = elim (Option-cases (get_sha256_hash_from_filename r.filename)) [
    | inl nameless ↦ rw nameless (inl refl)
    | inr (hash, named) ↦ rw named (
        serve_source-Remembers server r hash _ named (λ plan.
          resolve_blob-IsPlan settings server.failed_upstream_lookups r.now hash r.query plan
            r.storage_faults server.storage))
  ]
