-- ===== src/Serving/Tests.antt =====
-- A blob of five bytes on disk, and a hash that no server has.
use almond.Text.{split_once}
use almond.Storage.Remove.{file_name_from}
use almond.Prelude.{
  ℕ, ◌-◌, ◌<◌, ◌≡◌, refl, true, false, Option, none, some, [], ◌∷◌, ◌++◌, codes, text_eq,
  if◌then◌else◌, Bytes, get, text_eq_instance, insert,
}
use almond.Error.{ok, err, not_found, AppResult}
use almond.Auth.{split, AppState, off, public, to_lower}
use almond.Text.{
  trim, trim_start, trim_end, keep_end, is_whitespace, strip_prefix, contains, split_once,
  parse_u64, parse_digits, is_digit, is_hexdigit,
}
use almond.RangeHeader.{parse_range_header}
use almond.Payments.{charge, is_paid, HeaderMap, Pricing, Cdk}
use almond.Storage.{Storage, Faults}
use almond.Serving.{
  Http, get_method, Response, FileFaults, etag_list_matches, blob_etag, get_mime_type,
  serve_file_with_range, file_response, range_not_satisfiable, build, requested_range,
  honored_range, is_not_modified, trim_weak,
}
use almond.Serving.Blobs.{Bucket, local_file, serve_bytes, respond, sunset_header, serve_blob}
use almond.Serving.Served.{Serves, serve_blob-Serves}
use almond.Serving.Remembered.{recently_missing-HasMiss}
use almond.Serving.Sources.{
  FileRequestQuery, UpstreamPlan, recently_missing, names_specific_servers, upstream_plan,
  resolve_blob, get_sha256_hash_from_filename, beyond_index, beyond_storage, find_native,
  is_enabled, author, request_servers, upstream_recently_missed,
}
use almond.Serving.Requests.{
  Request, Server, Settings, handle_file_request, name_error, serve_source, fetch_from_upstream,
}
use almond.Serving.Misses.{requested, after_events, on_event, HasMiss}

abbrev hash : Bytes
hash = codes "0123456789abcdef0123456789abcdef0123456789abcdef0123456789abcdef"

abbrev http : Http
http = record {
  is_header_value = λ text. true;
  mime_of_path = λ path. none;
  http_date = λ at. some (codes "then");
  expires = codes "later";
}

abbrev cdk : Cdk Bytes ℕ
cdk = record {
  from_str = λ t. some t;
  to_text = λ t. t;
  mint_url = λ t. none;
  value = λ t. none;
  receive = λ w t. (none, w);
}

abbrev free : Pricing
free = record {
  feature_paid_upload = false;
  feature_paid_mirror = false;
  feature_paid_download = false;
  cashu_price_per_mb = 0;
  cashu_accepted_mints = [];
}

abbrev fine : FileFaults
fine = record { open_error = none; metadata_error = none; seek_error = false }

abbrev store : Bucket
store = record {
  disk = (codes "/b/hello.txt", codes "hello") ∷ [];
  faults = fine;
  get_object = λ key range. err not_found;
}

abbrev asking : Bytes → Bytes → HeaderMap
asking name value = record { header = λ n. if text_eq n name then some (some value) else none }

abbrev status_of : AppResult Response × Option ℕ → ℕ × Bytes
status_of (ok r, w) = (r.status, r.body)
status_of (err e, w) = (0, [])

abbrev get_hello : HeaderMap → AppResult Response × Option ℕ
get_hello headers =
    serve_blob cdk free (some 5) http store headers get_method hash 5 none none
      (local_file (codes "/b/hello.txt"))

partial : status_of (get_hello (asking (codes "range") (codes "bytes=1-2"))) ≡ (206, codes "el")
unfolding serve_blob respond serve_bytes serve_file_with_range file_response range_not_satisfiable
    build requested_range honored_range parse_range_header trim trim_start trim_end keep_end
    is_whitespace strip_prefix contains split_once parse_u64 parse_digits is_digit charge is_paid
    sunset_header is_not_modified blob_etag get text_eq
partial = refl

suffix : status_of (get_hello (asking (codes "range") (codes "bytes=-3"))) ≡ (206, codes "llo")
unfolding serve_blob respond serve_bytes serve_file_with_range file_response range_not_satisfiable
    build requested_range honored_range parse_range_header trim trim_start trim_end keep_end
    is_whitespace strip_prefix contains split_once parse_u64 parse_digits is_digit charge is_paid
    sunset_header is_not_modified blob_etag get text_eq
suffix = refl

too_far : status_of (get_hello (asking (codes "range") (codes "bytes=5-"))) ≡ (416, [])
unfolding serve_blob respond serve_bytes serve_file_with_range file_response range_not_satisfiable
    build requested_range honored_range parse_range_header trim trim_start trim_end keep_end
    is_whitespace strip_prefix contains split_once parse_u64 parse_digits is_digit charge is_paid
    sunset_header is_not_modified blob_etag get text_eq
too_far = refl

whole : status_of (get_hello (asking (codes "range") (codes "lines=1-2"))) ≡ (200, codes "hello")
unfolding serve_blob respond serve_bytes serve_file_with_range file_response range_not_satisfiable
    build requested_range honored_range parse_range_header trim trim_start trim_end keep_end
    is_whitespace strip_prefix contains split_once parse_u64 parse_digits is_digit charge is_paid
    sunset_header is_not_modified blob_etag get text_eq
whole = refl

weak_tag :
    etag_list_matches (codes "x, W/" ++ blob_etag (codes "ab")) (blob_etag (codes "ab")) ≡ true
unfolding etag_list_matches blob_etag split trim trim_start trim_end keep_end is_whitespace
    trim_weak text_eq
weak_tag = refl

segment : get_mime_type http (codes "/b/part.1.TS") ≡ codes "video/mp2t"
unfolding get_mime_type file_name_from text_eq to_lower
segment = refl

there : get store.disk (codes "/b/hello.txt") ≡ some (codes "hello")
unfolding get text_eq
there = refl

serve_blob-Serves_example :
    Serves cdk free
      (some 5)
      (asking (codes "range") (codes "bytes=1-2"))
      get_method
      (blob_etag hash)
      (codes "hello")
      (get_hello (asking (codes "range") (codes "bytes=1-2")))
serve_blob-Serves_example =
    serve_blob-Serves cdk free (some 5) http store (asking (codes "range") (codes "bytes=1-2"))
      get_method hash (codes "hello") none none (local_file (codes "/b/hello.txt"))
      (there, record { opens = refl; stats = refl; seeks = refl })

abbrev app : AppState
app = record {
  allowed_pubkeys = [];
  trusted_pubkeys = [];
  dvm_pubkeys = [];
  feature_upload_enabled = off;
  feature_mirror_enabled = off;
  auth_max_ttl_secs = 0;
  auth_require_server_tag = false;
  public_url = [];
  destructive_event_replays = [];
}

abbrev settings : Settings
settings = record {
  config = record {
    lookups = record {
      from_bech32 = λ t. none;
      from_hex = λ t. none;
      last_modified = λ key. 0;
      mime_of_extension = λ ext. none;
    };
    app = app;
    feature_custom_upstream_origin_enabled = public;
    serve_file_index = [];
  };
  pricing = free;
  http = http;
  get_object = λ key range. err not_found;
  max_file_age_secs = 0;
}

abbrev empty_storage : Storage
empty_storage = record {
  disk = [];
  root = codes "/s";
  quarantine = none;
  has_s3 = false;
  s3_available = false;
  objects = [];
  file_index = record { map = []; total_bytes = 0; order = []; generation = 0 };
  superseded_blob_deletions = [];
  changes_pending = false;
}

abbrev server : Server ℕ
server = record { storage = empty_storage; wallet = none; failed_upstream_lookups = [] }

abbrev no_faults : Faults
no_faults = record {
  read_dir = false;
  mkdir = false;
  exists = false;
  rename = false;
  remove_file = λ path. false;
  s3_put = false;
  s3_list = false;
  s3_delete = λ key. false;
}

abbrev plain : FileRequestQuery
plain = record { servers = []; origin = none; xs = []; author_pubkey = none }

abbrev scoped : FileRequestQuery
scoped = record plain { xs = codes "https://a" ∷ [] }

abbrev request : FileRequestQuery → ℕ → Request
request q at = record {
  filename = hash ++ codes ".png";
  query = q;
  headers = asking [] [];
  method = get_method;
  now = at;
  answered_at = at;
  upstream_answer = λ plan. none;
  storage_faults = no_faults;
  file_faults = fine;
}

learns :
    (after_events cdk settings server (requested (request plain 7) ∷ [])).failed_upstream_lookups
    ≡ (hash, 7) ∷ []
unfolding after_events on_event handle_file_request get_sha256_hash_from_filename split_once
    is_hexdigit is_digit serve_source fetch_from_upstream names_specific_servers resolve_blob
    beyond_index beyond_storage find_native upstream_plan is_enabled author request_servers
    upstream_recently_missed get insert text_eq
learns = refl

learns_nothing :
    (after_events cdk settings server (requested (request scoped 7) ∷ [])).failed_upstream_lookups
    ≡ []
unfolding after_events on_event handle_file_request get_sha256_hash_from_filename split_once
    is_hexdigit is_digit serve_source fetch_from_upstream names_specific_servers resolve_blob
    beyond_index beyond_storage find_native upstream_plan is_enabled author request_servers
    upstream_recently_missed get insert text_eq
learns_nothing = refl

no_hash :
    (handle_file_request cdk settings server
      (record (request plain 7) { filename = codes "a.png" })).1
    ≡ err not_found
unfolding handle_file_request get_sha256_hash_from_filename split_once name_error
no_hash = refl

is_missing :
    (resolve_blob settings.config no_faults empty_storage
      (after_events cdk settings server (requested (request plain 7) ∷ [])).failed_upstream_lookups
      9
      hash
      plain).1
    ≡ ok recently_missing
unfolding after_events on_event handle_file_request get_sha256_hash_from_filename split_once
    is_hexdigit is_digit serve_source fetch_from_upstream names_specific_servers resolve_blob
    beyond_index beyond_storage find_native upstream_plan is_enabled author request_servers
    upstream_recently_missed get insert text_eq
is_missing = refl

recently_missing-HasMiss_example :
    (plan : UpstreamPlan) × (upstream_plan settings.config.lookups app public plain ≡ ok plan)
    × (plan.custom_origin ≡ none)
    × (plan.xs_servers ≡ none)
    × (at : ℕ) × HasMiss settings hash at (requested (request plain 7) ∷ [])
    × (9 - at < 3600)
recently_missing-HasMiss_example =
    recently_missing-HasMiss cdk settings server (requested (request plain 7) ∷ []) no_faults
      empty_storage 9 hash plain refl is_missing
