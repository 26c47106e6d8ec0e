-- ===== src/ChunkSessions.antt =====
-- src/services/chunk_sessions.rs: the registry of resumable uploads, with the session types of
-- src/models.rs. Each method takes the write lock for its whole body, so it is one function on the
-- state behind the lock. A public key is its 32 bytes read as a number, an instant is a number of
-- ticks, and a reservation ticket is the key that it holds. `HashMap` sizes and counts of keys do
-- not depend on the order of iteration; the list of evicted uploads is in the map's order.
pub mod Capacity
pub mod Chunks
pub mod Trace
pub mod Held
pub mod Tests
use almond.Prelude.{
  ℕ, suc, ◌+◌, ◌-◌, ◌^◌, min, Bool, true, false, not, ◌&&◌, ◌||◌, ◌↔◌, ◌≡◌, Option, none, some,
  List, [], ◌∷◌, ◌++◌, ltb, leb, ◌==◌, ==_iff, text_eq, text_eq_iff, if◌then◌else◌, Bytes, any, Eq,
  HashMap, get, contains_key, insert, remove, retain, count, arith,
}
use almond.Text.{u64_mod}

-- `PublicKey` of nostr-sdk, by its 32 bytes.
abbrev pub PublicKey : Type 0
PublicKey = ℕ

pub record ChunkUploadKey : Type 0 where
  pub pubkey : PublicKey
  pub sha256 : Bytes

abbrev pub key_eq : ChunkUploadKey → ChunkUploadKey → Bool
key_eq a b = a.pubkey == b.pubkey && text_eq a.sha256 b.sha256

pub key_eq_iff : (a b : ChunkUploadKey) → (key_eq a b ≡ true) ↔ (a ≡ b)
key_eq_iff a b = ground (arith, text_eq_iff a.sha256 b.sha256)

instance abbrev pub key_eq_instance : Eq ChunkUploadKey
key_eq_instance = record { same = key_eq; same_iff = key_eq_iff }

pub record ChunkInfo : Type 0 where
  pub offset : ℕ
  pub length : ℕ
  pub chunk_path : Bytes

pub record ChunkUpload : Type 0 where
  pub sha256 : Bytes
  pub owner : PublicKey
  pub upload_type : Bytes
  pub upload_length : ℕ
  pub chunks : List ChunkInfo
  pub created_at : ℕ
  pub expiration : Option ℕ

pub record SessionParams : Type 0 where
  pub sha256 : Bytes
  pub owner : PublicKey
  pub upload_type : Bytes
  pub upload_length : ℕ
  pub expiration : Option ℕ

pub record SessionLimits : Type 0 where
  pub max_sessions : ℕ
  pub max_sessions_per_pubkey : ℕ

pub data Reservation : Type 0 where
  granted : ChunkUploadKey → Reservation
  global_limit per_pubkey_limit : Reservation

pub data Commit : Type 0 where
  incomplete : Commit
  complete : ChunkUpload → Commit
  overlap param_mismatch : Commit

pub record SessionState : Type 0 where
  pub uploads : HashMap ChunkUploadKey ChunkUpload
  pub pending : HashMap ChunkUploadKey ℕ

-- `ChunkSessions::new`
abbrev pub new : SessionState
new = record { uploads = []; pending = [] }

pub is_known : SessionState → ChunkUploadKey → Bool
is_known s key = contains_key s.uploads key || contains_key s.pending key

-- The sessions whose key passes a test: the uploads, and the pending keys that have no upload.
pub sessions : (ChunkUploadKey → Bool) → SessionState → ℕ
sessions q s = count q s.uploads + count (λ k. q k && not (contains_key s.uploads k)) s.pending

-- `pending.entry(key).or_default() += 1`
abbrev pub one_more : Option ℕ → ℕ
one_more none = 1
one_more (some n) = n + 1

unfoldable pub reserve : SessionLimits → SessionState → ChunkUploadKey → SessionState × Reservation
unfolding is_known sessions
reserve limits s key =
    if is_known s key
    then (record s { pending = insert s.pending key (one_more (get s.pending key)) }, granted key)
    else if leb limits.max_sessions (sessions (λ k. true) s)
    then (s, global_limit)
    else if leb limits.max_sessions_per_pubkey (sessions (λ k. k.pubkey == key.pubkey) s)
    then (s, per_pubkey_limit)
    else (record s { pending = insert s.pending key 1 }, granted key)

consume : SessionState → ChunkUploadKey → Option ℕ → SessionState × Bool
consume s key none = (s, false)
consume s key (some n) =
    if n == 1
    then (record s { pending = remove s.pending key }, true)
    else (record s { pending = insert s.pending key (n - 1) }, true)

unfoldable pub consume_reservation : SessionState → ChunkUploadKey → SessionState × Bool
unfolding consume
consume_reservation s key = consume s key (get s.pending key)

pub release : SessionState → ChunkUploadKey → SessionState
unfolding consume_reservation
release s key = (consume_reservation s key).0

-- `saturating_add` of `u64`
abbrev pub saturating_add : ℕ → ℕ → ℕ
saturating_add a b = min (a + b) (u64_mod - 1)

unfoldable pub overlaps : ChunkInfo → ChunkInfo → Bool
overlaps chunk existing =
    ltb chunk.offset (saturating_add existing.offset existing.length)
    && ltb existing.offset (saturating_add chunk.offset chunk.length)

-- `try_fold(0u64, checked_add)`
unfoldable pub checked_total : ℕ → List ChunkInfo → Option ℕ
checked_total total [] = some total
checked_total total (c ∷ cs) =
    let rest = checked_total (total + c.length) cs in
    if ltb (total + c.length) u64_mod then rest else none

new_upload : SessionParams → ℕ → ChunkUpload
new_upload params now = record {
  sha256 = params.sha256;
  owner = params.owner;
  upload_type = params.upload_type;
  upload_length = params.upload_length;
  chunks = [];
  created_at = now;
  expiration = params.expiration;
}

unfoldable pub or_insert : Option ChunkUpload → SessionParams → ℕ → ChunkUpload
unfolding new_upload
or_insert none params now = new_upload params now
or_insert (some u) params now = u

-- The chunk is pushed; a full upload leaves the registry.
push_chunk :
    SessionState → ChunkUploadKey → ChunkUpload → ChunkInfo → Option ℕ → SessionState × Commit
push_chunk s key upload chunk none = (s, param_mismatch)
push_chunk s key upload chunk (some new_total) =
    let pushed = record upload { chunks = upload.chunks ++ chunk ∷ [] } in
    if new_total == upload.upload_length
    then (record s { uploads = remove s.uploads key }, complete pushed)
    else (record s { uploads = insert s.uploads key pushed }, incomplete)

append_chunk :
    SessionState → ChunkUploadKey → ChunkUpload → SessionParams → ChunkInfo → SessionState × Commit
unfolding push_chunk
append_chunk s key upload params chunk =
    if not (text_eq upload.upload_type params.upload_type)
      || not (upload.upload_length == params.upload_length)
    then (s, param_mismatch)
    else if any (overlaps chunk) upload.chunks
    then (s, overlap)
    else push_chunk s key upload chunk (checked_total 0 (upload.chunks ++ chunk ∷ []))

-- With its reservation consumed the session is found or inserted; `now` is `Instant::now()`.
commit_consumed :
    SessionState → ChunkUploadKey → SessionParams → ChunkInfo → ℕ → Bool → SessionState × Commit
unfolding append_chunk
commit_consumed s key params chunk now false = (s, param_mismatch)
commit_consumed s key params chunk now true =
    let upload = or_insert (get s.uploads key) params now in
    append_chunk (record s { uploads = insert s.uploads key upload }) key upload params chunk

unfoldable pub commit :
    SessionState → ChunkUploadKey → SessionParams → ChunkInfo → ℕ → SessionState × Commit
unfolding commit_consumed
commit s key params chunk now =
    let (s', consumed) = consume_reservation s key in
    commit_consumed s' key params chunk now consumed

pub restore : SessionState → ChunkUploadKey → ChunkUpload → SessionState × Bool
unfolding is_known
restore s key upload =
    if is_known s key
    then (s, false)
    else (record s { uploads = insert s.uploads key upload }, true)

-- `pending.contains_key(key) || upload.created_at.elapsed() < age`
pub is_retained : SessionState → ℕ → ℕ → ChunkUploadKey → ChunkUpload → Bool
is_retained s now age key upload = contains_key s.pending key || ltb (now - upload.created_at) age

pub evicted :
    (ChunkUploadKey → ChunkUpload → Bool) → HashMap ChunkUploadKey ChunkUpload → List ChunkUpload
evicted keep [] = []
evicted keep ((k, u) ∷ m) = if keep k u then evicted keep m else u ∷ evicted keep m

pub evict_older_than : SessionState → ℕ → ℕ → SessionState × List ChunkUpload
unfolding is_retained evicted
evict_older_than s now age = (
  record s { uploads = retain (is_retained s now age) s.uploads },
  evicted (is_retained s now age) s.uploads,
)
