-- ===== src/Storage/Roots.antt =====
-- The roots of uploads and of the cache in src/services/file_storage.rs share no path.
use mathlib.Core.List.{append_assoc}
use almond.Prelude.{
  ℕ, ◌≡◌, ◌≢◌, sym, ap, ◌∙◌, Option, none, some, [], ◌∷◌, ◌++◌, codes, Bytes, get, text_eq_instance,
  arith,
}
use almond.Error.{ok, >>=-eq-ok}
use almond.BlobName.{object_key}
use almond.Retention.{FileMetadata, FileLocation, local, upload, upstream_cache, BlobOrigin}
use almond.Storage.{Storage, completed_path, root_of}
use almond.Storage.Stored.{LiesElsewhere}

append-cancel : (root a b : Bytes) → root ++ a ≡ root ++ b → a ≡ b
append-cancel [] a b h = h
append-cancel (c ∷ root) a b h =
    let rest : root ++ a ≡ root ++ b = cc h in append-cancel root a b rest

abbrev first_byte : Bytes → ℕ
first_byte [] = 0
first_byte (c ∷ s) = c

-- The two roots share no path.
pub roots_apart : (root x y : Bytes) → root_of root upstream_cache ++ x ≢ root_of root upload ++ y
roots_apart root x y h =
    let whole : root ++ (codes "/upstream-cache" ++ x) ≡ root ++ (codes "/uploads" ++ y) =
      sym (append_assoc root (codes "/upstream-cache") x)
      ∙ h
      ∙ append_assoc root (codes "/uploads") y in
    let rest = append-cancel root _ _ whole in
    let fourth : ◌≡◌ {A = ℕ} b's' b'l' =
      ap first_byte
        (append-cancel (codes "/up") (codes "stream-cache" ++ x) (codes "loads" ++ y) rest) in
    omega (arith, fourth)

pub completed_path-root :
    (root : Bytes) (origin : BlobOrigin) (hash : Bytes) (extension : Option Bytes)
    (expiration : Option ℕ) (path : Bytes)
    → completed_path root origin hash extension expiration ≡ ok path
    → (x : Bytes) × (root_of root origin ++ x ≡ path)
unfolding completed_path
completed_path-root root origin hash extension expiration path h =
    let (key, named, k) = >>=-eq-ok (object_key hash extension expiration) _ h in (b'/' ∷ key, cc k)

-- A cached copy lies where the cache puts its files.
abbrev pub IsCachedInPlace : Storage → Bytes → Type 0
IsCachedInPlace s sha256 =
    (old : FileMetadata)
    → get s.file_index.map sha256 ≡ some old
    → old.origin ≡ upstream_cache
    → (extension : Option Bytes) × (expiration : Option ℕ) × (path : Bytes) × (completed_path s.root
          upstream_cache sha256 extension expiration
        ≡ ok path)
      × (old.location ≡ local path)

-- Nothing is indexed that an upload would not displace.
abbrev pub IsReplaceable : Option FileMetadata → Type 0
IsReplaceable none = Unit
IsReplaceable (some old) = old.origin ≡ upstream_cache

pub cached-LiesElsewhere :
    (s : Storage) (sha256 : Bytes) (here : FileLocation) (o : Option FileMetadata)
    → IsCachedInPlace s sha256
    → get s.file_index.map sha256 ≡ o
    → IsReplaceable o
    → ((path x : Bytes) → here ≡ local path → root_of s.root upstream_cache ++ x ≢ path)
    → LiesElsewhere o here
cached-LiesElsewhere s sha256 here none cached found replaceable apart = tt
cached-LiesElsewhere s sha256 here (some old) cached found replaceable apart = λ same.
    let (extension, expiration, path, named, placed) = cached old found replaceable in
    let (x, below) =
      completed_path-root s.root upstream_cache sha256 extension expiration path named in
    apart path x (sym same ∙ placed) below
