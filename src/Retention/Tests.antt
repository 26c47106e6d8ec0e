-- ===== src/Retention/Tests.antt =====
-- Two uploads and a cached copy.
use almond.Prelude.{ℕ, ◌≡◌, refl, ◌↔◌, true, none, some, List, [], ◌∷◌, codes}
use almond.Retention.{
  FileMetadata, local, BlobOrigin, upload, upstream_cache, Entry, expiration_reason_for,
  sunset_expiration, upload_age, enforce_capacity,
}
use almond.Retention.Deadlines.{IsSome, IsPast, sunset_exact}

abbrev blob : BlobOrigin → ℕ → ℕ → FileMetadata
blob origin size created_at = record {
  location = local (codes "p");
  extension = none;
  mime_type = none;
  size = size;
  created_at = created_at;
  pubkey = none;
  expiration = some 500;
  origin = origin;
}

abbrev entries : List Entry
entries =
    (codes "a", blob upload 5 30)
    ∷ (codes "b", blob upload 7 20)
    ∷ (codes "c", blob upstream_cache 9 40)
    ∷ []

evicts :
    (enforce_capacity (λ e. true) 6 0 entries).0
    ≡ (codes "c", blob upstream_cache 9 40) ∷ (codes "b", blob upload 7 20) ∷ []
unfolding enforce_capacity
evicts = refl

ages : expiration_reason_for (blob upload 5 30) 100 0 130 ≡ some upload_age
unfolding expiration_reason_for
ages = refl

sunset_exact_example :
    IsSome (expiration_reason_for (blob upload 5 30) 100 0 130)
    ↔ IsPast 130 (sunset_expiration (blob upload 5 30) 100)
sunset_exact_example = sunset_exact (blob upload 5 30) 100 0 130 refl
