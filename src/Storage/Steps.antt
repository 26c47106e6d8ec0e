-- ===== src/Storage/Steps.antt =====
-- The steps of a publication in src/services/file_storage.rs: each keeps the bytes and the index.
use almond.Prelude.{
  ◌≡◌, refl, ap, false, some, Bytes, get, remove, get-insert, get-remove, text_eq, text_eq_refl,
  text_eq_instance, arith,
}
use almond.Error.{AppResult, ok, err}
use almond.Storage.{Storage, Faults, Outcome, StoredBlob, remove_local_file}
use almond.Storage.Publish.{drop_temp, or_give_up, put_key, rename, clear_target}

pub or_give_up-eq-ok :
    {A : Type 0} (io : Faults) (temp : Bytes) (r : Outcome A)
    (next : Storage → A → Outcome StoredBlob) {t : Storage} {b : StoredBlob}
    → or_give_up io temp r next ≡ (t, ok b)
    → (s : Storage) × ((a : A) × ((r ≡ (s, ok a)) × (next s a ≡ (t, ok b))))
unfolding drop_temp
or_give_up-eq-ok io temp (s, ok a) next h = (s, (a, (refl, h)))
or_give_up-eq-ok io temp (s, err e) next {b = b} h =
    let bad : err e ≡ ok b = ap (λ (o : Outcome StoredBlob). o.1) h in cc bad

-- A step keeps the index.
abbrev pub SameIndex : Storage → Storage → Type 0
SameIndex s t = t.file_index ≡ s.file_index

pub put_key-keeps :
    (s t : Storage) (io : Faults) (temp bytes key : Bytes) (r : AppResult Bytes)
    → get s.disk temp ≡ some bytes
    → put_key s io temp r ≡ (t, ok key)
    → (get t.objects key ≡ some bytes) × SameIndex s t
unfolding put_key remove_local_file
put_key-keeps s t io temp bytes key (err e) there h = cc (ap (λ (o : Outcome Bytes). o.1) h)
put_key-keeps s t io temp bytes key (ok k) there h =
    ground (arith, get-insert s.objects k k bytes, text_eq_refl k)

pub rename-keeps :
    (s t : Storage) (io : Faults) (temp to bytes : Bytes)
    → get s.disk temp ≡ some bytes
    → rename s io temp to ≡ (t, ok tt)
    → (get t.disk to ≡ some bytes) × SameIndex s t
unfolding rename
rename-keeps s t io temp to bytes there h =
    ground (arith, get-insert (remove s.disk temp) to to bytes, text_eq_refl to)

pub clear_target-keeps :
    (s t : Storage) (io : Faults) (temp path bytes : Bytes)
    → text_eq path temp ≡ false
    → get s.disk temp ≡ some bytes
    → clear_target s io path ≡ (t, ok tt)
    → (get t.disk temp ≡ some bytes) × SameIndex s t
unfolding clear_target remove_local_file
clear_target-keeps s t io temp path bytes apart there h =
    ground (arith, get-remove s.disk path temp)
