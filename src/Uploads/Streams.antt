-- ===== src/Uploads/Streams.antt =====
-- `stream_to_temp_file` of src/services/upload.rs: what is in the temporary file.
use mathlib.Core.Logic.{inl, inr}
use mathlib.Core.List.{append_assoc, append-nil}
use almond.Prelude.{
  ℕ, ◌+◌, ◌≤◌, ◌≡◌, sym, ap, ◌∙◌, List, [], ◌∷◌, ◌++◌, ltb, Bytes, insert, text_eq_instance, length,
  length-append, arith, Bool-cases,
}
use almond.Error.{ok, err, payload_too_large, io_error, >>=-eq-ok}
use almond.Storage.{Storage}
use almond.Uploads.{
  BodyChunk, received, unwritable, broken, Request, write_body, synced, stream_to_temp_file,
}

-- The bytes that a client sends.
abbrev pub bytes_of : List BodyChunk → Bytes
bytes_of [] = []
bytes_of (received data_bytes ∷ chunks) = data_bytes ++ bytes_of chunks
bytes_of (unwritable data_bytes ∷ chunks) = data_bytes ++ bytes_of chunks
bytes_of (broken ∷ chunks) = bytes_of chunks

write_body-ok :
    (max_bytes : ℕ) (written : Bytes) (chunks : List BodyChunk) (content : Bytes)
    → length written ≤ max_bytes
    → write_body max_bytes written chunks ≡ (content, ok tt)
    → (content ≡ written ++ bytes_of chunks) × (length content ≤ max_bytes)
unfolding write_body
write_body-ok max_bytes written [] content fits h =
    let same : written ≡ content = ap (λ r. r.0) h in
    (sym same ∙ sym (append-nil written), rw (← same) fits)
write_body-ok max_bytes written (broken ∷ chunks) content fits h =
    let bad : err payload_too_large ≡ ok tt = ap (λ r. r.1) h in cc bad
write_body-ok max_bytes written (received d ∷ chunks) content fits h =
    elim (Bool-cases (ltb max_bytes (length written + length d))) [
      | inl over ↦
          let k : (written, err payload_too_large) ≡ (content, ok tt) = rw over at h in
          let bad : err payload_too_large ≡ ok tt = ap (λ r. r.1) k in cc bad
      | inr within ↦
          let k : write_body max_bytes (written ++ d) chunks ≡ (content, ok tt) = rw within at h in
          let room : length (written ++ d) ≤ max_bytes = ground (arith, length-append written d) in
          let (same, small) = write_body-ok max_bytes (written ++ d) chunks content room k in
          (same ∙ append_assoc written d (bytes_of chunks), small)
    ]
write_body-ok max_bytes written (unwritable d ∷ chunks) content fits h = ground arith

pub pair-eq : {A B : Type 0} (x : A × B) (a : A) (b : B) → x.0 ≡ a → x.1 ≡ b → x ≡ (a, b)
pair-eq (x, y) a b h k = cc

-- A stream that succeeds has put the bytes of the client, all of them and no more than the limit,
-- into the temporary file, and has changed nothing else.
pub stream_to_temp_file-ok :
    (s t : Storage) (r : Request) (max_bytes : ℕ) (content : Bytes)
    → stream_to_temp_file s r max_bytes ≡ (t, (content, ok tt))
    → (content ≡ bytes_of r.body)
      × (length content ≤ max_bytes)
      × (t ≡ record s { disk = insert s.disk r.temp_path content })
unfolding stream_to_temp_file
stream_to_temp_file-ok s t r max_bytes content h = elim (Bool-cases r.create_error) [
  | inl fails ↦
      let k : (s, ([], err io_error)) ≡ (t, (content, ok tt)) = rw fails at h in
      let bad : err io_error ≡ ok tt = ap (λ x. x.1.1) k in cc bad
  | inr creates ↦
      let w = write_body max_bytes [] r.body in
      let k : (record s { disk = insert s.disk r.temp_path w.0 }, (w.0, synced r.sync_error w.1))
          ≡ (t, (content, ok tt)) =
        rw creates at h in
      let same : w.0 ≡ content = ap (λ x. x.1.0) k in
      let (done, wrote, sync) = >>=-eq-ok w.1 _ (ap (λ x. x.1.1) k) in
      let (is_body, small) =
        write_body-ok max_bytes [] r.body content (omega arith)
          (pair-eq w content (ok tt) same wrote) in
      (
        is_body,
        small,
        sym (ap (λ x. x.0) k) ∙ ap (λ c. record s { disk = insert s.disk r.temp_path c }) same,
      )
]
