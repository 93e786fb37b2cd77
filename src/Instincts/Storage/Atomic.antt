-- ===== src/Instincts/Storage/Atomic.antt =====
-- What a write of an instinct leaves: WriteAtomic of pkg/instincts/storage.go.
use forge_development_hub_cl.Base.{
  Bool, true, false, ◌&&◌, ◌≡◌, refl, Option, none, some, List, [], ◌∷◌, Text, text_eq, text_eq_iff,
  if◌then◌else◌, arith,
}
use forge_development_hub_cl.Instincts.{Instinct, encode}
use forge_development_hub_cl.Instincts.Storage.{
  DirEntry, Writes, WriteResult, written, put_file, remove_file, file_at, final_name, tmp_name,
  left_behind, write_encoded, write_atomic,
}

file_at-put_file :
    (k j bytes : Text) (es : List DirEntry)
    → file_at j (put_file k bytes es) ≡ (if text_eq k j then some bytes else file_at j es)
unfolding file_at put_file
file_at-put_file k j bytes [] = refl
file_at-put_file k j bytes (e ∷ es) = ground (
  arith,
  file_at-put_file k j bytes es,
  text_eq_iff e.name k,
  text_eq_iff k j,
  text_eq_iff e.name j,
)

file_at-remove_file :
    (k j : Text) (es : List DirEntry)
    → text_eq k j ≡ false
    → file_at j (remove_file k es) ≡ file_at j es
unfolding file_at remove_file
file_at-remove_file k j [] h = refl
file_at-remove_file k j (e ∷ es) h = ground (
  arith,
  file_at-remove_file k j es h,
  text_eq_iff e.name k,
  text_eq_iff k j,
  text_eq_iff e.name j,
)

abbrev pub is_written : WriteResult → Bool
is_written written = true
is_written _ = false

file_at-left_behind :
    (id name : Text) (o : Option Text) (es : List DirEntry)
    → text_eq (tmp_name id) name ≡ false
    → file_at name (left_behind id o es) ≡ file_at name es
unfolding left_behind
file_at-left_behind id name none es h = refl
file_at-left_behind id name (some part) es h =
    ground (arith, file_at-put_file (tmp_name id) name part es)

write_encoded-file_at :
    (w : Writes) (es : List DirEntry) (id name : Text) (bytes : Option Text)
    → text_eq (tmp_name id) name ≡ false
    → file_at name (write_encoded w es id bytes).0 ≡ (
        if is_written (write_encoded w es id bytes).1 && text_eq (final_name id) name
        then bytes
        else file_at name es)
unfolding write_encoded
write_encoded-file_at w es id name none h = refl
write_encoded-file_at w es id name (some bytes) h =
    let held = put_file (tmp_name id) bytes es in
    let left = file_at-left_behind id name w.tmp_left es h in
    ground (
      left,
      arith,
      file_at-put_file (tmp_name id) name bytes es,
      file_at-remove_file (tmp_name id) name held h,
      file_at-put_file (final_name id) name bytes (remove_file (tmp_name id) held),
    )

abbrev pub is_some : Option Text → Bool
is_some none = false
is_some (some t) = true

write_encoded-is_written :
    (w : Writes) (es : List DirEntry) (id : Text) (bytes : Option Text)
    → is_written (write_encoded w es id bytes).1 ≡ (is_some bytes && (w.tmp_ok && w.rename_ok))
unfolding write_encoded
write_encoded-is_written w es id none = refl
write_encoded-is_written w es id (some bytes) = ground arith

-- After WriteAtomic the file of the instinct has the whole encoding if the write was reported as
-- done, and what it had before if an error was reported; no other file but the temporary one
-- changes. The write is done exactly when the instinct encodes and the disk lets both steps
-- through.
pub write_atomic-file_at :
    (marshal : Instinct → Text) (unmarshal : Text → Option Instinct) (w : Writes)
    (es : List DirEntry) (i : Instinct) (name : Text)
    → text_eq (tmp_name i.id) name ≡ false
    → let out = write_atomic marshal unmarshal w es i in
      (file_at name out.0 ≡ (
        if is_written out.1 && text_eq (final_name i.id) name
        then encode marshal unmarshal i
        else file_at name es))
      × (is_written out.1 ≡ (is_some (encode marshal unmarshal i) && (w.tmp_ok && w.rename_ok)))
unfolding write_atomic
write_atomic-file_at marshal unmarshal w es i name h =
    let bytes = encode marshal unmarshal i in
    (write_encoded-file_at w es i.id name bytes h, write_encoded-is_written w es i.id bytes)
