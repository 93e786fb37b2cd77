-- ===== src/Tests/Markers.antt =====
-- The migration of a marker, and ULIDs.
use forge_development_hub_cl.Base.{
  true, false, ◌≡◌, refl, [], ◌∷◌, Option, none, some, Text, codes, text_eq, if◌then◌else◌, arith,
  All, text_lt,
}
use forge_development_hub_cl.Managed.{
  Marker, Legacy, Files, Disk, target_name, migrate, is_legacy_filename,
}
use forge_development_hub_cl.Managed.Migration.{Safe, migrate-Safe}
use forge_development_hub_cl.Instincts.{is_ulid}
use forge_development_hub_cl.Instincts.Ulid.{encode_crockford, new_ulid}
use forge_development_hub_cl.Instincts.Order.{text_lt-new_ulid}
use forge_development_hub_cl.Instincts.Letters.{IsByte, is_ulid-encode_crockford}

abbrev full_disk : Disk
full_disk = record { mkdir_ok = true; write_ok = false; remove_ok = true; left = none }

abbrev one_file : Files
one_file name = if text_eq name (codes ".skill-version") then some (codes "name: a") else none

abbrev lint_marker : Marker
lint_marker = record {
  name = codes "a";
  kind = codes "skill";
  version = [];
  hub_commit = [];
  installed_at = 1;
  installed_by_fdh = [];
  source_path = codes "skills/a";
  content_hash = [];
  agent = [];
}

abbrev lint_legacy : Legacy
lint_legacy = record {
  name = codes "a";
  hub_version = [];
  hub_commit = [];
  installed_at = 1;
  installed_by_fdh = [];
  content_hash = [];
  agent = [];
}

abbrev marshalled : Marker → Text
marshalled m = m.name

abbrev unmarshalled : Text → Option Marker
unmarshalled t = some lint_marker

abbrev legacy_read : Text → Option Legacy
legacy_read t = some lint_legacy

migrate-Safe_example :
    Safe marshalled unmarshalled legacy_read full_disk one_file
      (codes ".skill-version")
      (target_name (codes ".skill-version"))
      (codes "name: a")
      (migrate marshalled unmarshalled legacy_read full_disk one_file (codes ".skill-version"))
unfolding is_legacy_filename text_eq
migrate-Safe_example =
    migrate-Safe marshalled unmarshalled legacy_read full_disk one_file (codes ".skill-version")
      (codes "name: a") refl refl

abbrev ten_bytes : Text
ten_bytes = 255 ∷ 0 ∷ 1 ∷ 2 ∷ 3 ∷ 4 ∷ 5 ∷ 6 ∷ 7 ∷ 8 ∷ []

abbrev sixteen_bytes : Text
sixteen_bytes = 255 ∷ 0 ∷ 17 ∷ 200 ∷ 3 ∷ 4 ∷ ten_bytes

sixteen_bytes-All : All IsByte sixteen_bytes
sixteen_bytes-All = ground arith

is_ulid-encode_crockford_example : is_ulid (encode_crockford sixteen_bytes) ≡ true
is_ulid-encode_crockford_example = is_ulid-encode_crockford sixteen_bytes refl sixteen_bytes-All

text_lt-new_ulid_example :
    text_lt
      (encode_crockford (0 ∷ 0 ∷ 0 ∷ 0 ∷ 3 ∷ 232 ∷ ten_bytes))
      (encode_crockford (0 ∷ 0 ∷ 0 ∷ 0 ∷ 3 ∷ 233 ∷ ten_bytes))
    ≡ true
unfolding new_ulid
text_lt-new_ulid_example =
    text_lt-new_ulid 1000 1001 ten_bytes ten_bytes
      (encode_crockford (0 ∷ 0 ∷ 0 ∷ 0 ∷ 3 ∷ 232 ∷ ten_bytes))
      (encode_crockford (0 ∷ 0 ∷ 0 ∷ 0 ∷ 3 ∷ 233 ∷ ten_bytes)) (omega arith) (omega arith) refl refl
      refl refl
