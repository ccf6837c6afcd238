-- ===== src/Replay/Tests.antt =====
-- A directory that is a list of files, where the bytes of a file are the payload itself.
use text.Mathlib.Text.{◌==◌ as str_eq}
use text.Mathlib.TextEquality.{eq_iff}
use eag.Prelude.{◌≡◌, refl, ◌≤◌, some, List, [], ◌∷◌, String, ok, if◌then◌else◌, is_blank, arith}
use eag.Replay.Digest.{require_non_empty, require_digest, all_hex}
use eag.Replay.Record.{
  Record, Value, object, get, session_issued, make_record, to_payload, from_payload,
  from_payload-to_payload,
}
use eag.Replay.Record.Acceptance.{from_payload-accepts}
use eag.Replay.Disk.{
  System, IsSystem, Entry, absent, file, is_absent, Creation, created, exists_already,
}
use eag.Replay.Ledger.{
  granted, claim, read, read_unlocked, write_unlocked, make_claim, record_path, same_record,
}
use eag.Replay.Ledger.Claims.{new_claims, answer, claimed_forever}
use eag.Replay.Ledger.Once.{claimed_once}

abbrev Bytes : Type 0
Bytes = List (String × Value)

abbrev find : List (String × Bytes) → String → Entry Bytes
find [] n = absent
find ((m, b) ∷ d) n = if str_eq n m then file b else find d n

abbrev create : List (String × Bytes) → String → Bytes → List (String × Bytes) × Creation
create d n b = if is_absent (find d n) then ((n, b) ∷ d, created) else (d, exists_already)

abbrev directory : System
directory = record {
  State = List (String × Bytes);
  Bytes = Bytes;
  entry = find;
  create = create;
  dumps = λ b. b;
  loads = λ b. some (object b);
  sha256 = λ text. text;
}

directory-IsSystem : IsSystem directory
directory-IsSystem = record {
  create-other = λ d n b m h. ground (arith, h);
  create-present = λ d n b h. rw h (refl, refl);
  create-created = λ d n b h. ground (arith, h, eq_iff n n);
  loads-dumps = λ d. refl;
}

abbrev digest : String
digest = "0123456789abcdef0123456789abcdef0123456789abcdef0123456789abcdef"

abbrev issued : Record
issued = record { entry_kind = session_issued; identity_key = "s1"; binding_digest = digest }

all_code : Unit {0}
unfolding make_record require_non_empty require_digest all_hex is_blank claim read read_unlocked
    write_unlocked make_claim record_path same_record from_payload to_payload
all_code = tt

issued-IsRecord : make_record session_issued "s1" digest ≡ ok issued
unfolding all_code
issued-IsRecord = refl

from_payload-to_payload_example : from_payload (object (to_payload issued)) ≡ ok issued
from_payload-to_payload_example =
    from_payload-to_payload session_issued "s1" digest issued issued-IsRecord

from_payload-accepts_example :
    (make_record session_issued "s1" digest ≡ ok issued)
    × ((k : String) → get k (to_payload issued) ≡ get k (to_payload issued))
unfolding all_code
from_payload-accepts_example = from_payload-accepts (to_payload issued) issued refl

claimed_forever_example :
    (read directory granted session_issued "s1" (claim directory granted issued []).0
      ≡ ok (some issued))
    × (claim directory granted
          (record issued { binding_digest = "other" })
          (claim directory granted issued []).0
        ≡ (
          (claim directory granted issued []).0,
          answer issued (record issued { binding_digest = "other" }),
        ))
unfolding all_code
claimed_forever_example =
    claimed_forever directory-IsSystem [] granted issued issued-IsRecord refl [] "other"

claimed_once_example :
    new_claims directory issued ((granted, issued) ∷ (granted, issued) ∷ []) [] ≤ 1
claimed_once_example =
    claimed_once directory-IsSystem issued ((granted, issued) ∷ (granted, issued) ∷ []) []
