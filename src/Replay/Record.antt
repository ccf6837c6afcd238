-- ===== src/Replay/Record.antt =====
-- The record of src/eag/governed_session/ledger.py and its payload. A payload is what `json.loads`
-- answers: an object with its keys and values, where the values that are strings are told from the
-- others, or something else.
pub mod Acceptance
use text.Mathlib.Text.{◌==◌ as str_eq}
use Prim.Native.String.{count}
use eag.Prelude.{
  ◌≡◌, Bool, true, false, ◌&&◌, Option, none, some, List, [], ◌∷◌, String, Result, ok, err, ◌>>=◌,
  ◌>>◌, guard, >>=-eq-ok, >>-eq-ok, ok-injective, sym, refl, ap, ◌∙◌, not, is_blank, if◌then◌else◌,
  all, ◌==◌, ℕ,
}
use eag.Prelude.Keys.{elem}
use eag.Replay.Digest.{
  LedgerError, corrupt, empty_text, require_non_empty, require_digest, not_an_object, all_hex,
  not_a_digest, unsupported_schema, unexpected_fields, invalid_record,
}

-- `ReplayLedgerEntryKind`
pub data EntryKind : Type 0 where
  activation_claimed session_issued session_consumed : EntryKind

-- `entry_kind.value`
abbrev pub value : EntryKind → String
value activation_claimed = "activation_claimed"
value session_issued = "session_issued"
value session_consumed = "session_consumed"

-- `is`
abbrev pub kind_index : EntryKind → ℕ
kind_index activation_claimed = 0
kind_index session_issued = 1
kind_index session_consumed = 2

abbrev pub same_kind : EntryKind → EntryKind → Bool
same_kind a b = kind_index a == kind_index b

pub same_kind→eq : (a b : EntryKind) → same_kind a b ≡ true → a ≡ b
same_kind→eq activation_claimed activation_claimed h = refl
same_kind→eq session_issued session_issued h = refl
same_kind→eq session_consumed session_consumed h = refl
same_kind→eq a b h = cc

-- `DurableReplayLedgerRecord`
pub record Record : Type 0 where
  pub entry_kind : EntryKind
  pub identity_key : String
  pub binding_digest : String

-- The constructor, with `__post_init__`.
unfoldable pub make_record : EntryKind → String → String → Result LedgerError Record
make_record kind identity_key binding_digest = do
  identity ← require_non_empty identity_key "identity_key"
  digest ← require_digest binding_digest "binding_digest"
  ok (record { entry_kind = kind; identity_key = identity; binding_digest = digest })

-- A value in an object.
pub data Value : Type 0 where
  string : String → Value
  other : Value

pub data Payload : Type 0 where
  object : List (String × Value) → Payload
  no_object : Payload

abbrev pub schema_version : String
schema_version = "g2.4.8"

unfoldable pub to_payload : Record → List (String × Value)
to_payload r =
    ("binding_digest", string r.binding_digest)
    ∷ ("entry_kind", string (value r.entry_kind))
    ∷ ("identity_key", string r.identity_key)
    ∷ ("schema_version", string schema_version)
    ∷ []

-- `payload.get(key)`
abbrev pub get : String → List (String × Value) → Option Value
get k [] = none
get k ((j, v) ∷ d) = if str_eq j k then some v else get k d

abbrev pub keys : List (String × Value) → List String
keys [] = []
keys ((k, v) ∷ d) = k ∷ keys d

abbrev pub field_names : List String
field_names = "binding_digest" ∷ "entry_kind" ∷ "identity_key" ∷ "schema_version" ∷ []

-- `set(payload) == {...}`
abbrev pub has_fields : List (String × Value) → Bool
has_fields d = all (λ k. elem k field_names) (keys d) && all (λ k. elem k (keys d)) field_names

abbrev pub is_current : Option Value → Bool
is_current (some (string t)) = str_eq t schema_version
is_current _ = false

-- `ReplayLedgerEntryKind(value)`, with the `ValueError` as an error of the record.
abbrev pub kind_of : Option Value → Result LedgerError EntryKind
kind_of (some (string t)) =
    if str_eq t "activation_claimed"
    then ok activation_claimed
    else if str_eq t "session_issued"
    then ok session_issued
    else if str_eq t "session_consumed"
    then ok session_consumed
    else err (corrupt invalid_record)
kind_of _ = err (corrupt invalid_record)

-- A field handed on as a string: any other value is refused by `_require_non_empty`.
abbrev pub text_of : String → Option Value → Result LedgerError String
text_of name (some (string t)) = ok t
text_of name _ = err (empty_text name)

-- `except`: every error becomes a corruption.
abbrev pub as_corruption : Result LedgerError Record → Result LedgerError Record
as_corruption (ok r) = ok r
as_corruption (err (corrupt reason)) = err (corrupt reason)
as_corruption (err e) = err (corrupt invalid_record)

unfoldable pub from_payload : Payload → Result LedgerError Record
from_payload no_object = err (corrupt not_an_object)
from_payload (object d) = as_corruption (do
  guard (is_current (get "schema_version" d)) (corrupt unsupported_schema)
  guard (has_fields d) (corrupt unexpected_fields)
  kind ← kind_of (get "entry_kind" d)
  identity_key ← text_of "identity_key" (get "identity_key" d)
  binding_digest ← text_of "binding_digest" (get "binding_digest" d)
  make_record kind identity_key binding_digest)

require_non_empty_lem : (s name : String) {u : String} → require_non_empty s name ≡ ok u → u ≡ s
unfolding require_non_empty
require_non_empty_lem s name h =
    sym (ok-injective ((>>-eq-ok (guard (not (is_blank s)) (empty_text name)) (ok s) h).1))

require_digest_lem : (s name : String) {u : String} → require_digest s name ≡ ok u → u ≡ s
unfolding require_digest
require_digest_lem s name h =
    let (checked, e, rest) = >>=-eq-ok (require_non_empty s name) _ h in
    sym (
      ok-injective
        ((>>-eq-ok (guard (count s == 64 && all_hex s) (not_a_digest name)) (ok s) rest).1))

-- The constructor keeps its arguments.
pub make_record_lem :
    (kind : EntryKind) (identity_key binding_digest : String) (r : Record)
    → make_record kind identity_key binding_digest ≡ ok r
    → r ≡ record { entry_kind = kind; identity_key = identity_key; binding_digest = binding_digest }
unfolding make_record
make_record_lem kind i d r h =
    let (identity, hi, h2) = >>=-eq-ok (require_non_empty i "identity_key") _ h in
    let (digest, hd, e) = >>=-eq-ok (require_digest d "binding_digest") _ h2 in
    sym (ok-injective e)
    ∙ rw (require_non_empty_lem i "identity_key" hi, require_digest_lem d "binding_digest" hd) refl

pub make_record-identity :
    (kind : EntryKind) (identity_key binding_digest : String) {r : Record}
    → make_record kind identity_key binding_digest ≡ ok r
    → require_non_empty identity_key "identity_key" ≡ ok identity_key
unfolding make_record
make_record-identity kind i d h =
    let (identity, hi, h2) = >>=-eq-ok (require_non_empty i "identity_key") _ h in
    hi ∙ ap ok (require_non_empty_lem i "identity_key" hi)

-- What the constructor of a replay record makes is read back from its payload.
pub from_payload-to_payload :
    (kind : EntryKind) (identity_key binding_digest : String) (r : Record)
    → make_record kind identity_key binding_digest ≡ ok r
    → from_payload (object (to_payload r)) ≡ ok r
unfolding from_payload to_payload
from_payload-to_payload activation_claimed i d r h =
    let e = make_record_lem activation_claimed i d r h in rw e (ap as_corruption (h ∙ ap ok e))
from_payload-to_payload session_issued i d r h =
    let e = make_record_lem session_issued i d r h in rw e (ap as_corruption (h ∙ ap ok e))
from_payload-to_payload session_consumed i d r h =
    let e = make_record_lem session_consumed i d r h in rw e (ap as_corruption (h ∙ ap ok e))
