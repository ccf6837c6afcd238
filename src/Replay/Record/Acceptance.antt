-- ===== src/Replay/Record/Acceptance.antt =====
-- Which payloads `from_payload` of src/eag/governed_session/ledger.py accepts.
use text.Mathlib.Text.{◌==◌ as str_eq}
use text.Mathlib.TextEquality.{eq_iff}
use eag.Prelude.{
  ◌≡◌, refl, sym, ap, ◌∙◌, true, false, Option, none, some, List, [], ◌∷◌, String, Result, ok, err,
  >>=-eq-ok, >>-eq-ok, guard, guard-eq-ok, all, Bool-cases, inl, inr, arith, ok-injective,
}
use eag.Prelude.Keys.{elem}
use eag.Replay.Digest.{LedgerError, corrupt, unsupported_schema, unexpected_fields}
use eag.Replay.Record.{
  EntryKind, Record, Value, string, other, object, value, get, keys, field_names, has_fields,
  is_current, kind_of, text_of, as_corruption, make_record, make_record_lem, schema_version,
  to_payload, from_payload, activation_claimed, session_issued, session_consumed,
}

as_corruption-ok : (m : Result LedgerError Record) (r : Record) → as_corruption m ≡ ok r → m ≡ ok r
as_corruption-ok (ok q) r h = h
as_corruption-ok (err (corrupt reason)) r h = cc
as_corruption-ok (err e) r h = cc

is_current_lem : (o : Option Value) → is_current o ≡ true → o ≡ some (string schema_version)
is_current_lem none h = cc
is_current_lem (some other) h = cc
is_current_lem (some (string t)) h = ap (λ s. some (string s)) ((eq_iff t schema_version).0 h)

named :
    (t s : String) (j k : EntryKind)
    → str_eq t s ≡ true
    → value j ≡ s
    → j ≡ k
    → Path (Option Value) (some (string t)) (some (string (value k)))
named t s j k same e f = ap (λ u. some (string u)) ((eq_iff t s).0 same ∙ sym e ∙ ap value f)

kind_of_lem : (o : Option Value) (k : EntryKind) → kind_of o ≡ ok k → o ≡ some (string (value k))
kind_of_lem none k h = cc
kind_of_lem (some other) k h = cc
kind_of_lem (some (string t)) k h = elim (Bool-cases (str_eq t "activation_claimed")) [
  | inl a ↦ named t "activation_claimed" activation_claimed k a refl (ok-injective (rw a at h))
  | inr a ↦ elim (Bool-cases (str_eq t "session_issued")) [
    | inl b ↦ named t "session_issued" session_issued k b refl (ok-injective (rw (a, b) at h))
    | inr b ↦ elim (Bool-cases (str_eq t "session_consumed")) [
      | inl c ↦
          named t "session_consumed" session_consumed k c refl (ok-injective (rw (a, b, c) at h))
      | inr c ↦ let clash = rw (a, b, c) at h in cc
    ]
  ]
]

text_of_lem :
    (name : String) (o : Option Value) (t : String) → text_of name o ≡ ok t → o ≡ some (string t)
text_of_lem name none t h = cc
text_of_lem name (some other) t h = cc
text_of_lem name (some (string s)) t h = ap (λ u. some (string u)) (ok-injective h)

get-missing : (k : String) (d : List (String × Value)) → elem k (keys d) ≡ false → get k d ≡ none
get-missing k [] h = refl
get-missing k ((j, v) ∷ d) h = ground (arith, h, get-missing k d)

all-elem :
    (k : String) (names ks : List String)
    → all (λ j. elem j names) ks ≡ true
    → elem k ks ≡ true
    → elem k names ≡ true
all-elem k names [] h e = cc
all-elem k names (j ∷ ks) h e = elim (Bool-cases (str_eq j k)) [
  | inl same ↦ rw (← (eq_iff j k).0 same) (ground (arith, h))
  | inr different ↦ all-elem k names ks (ground (arith, h)) (ground (arith, e))
]

agree :
    (d : List (String × Value)) (kind : EntryKind) (i b : String)
    → has_fields d ≡ true
    → get "schema_version" d ≡ some (string schema_version)
    → get "entry_kind" d ≡ some (string (value kind))
    → get "identity_key" d ≡ some (string i)
    → get "binding_digest" d ≡ some (string b)
    → (k : String)
    → get k d
      ≡ get k (to_payload (record { entry_kind = kind; identity_key = i; binding_digest = b }))
unfolding to_payload
agree d kind i b fields hs hk hi hb k = elim (Bool-cases (str_eq "binding_digest" k)) [
  | inl e ↦ rw (← (eq_iff "binding_digest" k).0 e) hb
  | inr n1 ↦ elim (Bool-cases (str_eq "entry_kind" k)) [
    | inl e ↦ rw (← (eq_iff "entry_kind" k).0 e) hk
    | inr n2 ↦ elim (Bool-cases (str_eq "identity_key" k)) [
      | inl e ↦ rw (← (eq_iff "identity_key" k).0 e) hi
      | inr n3 ↦ elim (Bool-cases (str_eq "schema_version" k)) [
        | inl e ↦ rw (← (eq_iff "schema_version" k).0 e) hs
        | inr n4 ↦
            let known : all (λ j. elem j field_names) (keys d) ≡ true = ground (arith, fields) in
            get-missing k d (ground (arith, all-elem k field_names (keys d) known, n1, n2, n3, n4))
            ∙ sym (rw (n1, n2, n3, n4) refl)
      ]
    ]
  ]
]

-- A payload that is read is that of a record which the constructor makes: it has the same fields
-- with the same values.
pub from_payload-accepts :
    (d : List (String × Value)) (r : Record)
    → from_payload (object d) ≡ ok r
    → (make_record r.entry_kind r.identity_key r.binding_digest ≡ ok r)
      × ((k : String) → get k d ≡ get k (to_payload r))
unfolding from_payload to_payload
from_payload-accepts d r h =
    let (current, h1) =
      >>-eq-ok (guard (is_current (get "schema_version" d)) (corrupt unsupported_schema)) _
        (as_corruption-ok _ r h) in
    let (fields, h2) = >>-eq-ok (guard (has_fields d) (corrupt unexpected_fields)) _ h1 in
    let (kind, hk, h3) = >>=-eq-ok (kind_of (get "entry_kind" d)) _ h2 in
    let (i, hi, h4) = >>=-eq-ok (text_of "identity_key" (get "identity_key" d)) _ h3 in
    let (b, hb, h5) = >>=-eq-ok (text_of "binding_digest" (get "binding_digest" d)) _ h4 in
    let e = make_record_lem kind i b r h5 in
    (
      rw e (h5 ∙ ap ok e),
      λ k. rw e (
          agree d kind i b (guard-eq-ok (has_fields d) (corrupt unexpected_fields) fields)
            (is_current_lem (get "schema_version" d) (
              guard-eq-ok (is_current (get "schema_version" d)) (corrupt unsupported_schema)
                current))
            (kind_of_lem (get "entry_kind" d) kind hk)
            (text_of_lem "identity_key" (get "identity_key" d) i hi)
            (text_of_lem "binding_digest" (get "binding_digest" d) b hb) k),
    )
