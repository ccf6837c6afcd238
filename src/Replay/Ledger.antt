-- ===== src/Replay/Ledger.antt =====
-- `FileDurableSessionReplayLedger` of src/eag/governed_session/ledger.py. Each call holds the lock of
-- the root, so calls come one behind the other; whether the root and its lock are there when a call
-- is made is an argument of the call.
pub mod Claims
pub mod Once
use Prim.Native.String.{◌++◌}
use text.Mathlib.Text.{◌==◌ as str_eq}
use eag.Prelude.{
  Bool, true, false, not, ◌&&◌, ◌||◌, Option, none, some, List, String, Result, ok, err, ◌>>=◌,
  ◌>>◌, guard, if◌then◌else◌,
}
use eag.Replay.Digest.{
  LedgerError, Corruption, corrupt, unavailable, carries_record, lacks_record, not_json, wrong_key,
  is_a_symlink, no_root, no_lock, unsafe_lock, operation_failed, not_readable, appeared,
  not_claimable, not_persisted, require_non_empty,
}
use eag.Replay.Record.{EntryKind, Record, value, same_kind, to_payload, from_payload, Payload}
use eag.Replay.Disk.{
  System, Entry, absent, symlink, unreadable, file, Creation, created, exists_already, refused,
  interrupted,
}

-- `ReplayLedgerClaimDisposition`
pub data Disposition : Type 0 where
  claimed already_claimed conflict : Disposition

-- `ReplayLedgerClaim`
pub record Claim : Type 0 where
  pub disposition : Disposition
  pub existing_record : Option Record

-- Its `__post_init__`.
unfoldable pub make_claim : Disposition → Option Record → Result LedgerError Claim
make_claim claimed none = ok (record { disposition = claimed; existing_record = none })
make_claim claimed (some r) = err carries_record
make_claim already_claimed none = err lacks_record
make_claim conflict none = err lacks_record
make_claim d (some r) = ok (record { disposition = d; existing_record = some r })

-- `existing == record`
unfoldable pub same_record : Record → Record → Bool
same_record a b =
    same_kind a.entry_kind b.entry_kind
    && (str_eq a.identity_key b.identity_key && str_eq a.binding_digest b.binding_digest)

-- What a call finds of the root and of the lock.
pub data Access : Type 0 where
  granted root_missing lock_unsafe lock_missing lock_failed : Access

-- `_locked_root`
abbrev pub locked_root : Access → Result LedgerError (Unit {0})
locked_root granted = ok tt
locked_root root_missing = err (unavailable no_root)
locked_root lock_unsafe = err (unavailable unsafe_lock)
locked_root lock_missing = err (unavailable no_lock)
locked_root lock_failed = err (unavailable operation_failed)

module _ (S : System) where
  unfoldable pub record_path : EntryKind → String → String
  record_path kind identity_key =
      value kind ++ ("-" ++ (S.sha256 (value kind ++ (":" ++ identity_key)) ++ ".json"))

  -- `json.loads` and what follows it.
  abbrev read_json : EntryKind → String → Option Payload → Result LedgerError (Option Record)
  read_json kind identity_key none = err (corrupt not_json)
  read_json kind identity_key (some payload) = do
    r ← from_payload payload
    guard (same_kind r.entry_kind kind && str_eq r.identity_key identity_key) (corrupt wrong_key)
    ok (some r)

  abbrev read_entry : EntryKind → String → Entry S.Bytes → Result LedgerError (Option Record)
  read_entry kind identity_key absent = ok none
  read_entry kind identity_key symlink = err (corrupt is_a_symlink)
  read_entry kind identity_key unreadable = err (unavailable not_readable)
  read_entry kind identity_key (file bytes) = read_json kind identity_key (S.loads bytes)

  unfoldable pub read_unlocked : S.State → EntryKind → String → Result LedgerError (Option Record)
  read_unlocked s kind identity_key =
      read_entry kind identity_key (S.entry s (record_path kind identity_key))

  abbrev written : Creation → Result LedgerError (Unit {0})
  written created = ok tt
  written exists_already = err (unavailable appeared)
  written refused = err (unavailable not_claimable)
  written interrupted = err (unavailable not_persisted)

  unfoldable pub write_unlocked : S.State → Record → S.State × Result LedgerError (Unit {0})
  write_unlocked s r =
      let out = S.create s (record_path r.entry_kind r.identity_key) (S.dumps (to_payload r)) in
      (out.0, written out.1)

  -- `claim` behind the lock and the reading.
  abbrev claim_found :
      S.State → Record → Result LedgerError (Option Record) → S.State × Result LedgerError Claim
  claim_found s r (err e) = (s, err e)
  claim_found s r (ok none) =
      let out = write_unlocked s r in (out.0, out.1 >> make_claim claimed none)
  claim_found s r (ok (some existing)) = (
    s,
    (if same_record existing r
        then make_claim already_claimed (some existing)
        else make_claim conflict (some existing)),
  )

  abbrev claim_locked :
      S.State → Record → Result LedgerError (Unit {0}) → S.State × Result LedgerError Claim
  claim_locked s r (err e) = (s, err e)
  claim_locked s r (ok done) = claim_found s r (read_unlocked s r.entry_kind r.identity_key)

  unfoldable pub claim : Access → Record → S.State → S.State × Result LedgerError Claim
  claim access r s = claim_locked s r (locked_root access)

  unfoldable pub read : Access → EntryKind → String → S.State → Result LedgerError (Option Record)
  read access kind identity_key s = do
    identity ← require_non_empty identity_key "identity_key"
    locked_root access
    read_unlocked s kind identity_key
