-- ===== src/Replay/Digest.antt =====
-- The errors of src/eag/governed_session/ledger.py and its tests of texts.
use Prim.Native.String.{[], ◌∷◌, count}
use Prim.Native.Char.{code}
use eag.Prelude.{
  ℕ, Bool, true, not, ◌&&◌, ◌||◌, String, Result, ok, ◌>>=◌, ◌>>◌, guard, ◌==◌, leb, is_blank,
}

-- Why a stored record is refused, by the message.
pub data Corruption : Type 0 where
  not_an_object unsupported_schema unexpected_fields invalid_record is_a_symlink not_json
        wrong_key :
      Corruption

-- Why the ledger cannot be used, by the message.
pub data Unavailability : Type 0 where
  no_root unsafe_lock no_lock operation_failed not_readable appeared not_claimable not_persisted :
      Unavailability

-- `DurableReplayLedgerError` with the field that its message names, and its two subclasses.
pub data LedgerError : Type 0 where
  empty_text not_a_digest : String → LedgerError
  carries_record lacks_record : LedgerError
  corrupt : Corruption → LedgerError
  unavailable : Unavailability → LedgerError

unfoldable pub require_non_empty : String → String → Result LedgerError String
require_non_empty value field_name = do
  guard (not (is_blank value)) (empty_text field_name)
  ok value

-- `character in "0123456789abcdef"`, by the code point.
abbrev is_hex : ℕ → Bool
is_hex c = (leb 48 c && leb c 57) || (leb 97 c && leb c 102)

unfoldable pub all_hex : String → Bool
all_hex [] = true
all_hex (c ∷ s) = is_hex (code c) && all_hex s

unfoldable pub require_digest : String → String → Result LedgerError String
unfolding require_non_empty
require_digest value field_name = do
  checked ← require_non_empty value field_name
  guard (count value == 64 && all_hex value) (not_a_digest field_name)
  ok value
