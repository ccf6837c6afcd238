-- ===== src/Replay/Disk.antt =====
-- What src/eag/governed_session/ledger.py uses of the operating system, of `json` and of `hashlib`:
-- parameters, with what is documented of them.
use text.Mathlib.Text.{◌==◌ as str_eq}
use eag.Prelude.{◌≡◌, Bool, true, false, Option, some, List, String}
use eag.Replay.Record.{Payload, object, Value}

-- What stands under a name: nothing that `exists` sees, a symbolic link, a file that cannot be
-- read, or a file with its bytes.
pub data Entry (Bytes : Type 0) : Type 0 where
  absent symlink unreadable : Entry Bytes
  file : Bytes → Entry Bytes

-- How the exclusive creation of a file with its bytes ends: with the file synchronised, with
-- `FileExistsError`, or with another `OSError` before or behind the creation.
pub data Creation : Type 0 where
  created exists_already refused interrupted : Creation

abbrev pub is_absent : {Bytes : Type 0} → Entry Bytes → Bool
is_absent absent = true
is_absent _ = false

abbrev pub is_created : Creation → Bool
is_created created = true
is_created _ = false

-- The root directory, with `O_CREAT | O_EXCL`, and the codecs with UTF-8.
pub record System : Type 1 where
  pub State : Type 0
  pub Bytes : Type 0
  pub entry : State → String → Entry Bytes
  pub create : State → String → Bytes → State × Creation
  pub dumps : List (String × Value) → Bytes
  pub loads : Bytes → Option Payload
  pub sha256 : String → String

pub record IsSystem (S : System) : Type 0 where
  -- A creation leaves the other names as they are, and its own where something stands there.
  pub create-other :
      (s : S.State) (n : String) (bytes : S.Bytes) (m : String)
      → str_eq m n ≡ false
      → S.entry (S.create s n bytes).0 m ≡ S.entry s m
  pub create-present :
      (s : S.State) (n : String) (bytes : S.Bytes)
      → is_absent (S.entry s n) ≡ false
      → (S.entry (S.create s n bytes).0 n ≡ S.entry s n)
        × (is_created (S.create s n bytes).1 ≡ false)
  -- One that succeeds leaves the file with the bytes.
  pub create-created :
      (s : S.State) (n : String) (bytes : S.Bytes)
      → is_created (S.create s n bytes).1 ≡ true
      → S.entry (S.create s n bytes).0 n ≡ file bytes
  pub loads-dumps : (d : List (String × Value)) → S.loads (S.dumps d) ≡ some (object d)
