-- ===== src/Replay/Ledger/Claims.antt =====
-- Sequences of claims on the ledger of src/eag/governed_session/ledger.py.
use text.Mathlib.Text.{◌==◌ as str_eq}
use text.Mathlib.TextEquality.{eq_iff}
use text.Mathlib.TextPositions.{eq_refl}
use eag.Prelude.{
  ◌≡◌, refl, sym, ap, ◌∙◌, ℕ, ◌+◌, Bool, true, false, ◌&&◌, Option, none, some, List, [], ◌∷◌, ◌⊎◌,
  inl, inr, String, Result, ok, err, ◌>>◌, if◌then◌else◌, Bool-cases, arith, ==_refl,
}
use eag.Replay.Digest.{LedgerError}
use eag.Replay.Record.{
  Record, same_kind, kind_index, to_payload, make_record, make_record-identity,
  from_payload-to_payload,
}
use eag.Replay.Disk.{System, IsSystem, is_absent, file, created, Creation, is_created}
use eag.Replay.Ledger.{
  Claim, claimed, already_claimed, conflict, make_claim, same_record, Access, granted, record_path,
  read_unlocked, write_unlocked, claim, read, claim_found, written,
}

abbrev pub is_claimed : Result LedgerError Claim → Bool
is_claimed (err e) = false
is_claimed (ok c) = elim c.disposition [ claimed ↦ true | _ ↦ false ]

-- The same kind and identity.
abbrev pub same_claim : Record → Record → Bool
same_claim a b = same_kind a.entry_kind b.entry_kind && str_eq a.identity_key b.identity_key

-- What a claim answers where a record is stored already.
unfoldable pub answer : Record → Record → Result LedgerError Claim
answer stored r = ok (record {
  disposition = if same_record stored r then already_claimed else conflict;
  existing_record = some stored;
})

module _ (S : System) where
  abbrev pub claim_all : List (Access × Record) → S.State → S.State
  claim_all [] s = s
  claim_all ((access, r) ∷ l) s = claim_all l (claim S access r s).0

  -- How many claims of a record's kind and identity are new.
  abbrev pub new_claims : Record → List (Access × Record) → S.State → ℕ
  new_claims r [] s = 0
  new_claims r ((access, q) ∷ l) s =
      (if same_claim r q && is_claimed (claim S access q s).1 then 1 else 0)
      + new_claims r l (claim S access q s).0

module _ {S : System} (law : IsSystem S) where
  abbrev pub path : Record → String
  path r = record_path S r.entry_kind r.identity_key

  abbrev pub writing : S.State → Record → S.State × Creation
  writing s r = S.create s (path r) (S.dumps (to_payload r))

  -- A claim leaves the directory as it is, or creates the record's file, and is new just where the
  -- creation succeeds.
  unfoldable pub IsClaim : S.State → Record → S.State × Result LedgerError Claim → Type 0
  IsClaim s r out =
      ((out.0 ≡ s) × (is_claimed out.1 ≡ false))
      ⊎ ((out.0 ≡ (writing s r).0) × (is_claimed out.1 ≡ is_created (writing s r).1))

  written-is_claimed :
      (c : Creation) → is_claimed (written S c >> make_claim claimed none) ≡ is_created c
  unfolding make_claim
  written-is_claimed created = refl
  written-is_claimed _ = refl

  found-IsClaim :
      (s : S.State) (r : Record) (found : Result LedgerError (Option Record))
      → IsClaim s r (claim_found S s r found)
  unfolding IsClaim write_unlocked make_claim
  found-IsClaim s r (err e) = inl (refl, refl)
  found-IsClaim s r (ok none) = inr (refl, written-is_claimed (writing s r).1)
  found-IsClaim s r (ok (some q)) = inl (refl, ground arith)

  pub claim_lem : (s : S.State) (access : Access) (r : Record) → IsClaim s r (claim S access r s)
  unfolding claim IsClaim
  claim_lem s granted r = found-IsClaim s r (read_unlocked S s r.entry_kind r.identity_key)
  claim_lem s _ r = inl (refl, refl)

  -- What stands under a name stays there.
  pub claim-entry :
      (s : S.State) (access : Access) (r : Record) (n : String)
      → is_absent (S.entry s n) ≡ false
      → S.entry (claim S access r s).0 n ≡ S.entry s n
  unfolding IsClaim
  claim-entry s access r n h = elim (claim_lem s access r) [
    | inl (same, old) ↦ ap (λ x. S.entry x n) same
    | inr (moved, new) ↦ elim (Bool-cases (str_eq n (path r))) [
      | inl here ↦
          let e = (eq_iff n (path r)).0 here in
          let there : is_absent (S.entry s (path r)) ≡ false = rw (← e) h in
          ap (λ x. S.entry x n) moved
          ∙ rw e (law.create-present s (path r) (S.dumps (to_payload r)) there).0
      | inr other ↦
          ap (λ x. S.entry x n) moved ∙ law.create-other s (path r) (S.dumps (to_payload r)) n other
    ]
  ]

  claim_all-entry :
      (l : List (Access × Record)) (s : S.State) (n : String)
      → is_absent (S.entry s n) ≡ false
      → S.entry (claim_all S l s) n ≡ S.entry s n
  claim_all-entry [] s n h = refl
  claim_all-entry ((access, r) ∷ l) s n h =
      let e = claim-entry s access r n h in claim_all-entry l (claim S access r s).0 n (rw e h) ∙ e

  -- A claim that is new leaves its record's file.
  pub claim-file :
      (s : S.State) (access : Access) (r : Record)
      → is_claimed (claim S access r s).1 ≡ true
      → S.entry (claim S access r s).0 (path r) ≡ file (S.dumps (to_payload r))
  unfolding IsClaim
  claim-file s access r h = elim (claim_lem s access r) [
    | inl (same, old) ↦ let clash : true ≡ false = sym h ∙ old in cc
    | inr (moved, new) ↦
        ap (λ x. S.entry x (path r)) moved
        ∙ law.create-created s (path r) (S.dumps (to_payload r)) (sym new ∙ h)
  ]

  file-read :
      (s : S.State) (r : Record)
      → make_record r.entry_kind r.identity_key r.binding_digest ≡ ok r
      → S.entry s (path r) ≡ file (S.dumps (to_payload r))
      → read_unlocked S s r.entry_kind r.identity_key ≡ ok (some r)
  unfolding read_unlocked
  file-read s r v h =
      rw
        (
          h,
          law.loads-dumps (to_payload r),
          from_payload-to_payload r.entry_kind r.identity_key r.binding_digest r v,
          ==_refl (kind_index r.entry_kind),
          eq_refl r.identity_key,
        )
        refl

  claimed-read :
      (s : S.State) (access : Access) (r : Record)
      → make_record r.entry_kind r.identity_key r.binding_digest ≡ ok r
      → is_claimed (claim S access r s).1 ≡ true
      → (l : List (Access × Record))
      → read_unlocked S (claim_all S l (claim S access r s).0) r.entry_kind r.identity_key
        ≡ ok (some r)
  claimed-read s access r v h l =
      let e = claim-file s access r h in
      let kept = claim_all-entry l (claim S access r s).0 (path r) (rw e refl) in
      file-read (claim_all S l (claim S access r s).0) r v (kept ∙ e)

  -- On a system that behaves as documented, where a claim of a constructed record is new, then
  -- whatever claims follow, a read of its kind and identity answers the record, and a claim of them
  -- with any digest changes nothing and answers the record, as already claimed where the digest is
  -- its own and as a conflict otherwise.
  pub claimed_forever :
      (s : S.State) (access : Access) (r : Record)
      → make_record r.entry_kind r.identity_key r.binding_digest ≡ ok r
      → is_claimed (claim S access r s).1 ≡ true
      → (l : List (Access × Record)) (digest : String)
      → (read S granted r.entry_kind r.identity_key (claim_all S l (claim S access r s).0)
          ≡ ok (some r))
        × (claim S granted
              (record r { binding_digest = digest })
              (claim_all S l (claim S access r s).0)
            ≡ (
              claim_all S l (claim S access r s).0,
              answer r (record r { binding_digest = digest }),
            ))
  unfolding read claim answer make_claim
  claimed_forever s access r v h l digest =
      let e = claimed-read s access r v h l in
      (
        rw (make_record-identity r.entry_kind r.identity_key r.binding_digest v, e) refl,
        rw e (ground (arith)),
      )
