-- ===== src/Replay/Ledger/Once.antt =====
-- How many claims of one kind and identity on the ledger of src/eag/governed_session/ledger.py are
-- new.
use text.Mathlib.Text.{◌==◌ as str_eq}
use text.Mathlib.TextEquality.{eq_iff}
use eag.Prelude.{
  ◌≡◌, refl, sym, ◌∙◌, ℕ, ◌+◌, ◌≤◌, true, false, ◌&&◌, List, [], ◌∷◌, inl, inr, if◌then◌else◌,
  Bool-cases, arith,
}
use eag.Replay.Record.{Record, same_kind, same_kind→eq, to_payload}
use eag.Replay.Disk.{System, IsSystem, is_absent}
use eag.Replay.Ledger.{Access, claim}
use eag.Replay.Ledger.Claims.{
  is_claimed, same_claim, new_claims, IsClaim, claim_lem, claim-entry, claim-file, path,
}

module _ {S : System} (law : IsSystem S) where
  new-IsAbsent :
      (s : S.State) (access : Access) (r : Record)
      → is_claimed (claim S access r s).1 ≡ true
      → is_absent (S.entry s (path law r)) ≡ true
  unfolding IsClaim
  new-IsAbsent s access r h = elim (Bool-cases (is_absent (S.entry s (path law r)))) [
    | inl vacant ↦ vacant
    | inr taken ↦ elim (claim_lem law s access r) [
      | inl (same, old) ↦ let clash : true ≡ false = sym h ∙ old in cc
      | inr (moved, new) ↦
          let failed = (law.create-present s (path law r) (S.dumps (to_payload r)) taken).1 in
          let clash : true ≡ false = sym h ∙ new ∙ failed in cc
    ]
  ]

  abbrev free : Record → S.State → ℕ
  free r s = if is_absent (S.entry s (path law r)) then 1 else 0

  same_claim-path : (r q : Record) → same_claim r q ≡ true → path law q ≡ path law r
  same_claim-path r q h =
      let kinds : same_kind r.entry_kind q.entry_kind ≡ true = ground (arith, h) in
      let keys : str_eq r.identity_key q.identity_key ≡ true = ground (arith, h) in
      rw
        (
          same_kind→eq r.entry_kind q.entry_kind kinds,
          (eq_iff r.identity_key q.identity_key).0 keys,
        )
        refl

  new-free :
      (r q : Record) (s : S.State) (access : Access)
      → (if same_claim r q && is_claimed (claim S access q s).1 then 1 else 0)
          + free r (claim S access q s).0
        ≤ free r s
  new-free r q s access = elim (Bool-cases (same_claim r q && is_claimed (claim S access q s).1)) [
    | inl new ↦
        let key = same_claim-path r q (ground (arith, new)) in
        let file_there = claim-file law s access q (ground (arith, new)) in
        let vacant = new-IsAbsent s access q (ground (arith, new)) in
        rw (new, ← key, file_there, vacant) (ground arith)
    | inr old ↦ elim (Bool-cases (is_absent (S.entry s (path law r)))) [
      | inl vacant ↦ rw (old, vacant) (ground arith)
      | inr taken ↦ rw (old, claim-entry law s access q (path law r) taken) (ground arith)
    ]
  ]

  new_claims-le :
      (r : Record) (l : List (Access × Record)) (s : S.State) → new_claims S r l s ≤ free r s
  new_claims-le r [] s = omega arith
  new_claims-le r ((access, q) ∷ l) s =
      ground (arith, new-free r q s access, new_claims-le r l (claim S access q s).0)

  -- On a system that behaves as documented, in any sequence of claims, on any directory, at most
  -- one of a kind and an identity is new.
  pub claimed_once :
      (r : Record) (l : List (Access × Record)) (s : S.State) → new_claims S r l s ≤ 1
  claimed_once r l s = ground (arith, new_claims-le r l s)
