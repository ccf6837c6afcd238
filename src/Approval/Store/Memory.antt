-- ===== src/Approval/Store/Memory.antt =====
-- `InMemoryApprovalStore`: a dictionary in the order of insertion.
use text.Mathlib.Text.{◌==◌ as str_eq}
use text.Mathlib.TextEquality.{eq_iff}
use text.Mathlib.TextPositions.{eq_refl}
use eag.Prelude.{
  ◌≡◌, refl, sym, ◌∙◌, ap, Bool, true, false, Option, none, some, List, [], ◌∷◌, String, Result, ok,
  err, keep, all, inl, inr, arith, Bool-cases, if◌then◌else◌, ok-injective, err-injective,
}
use eag.Approval.Models.{
  ApprovalStatus, ApprovalRequest, ApprovalError, same_status, not_found, already_exists,
  id_mismatch,
}
use eag.Approval.Store.{ApprovalStore, IsUpdate, IsLawful}

abbrev pub Requests : Type 0 → Type 0
Requests Command = List (String × ApprovalRequest Command)

module _ {Command : Type 0} where
  unfoldable pub get : Requests Command → String → Result ApprovalError (ApprovalRequest Command)
  get [] k = err (not_found k)
  get ((j, r) ∷ d) k = if str_eq j k then ok r else get d k

  -- `requests[k] = r`: in place, or at the end.
  unfoldable pub put : String → ApprovalRequest Command → Requests Command → Requests Command
  put k r [] = (k, r) ∷ []
  put k r ((j, q) ∷ d) = let rest = put k r d in if str_eq j k then (j, r) ∷ d else (j, q) ∷ rest

  unfoldable pub add :
      Requests Command → ApprovalRequest Command → Result ApprovalError (Requests Command)
  add d r = elim (get d r.id) [ ok old ↦ err (already_exists r.id) | err e ↦ ok (put r.id r d) ]

  unfoldable pub save :
      Requests Command → ApprovalRequest Command → Result ApprovalError (Requests Command)
  save d r = elim (get d r.id) [ ok old ↦ ok (put r.id r d) | err e ↦ err (not_found r.id) ]

  abbrev values : Requests Command → List (ApprovalRequest Command)
  values [] = []
  values ((k, r) ∷ d) = r ∷ values d

  unfoldable pub list : Requests Command → Option ApprovalStatus → List (ApprovalRequest Command)
  list d none = values d
  list d (some status) = keep (λ r. same_status r.status status) (values d)

  unfoldable pub transition :
      Requests Command
      → String
      → ApprovalStatus
      → ApprovalRequest Command
      → Result ApprovalError (Requests Command × Bool)
  transition d k expected replacement = elim (get d k) [
    | err e ↦ err (not_found k)
    | ok current ↦
        if str_eq replacement.id k
        then if same_status current.status expected
          then ok (put k replacement d, true)
          else ok (d, false)
        else err id_mismatch
  ]

-- Each key is its request's identifier.
abbrev pub is_keyed : {Command : Type 0} → Requests Command → Bool
is_keyed d = all (λ e. str_eq e.1.id e.0) d

abbrev pub in_memory_store : (Command : Type 0) → ApprovalStore Command
in_memory_store Command = record {
  State = Requests Command;
  add = add;
  get = get;
  save = save;
  list = list;
  transition = transition;
}

module _ {Command : Type 0} where
  get-put :
      (d : Requests Command) (k : String) (r : ApprovalRequest Command) (j : String)
      → get (put k r d) j ≡ (if str_eq j k then ok r else get d j)
  unfolding get put
  get-put [] k r j = ground (arith, eq_iff j k, eq_iff k j)
  get-put ((i, q) ∷ d) k r j = elim (Bool-cases (str_eq i k)) [
    | inl h ↦
        let e : i ≡ k = (eq_iff i k).0 h in ground (arith, e, eq_iff j k, eq_iff k j, eq_iff i j)
    | inr h ↦
        ground
          (arith, h, eq_iff i k, eq_iff i j, eq_iff j i, eq_iff j k, eq_iff k j, get-put d k r j)
  ]

  get-is_keyed :
      (d : Requests Command) (k : String) (r : ApprovalRequest Command)
      → is_keyed d ≡ true
      → get d k ≡ ok r
      → r.id ≡ k
  unfolding get
  get-is_keyed [] k r v h = cc
  get-is_keyed ((j, q) ∷ d) k r v h = elim (Bool-cases (str_eq j k)) [
    | inl same ↦
        let e : q ≡ r = ok-injective (sym (rw (same, if◌then◌else◌) refl) ∙ h) in
        let keyed : str_eq q.id j ≡ true = ground (arith, v) in
        ap (λ x. x.id) (sym e) ∙ (eq_iff q.id j).0 keyed ∙ (eq_iff j k).0 same
    | inr other ↦ get-is_keyed d k r (ground (arith, v)) (sym (rw other refl) ∙ h)
  ]

  put-is_keyed :
      (d : Requests Command) (r : ApprovalRequest Command)
      → is_keyed d ≡ true
      → is_keyed (put r.id r d) ≡ true
  unfolding put
  put-is_keyed [] r v = ground (arith, eq_refl r.id)
  put-is_keyed ((j, q) ∷ d) r v = ground (arith, v, put-is_keyed d r, eq_iff r.id j, eq_iff j r.id)

  get-err :
      (d : Requests Command) (k : String) (e : ApprovalError) → get d k ≡ err e → e ≡ not_found k
  unfolding get
  get-err [] k e h = sym (err-injective h)
  get-err ((j, q) ∷ d) k e h = elim (Bool-cases (str_eq j k)) [
    | inl same ↦ let clash = rw same at h in cc
    | inr other ↦ get-err d k e (rw other at h)
  ]

  put-IsUpdate :
      (d : Requests Command) (r : ApprovalRequest Command)
      → is_keyed d ≡ true
      → IsUpdate (in_memory_store Command) (λ s. is_keyed s ≡ true) d r (put r.id r d)
  put-IsUpdate d r v = record { valid = put-is_keyed d r v; held = get-put d r.id r }

  pub in_memory_store-IsLawful : IsLawful (in_memory_store Command) (λ s. is_keyed s ≡ true)
  unfolding add save transition
  in_memory_store-IsLawful = record {
    get-id = λ s k r v h. get-is_keyed s k r v h;
    get-missing = λ s k e h. get-err s k e h;
    add-present = λ s r old h. rw (h, add) refl;
    add-missing = λ s r e v h. (put r.id r s, rw (h, add, save) refl, put-IsUpdate s r v);
    save-present = λ s r old v h. (put r.id r s, rw (h, add, save) refl, put-IsUpdate s r v);
    transition-applied = λ s expected r old v h q.
        (put r.id r s, rw (h, transition, eq_refl r.id, q) refl, put-IsUpdate s r v);
    transition-refused = λ s expected r old h q. rw (h, transition, eq_refl r.id, q) refl;
  }
