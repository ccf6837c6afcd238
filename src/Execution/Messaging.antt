-- ===== src/Execution/Messaging.antt =====
-- src/eag/execution_graph/messaging.py. The dictionary of mailboxes is a function; a mailbox is the
-- list of its messages.
use text.Mathlib.Text.{◌==◌ as str_eq}
use text.Mathlib.TextEquality.{eq_iff}
use eag.Prelude.{
  ◌≡◌, Option, none, some, List, [], ◌∷◌, ◌++◌, String, Result, ok, err, ◌>>=◌, if◌then◌else◌,
  arith, Bool-cases, Option-cases, inl, inr, sym, ap, ◌∙◌,
}
use eag.Workers.Health.{update}

-- `WorkerMessage`
pub record WorkerMessage : Type 0 where
  pub id : String
  pub sender_id : String
  pub receiver_id : String
  pub msg_type : String
  pub content : String

-- The `ValueError` for an unknown worker.
pub data NotRegistered : Type 0 where
  not_registered : String → NotRegistered

abbrev pub MessageRouter : Type 0
MessageRouter = String → Option (List WorkerMessage)

unfoldable pub register : MessageRouter → String → MessageRouter
register r k = elim (r k) [ none ↦ update r k (some []) | some box ↦ r ]

unfoldable pub route : MessageRouter → WorkerMessage → Result NotRegistered MessageRouter
route r m = elim (r m.receiver_id) [
  | none ↦ err (not_registered m.receiver_id)
  | some box ↦ ok (update r m.receiver_id (some (box ++ m ∷ [])))
]

unfoldable pub get_mailbox : MessageRouter → String → Result NotRegistered (List WorkerMessage)
get_mailbox r k = elim (r k) [ none ↦ err (not_registered k) | some box ↦ ok box ]

-- `get_mailbox(worker_id).clear()`
unfoldable pub clear : MessageRouter → String → Result NotRegistered MessageRouter
clear r k = do box ← get_mailbox r k; ok (update r k (some []))

-- The mailbox after a message to a worker.
abbrev pub delivered :
    WorkerMessage
    → String
    → Result NotRegistered (List WorkerMessage)
    → Result NotRegistered (List WorkerMessage)
delivered m k (err e) = err e
delivered m k (ok box) = ok (if str_eq m.receiver_id k then box ++ m ∷ [] else box)

-- A message that is routed comes last in its receiver's mailbox; no other mailbox changes, and no
-- worker becomes or ceases to be registered.
pub route_lem :
    (r : MessageRouter) (m : WorkerMessage) (r' : MessageRouter)
    → route r m ≡ ok r'
    → (k : String) → get_mailbox r' k ≡ delivered m k (get_mailbox r k)
unfolding route get_mailbox
route_lem r m r' e k = elim (Bool-cases (str_eq m.receiver_id k)) [
  | inl same ↦ elim (Option-cases (r m.receiver_id)) [
    | inl none_there ↦ absurd (ground (arith, e, none_there))
    | inr (box, there) ↦
        ground (arith, e, there, same, sym (ap r ((eq_iff m.receiver_id k).0 same)) ∙ there)
  ]
  | inr other ↦ elim (Option-cases (r m.receiver_id)) [
    | inl none_there ↦ absurd (ground (arith, e, none_there))
    | inr (box, there) ↦ elim (Option-cases (r k)) [
      | inl empty ↦ ground (arith, e, there, other, empty)
      | inr (old, held) ↦ ground (arith, e, there, other, held)
    ]
  ]
]
