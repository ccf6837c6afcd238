-- ===== src/GovernedExecution/Machine/Publishing.antt =====
-- The events that a transition hands to the bus, whatever its handlers do.
use eag.Prelude.{
  none, not, is_empty, any, ℕ, ◌≡◌, refl, ap, ◌∙◌, Bool, true, false, Option, some, List, [], ◌∷◌,
  ◌++◌, arith, ◌&&◌, ok, Bool-cases, inl, inr,
}
use eag.GovernedExecution.State.{State, created, StopReason, is_terminal, same_state}
use eag.GovernedExecution.Reason.{validate_terminal_stop_reason, terminal-reason}
use eag.GovernedExecution.Budget
use eag.GovernedExecution.Ledger.{Evidence, Record, Context, make_context}
use eag.GovernedExecution.Ledger.{final}
use eag.GovernedExecution.Ledger.Walks.{final-append}
use eag.GovernedExecution.Ledger.Validation.{make_context-IsGenuine}
use eag.GovernedExecution.Machine.{charge, next_record, attempt, TransitionResult}
use eag.GovernedExecution.Machine.Charging.{IsValid}
use eag.GovernedExecution.Budget.{
  consume_iteration_lem, consume_mutation_lem, consume_verification_lem,
}
use eag.GovernedExecution.Ledger.Validation.{make_context-IsGenuine}
use eag.GovernedExecution.Machine.{
  Event, started, stopped, Bus, observations, deliver, publish, publish_last, transition, Bus,
}
use eag.GovernedExecution.Machine.Transitions.{attempt-accepted, successor, charged_reason}

-- The kinds of event in what a transition published.
abbrev pub is_started : Event → Bool
is_started (started _ _ _) = true
is_started _ = false

abbrev pub is_stopped : Event → Bool
is_stopped (stopped _ _ _ _) = true
is_stopped _ = false

abbrev pub has_bus : Option Bus → Bool
has_bus none = false
has_bus (some bus) = true

abbrev pub quiet : Bus
quiet e = true

deliver-quiet : (es : List Event) → deliver quiet es ≡ es
unfolding deliver
deliver-quiet [] = refl
deliver-quiet (e ∷ es) = ap (λ l. e ∷ l) (deliver-quiet es)

publish-last :
    (previous current : Context) (rs : List Record) (r : Record)
    → current.history ≡ rs ++ r ∷ []
    → publish (some quiet) previous current ≡ observations previous current r
unfolding publish publish_last
publish-last previous current [] r e =
    rw (e, publish_last) (deliver-quiet (observations previous current r))
publish-last previous current (s ∷ rs) r e =
    rw (e, publish_last)
      (deliver-quiet (observations previous current (final s (rs ++ r ∷ [])))
        ∙ ap (observations previous current) (final-append s r rs))

-- The observations of the last record go to the bus, where there is one.
abbrev sent : Option Bus → List Event → List Event
sent none es = []
sent (some bus) es = deliver bus es

publish-sent :
    (bus : Option Bus) (previous current : Context) (rs : List Record) (r : Record)
    → current.history ≡ rs ++ r ∷ []
    → publish bus previous current ≡ sent bus (observations previous current r)
unfolding publish publish_last
publish-sent none previous current rs r e = refl
publish-sent (some bus) previous current [] r e = rw (e, publish_last) refl
publish-sent (some bus) previous current (s ∷ rs) r e =
    rw (e, publish_last)
      (ap (λ q. deliver bus (observations previous current q)) (final-append s r rs))

-- The start comes first, so it is handed over whatever the handlers do.
started-sent :
    (bus : Option Bus) (previous current : Context) (r : Record)
    → any is_started (sent bus (observations previous current r))
      ≡ (has_bus bus && same_state previous.state created)
unfolding observations deliver
started-sent none previous current r = refl
started-sent (some bus) previous current r = ground arith

stopped-sent :
    (bus : Option Bus) (es : List Event)
    → (any is_stopped (sent bus es) && not (any is_stopped es)) ≡ false
unfolding deliver
stopped-sent none es = refl
stopped-sent (some bus) [] = refl
stopped-sent (some bus) (e ∷ es) = ground (arith, stopped-sent (some bus) es)

stopped-observations :
    (previous current : Context) (r : Record)
    → validate_terminal_stop_reason current.state current.stop_reason ≡ ok tt
    → any is_stopped (observations previous current r) ≡ is_terminal current.state
unfolding observations
stopped-observations previous current r fits = ground (arith, terminal-reason current.state)

-- What a transition publishes on a bus.
module _ (now : ℕ) (c : Context) (target : State) (evidence : List Evidence)
    (stop_reason : Option StopReason) where
  abbrev pub outcome : TransitionResult
  outcome = attempt now c target evidence stop_reason

  abbrev pub events : Option Bus → List Event
  events bus = (transition bus now c target evidence stop_reason).1

  -- For an accepted context with a valid budget: where there is a bus, and only there, a transition
  -- hands a start over exactly when it is accepted from `created`, whatever the handlers do. It
  -- hands a stop over only when it is accepted into a terminal state, and exactly then where the
  -- handlers return. It hands over nothing if it is rejected.
  pub published_exact :
      (bus : Option Bus)
      → make_context c ≡ ok c
      → Budget.IsValid c.budget
      → (any is_started (events bus)
          ≡ (outcome.accepted && (has_bus bus && same_state c.state created)))
        × ((any is_stopped (events bus)
              && not (outcome.accepted && is_terminal outcome.context.state))
            ≡ false)
        × (any is_stopped (events (some quiet))
            ≡ (outcome.accepted && is_terminal outcome.context.state))
        × ((not outcome.accepted && not (is_empty (events bus))) ≡ false)
  unfolding transition
  published_exact bus made within =
      let v : IsValid c = record {
        genuine = (make_context-IsGenuine c c made).0;
        within = within;
      } in
      elim (Bool-cases (attempt now c target evidence stop_reason).accepted) [
        | inl good ↦
            let (legal, fits, e) = attempt-accepted now c v target evidence stop_reason good in
            let s = successor now c v target evidence stop_reason in
            let r =
              next_record now c (charge c target) evidence
                (charged_reason now c v target evidence stop_reason) in
            let shown = publish-last c s c.history r refl in
            let heard = publish-sent bus c s c.history r refl in
            let stops = stopped-observations c s r fits in
            (
              rw (good, e) (ap (any is_started) heard ∙ started-sent bus c s r),
              rw (good, e, heard) (ground (arith, stopped-sent bus (observations c s r), stops)),
              rw (good, e) (ap (any is_stopped) shown ∙ stops),
              rw good,
            )
        | inr bad ↦ (rw bad, rw bad, rw bad, rw bad)
      ]
