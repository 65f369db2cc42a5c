-- ===== src/Guarantees/Rejections/Unchanged.antt =====
-- A rejected command leaves the state as it was, although `Decide` and `Reaffirm` write the decision
-- before `State::activate` runs.
use changekernel.Base.{◌≡◌, refl, Option, false, ok, err, arith, List, inl, inr, Result-cases}
use changekernel.Kernel.Ids.{AssessmentId, DecisionId, ProposalId, Error, id_eq, id_ord}
use changekernel.Kernel.Keys.{Identity}
use changekernel.Kernel.Model.Terms.{Decision, Dependency}
use changekernel.Kernel.Model.Commands.{Command}
use changekernel.Kernel.State.{State, Validation, try_new}
use changekernel.Kernel.Rules.Lookup.{proposal, is_settled}
use changekernel.Kernel.Rules.Transition.{allowed_when_settled, entry, perform, transition}
use changekernel.Kernel.Rules.Transition.Deciding.{decide, reaffirm, enter_decision, renew_decision}
use changekernel.Kernel.Rules.Writes.Decisions.{
  enter_decision_writes, enter_decision_ready, renew_decision_writes, renew_decision_ready,
}
use changekernel.Kernel.Rules.Writes.Computed.{
  IsComputed, enter_decision-IsComputed, renew_decision-IsComputed,
}
use changekernel.Kernel.Rules.Writes.Steps.{commit_err, Reach}
use changekernel.Guarantees.Consent.{IsConsented}
use changekernel.Guarantees.Consent.Histories.{
  decided-IsConsented, renewed-IsConsented, history-IsConsented,
}
use changekernel.Guarantees.Rejections.Computed.{history-IsComputed}
use changekernel.Guarantees.Rejections.Activation.{Activates, activate_returns}

module _ (s : State) (v : Validation) (consented : IsConsented s) (computed : IsComputed s)
    (open_change : is_settled s ≡ false) where
  entered-Activates :
      (d : Decision) (s' : State) → enter_decision s d v ≡ ok s' → Activates s' d.proposal v
  unfolding proposal
  entered-Activates d s' q =
      let (b, _, w, n, r) = enter_decision_writes s v d q in
      let (p, deps, f, g, x) = enter_decision_ready s v d q in
      activate_returns s' (decided-IsConsented s s' d v b w n r consented)
        (enter_decision-IsComputed s v d q computed) d.proposal v p (ground arith)
        (inr (ground arith)) (ground arith)

  renewed-Activates :
      (id : DecisionId) (deps : List Dependency) (renewed : Option AssessmentId) (p : ProposalId)
      (s' : State)
      → renew_decision s id deps renewed v ≡ ok (p, s')
      → Activates s' p v
  unfolding proposal
  renewed-Activates id deps renewed p s' q =
      let (old, kind, b, _, _, _, w, _) = renew_decision_writes s v id deps renewed q in
      let (x, f, g) = renew_decision_ready s v id deps renewed q in
      activate_returns s' (renewed-IsConsented s s' id deps renewed v p q consented)
        (renew_decision-IsComputed s v id deps renewed q computed) p v x (ground arith) (rw w g)
        (ground arith)

  decide_unchanged : (d : Decision) (e : Error) (t : State) → decide s d v ≡ (err e, t) → t ≡ s
  unfolding decide
  decide_unchanged d e t h = elim (Result-cases (enter_decision s d v)) [
    | inr (x, q) ↦ ground arith
    | inl (s', q) ↦ let (o, u, k) = entered-Activates d s' q in absurd (ground arith)
  ]

  reaffirm_unchanged :
      (id : DecisionId) (deps : List Dependency) (renewed : Option AssessmentId) (e : Error)
      (t : State)
      → reaffirm s id deps renewed v ≡ (err e, t)
      → t ≡ s
  unfolding reaffirm
  reaffirm_unchanged id deps renewed e t h =
      elim (Result-cases (renew_decision s id deps renewed v)) [
        | inr (x, q) ↦ ground arith
        | inl ((p, s'), q) ↦
            let (o, u, k) = renewed-Activates id deps renewed p s' q in absurd (ground arith)
      ]

open_to :
    (s : State) (c : Command) (v : Validation)
    → allowed_when_settled c ≡ false
    → entry s c v ≡ ok tt
    → is_settled s ≡ false
unfolding entry
open_to s c v h e = ground arith

perform_unchanged :
    (s t : State) (e : Error) (c : Command) (v : Validation)
    → IsConsented s
    → IsComputed s
    → entry s c v ≡ ok tt
    → perform s c v ≡ (err e, t)
    → t ≡ s
unfolding perform allowed_when_settled
perform_unchanged s t e (Command.decide d) v k l x h =
    decide_unchanged s v k l (open_to s (Command.decide d) v refl x) d e t h
perform_unchanged s t e (Command.reaffirm id deps renewed) v k l x h =
    reaffirm_unchanged s v k l (open_to s (Command.reaffirm id deps renewed) v refl x) id deps
      renewed e t h
perform_unchanged s t e (Command.initiate _ access) v k l x h = commit_err s _ h
perform_unchanged s t e (Command.propose p access) v k l x h = commit_err s _ h
perform_unchanged s t e (Command.assess a access) v k l x h = commit_err s _ h
perform_unchanged s t e (Command.retract id) v k l x h = commit_err s _ h
perform_unchanged s t e (Command.set_grant id expected spec) v k l x h = commit_err s _ h
perform_unchanged s t e (Command.revoke_grant id expected) v k l x h = commit_err s _ h
perform_unchanged s t e (Command.admit a) v k l x h = commit_err s _ h
perform_unchanged s t e (Command.dispatch id) v k l x h = commit_err s _ h
perform_unchanged s t e (Command.finding f access) v k l x h = commit_err s _ h
perform_unchanged s t e (Command.adapt a access) v k l x h = commit_err s _ h
perform_unchanged s t e (Command.progress p access) v k l x h = commit_err s _ h
perform_unchanged s t e (Command.fulfill f) v k l x h = commit_err s _ h
perform_unchanged s t e (Command.withdraw _) v k l x h = commit_err s _ h
perform_unchanged s t e (Command.reconcile action used evidence outcome) v k l x h =
    commit_err s _ h

-- In every state that a history of accepted operations reaches from a new Change, a rejected command
-- leaves the state exactly as it was, whatever the command and its error.
pub rejected_unchanged :
    (i : Identity) (s t u : State) (c : Command) (v : Validation) (e : Error)
    → try_new i ≡ ok s
    → Reach s t
    → transition t c v ≡ (err e, u)
    → u ≡ t
unfolding transition
rejected_unchanged i s t u c v e h path rejected = elim (Result-cases (entry t c v)) [
  | inr (x, q) ↦ ground arith
  | inl (x, q) ↦
      perform_unchanged t u e c v (history-IsConsented i s t h path)
        (history-IsComputed i s t h path) (ground arith) (ground arith)
]
