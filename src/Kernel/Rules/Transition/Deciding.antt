-- ===== src/Kernel/Rules/Transition/Deciding.antt =====
-- `Command::Decide`, `Command::Retract` and `Command::Reaffirm` of `State::transition`. The first and
-- the last write the decision before they activate, so they return an `Outcome`.
use changekernel.Base.{
  List, [], Option, none, some, Bool, true, false, ◌||◌, ◌&&◌, not, Result, ok, err, reject_if,
  ok_or, ◌>>=◌, ◌>>◌,
}
use changekernel.Base.Order.{◌==◌, ◌!=◌, option_eq}
use changekernel.Base.Lists.{any}
use changekernel.Base.BTreeSet.{BTreeSet, collect, extend}
use changekernel.Base.BTreeMap.{get, insert, contains_key, values}
use changekernel.Kernel.Ids.{
  ProposalId, AgreementId, AssessmentId, DecisionId, Error, id_eq, id_ord,
}
use changekernel.Kernel.Keys.{ContentKey, content_key_ord}
use changekernel.Kernel.Model.Terms.{Dependency, Decision, DecisionKind}
use changekernel.Kernel.Model.Commands.{Effect}
use changekernel.Kernel.State.{State, Validation, EffectiveDecision}
use changekernel.Kernel.Rules.Lookup.{proposal, assessment, decision, party, nonempty}
use changekernel.Kernel.Rules.Dependencies.{decision_dependencies, dependencies_valid}
use changekernel.Kernel.Rules.Activation.{Outcome, activate}

-- `std::mem::discriminant(a) == std::mem::discriminant(b)`
abbrev pub same_kind : DecisionKind → DecisionKind → Bool
same_kind DecisionKind.adopt DecisionKind.adopt = true
same_kind (DecisionKind.undertake _) (DecisionKind.undertake _) = true
same_kind _ _ = false

unfoldable pub kind_blockers : State → DecisionKind → Result Error (BTreeSet ContentKey)
kind_blockers s DecisionKind.adopt = ok []
kind_blockers s (DecisionKind.undertake id) = do a ← assessment s id; ok (collect a.blockers)

abbrev pub effective : Decision → Validation → BTreeSet ContentKey → EffectiveDecision
effective d v blockers = record {
  decision = d;
  actor = v.authority.actor;
  retracted = false;
  matched = false;
  blockers = blockers;
}

-- `Command::Decide` up to the insertion of the decision.
unfoldable pub enter_decision : State → Decision → Validation → Result Error State
enter_decision s d v = do
  party s d.kind v.authority
  p ← proposal s d.proposal
  nonempty p.terms.binding
  reject_if (p.expected_agreement != s.current) Error.stale
  reject_if
      (contains_key s.decisions d.id
        || any
            (λ old.
              not old.retracted
              && (old.decision.proposal == d.proposal && same_kind old.decision.kind d.kind))
            (values s.decisions))
      Error.conflict
  dependencies_valid d.dependencies v.grounds
  deps ← decision_dependencies s d
  dependencies_valid deps v.grounds
  blockers ← kind_blockers s d.kind
  ok (record s { decisions = insert d.id (effective d v blockers) s.decisions })

abbrev pub conclude_with :
    (Option AgreementId → Effect) → Outcome (Option AgreementId) → Outcome Effect
conclude_with effect (ok activated, s) = (ok (effect activated), s)
conclude_with effect (err e, s) = (err e, s)

unfoldable pub decide : State → Decision → Validation → Outcome Effect
decide s d v = elim (enter_decision s d v) [
  | err e ↦ (err e, s)
  | ok s' ↦ conclude_with (Effect.decision d.id) (activate s' d.proposal v)
]

unfoldable pub retract : State → DecisionId → Validation → Result Error (Effect × State)
retract s id v = do
  d ← decision s id
  party s d.decision.kind v.authority
  reject_if (d.actor != v.authority.actor || (d.retracted || d.matched)) Error.conflict
  d' ← ok_or (get s.decisions id) Error.invalid
  ok (
    Effect.retracted id,
    record s { decisions = insert id (record d' { retracted = true }) s.decisions },
  )

-- The `match` on the old kind and the new assessment.
unfoldable pub renewed_kind : DecisionKind → Option AssessmentId → Result Error DecisionKind
renewed_kind DecisionKind.adopt none = ok DecisionKind.adopt
renewed_kind (DecisionKind.undertake _) (some id) = ok (DecisionKind.undertake id)
renewed_kind _ _ = err Error.invalid

-- A ground of `previous` that `next` no longer has.
abbrev pub drops_ground : List Dependency → List Dependency → Bool
drops_ground previous next =
    any (λ d. not (any (λ n. n.ground_fact == d.ground_fact) next)) previous

-- `Command::Reaffirm` up to the write of the decision. It returns the proposal to activate too.
unfoldable pub renew_decision :
    State
    → DecisionId
    → List Dependency
    → Option AssessmentId
    → Validation
    → Result Error (ProposalId × State)
renew_decision s id dependencies assessed v = do
  old ← decision s id
  party s old.decision.kind v.authority
  reject_if (old.actor != v.authority.actor || old.retracted) Error.denied
  p ← proposal s old.decision.proposal
  reject_if (s.current != some p.agreement && p.expected_agreement != s.current) Error.stale
  kind ← renewed_kind old.decision.kind assessed
  let renewed = record (old.decision) { dependencies = dependencies; kind = kind }
  previous ← decision_dependencies s old.decision
  next ← decision_dependencies s renewed
  reject_if (drops_ground previous next) Error.invalid
  dependencies_valid next v.grounds
  blockers ← kind_blockers s kind
  e ← ok_or (get s.decisions id) Error.invalid
  let e' = record e { blockers = extend e.blockers blockers; decision = renewed }
  ok (old.decision.proposal, record s { decisions = insert id e' s.decisions })

unfoldable pub reaffirm :
    State → DecisionId → List Dependency → Option AssessmentId → Validation → Outcome Effect
reaffirm s id dependencies assessed v = elim (renew_decision s id dependencies assessed v) [
  | err e ↦ (err e, s)
  | ok (p, s') ↦ conclude_with (Effect.reaffirmed id) (activate s' p v)
]
