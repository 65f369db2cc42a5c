-- ===== src/Kernel/Rules/Transition/Reporting.antt =====
-- `Command::Finding`, `Command::Adapt` and `Command::Progress` of `State::transition`. They check and
-- leave the state as it is: what they report is kept in the history alone.
use changekernel.Base.{
  List, [], ◌∷◌, Option, none, some, Bool, true, false, ◌||◌, ◌&&◌, not, Result, ok, err, reject_if,
  ok_or, ◌>>=◌, ◌>>◌, is_none,
}
use changekernel.Base.Lists.{is_empty}
use changekernel.Base.BTreeSet.{collect, is_subset}
use changekernel.Kernel.Ids.{AgreementId, CriterionId, Error, id_ord}
use changekernel.Kernel.Keys.{content_reference_ord}
use changekernel.Kernel.Model.Terms.{Criterion}
use changekernel.Kernel.Model.Grants.{Access, GrantAction}
use changekernel.Kernel.Model.Actions.{Finding, Adaptation, Progress, ChangeBasis}
use changekernel.Kernel.Model.Commands.{Effect}
use changekernel.Kernel.State.{State, Validation, ScopeJudgment}
use changekernel.Kernel.Rules.Lookup.{proposal, agreement, nonempty}
use changekernel.Kernel.Rules.Dependencies.{current_grounds}
use changekernel.Kernel.Rules.Roles.{statements}
use changekernel.Kernel.Rules.Permission.{record_access}

abbrev pub optional_grounds : State → Option AgreementId → Validation → Result Error (Unit {0})
optional_grounds s none v = ok tt
optional_grounds s (some a) v = current_grounds s a v

unfoldable pub finding : State → Finding → Access → Validation → Result Error (Effect × State)
finding s f access v = do
  optional_grounds s f.agreement v
  record_access s access GrantAction.finding f.agreement v
  nonempty f.evidence
  ok (Effect.recorded, s)

-- The `match` on the judgment of scope.
unfoldable pub in_scope : ScopeJudgment → Result Error (Unit {0})
in_scope (ScopeJudgment.within_discretion _) = ok tt
in_scope ScopeJudgment.requires_revision = err Error.needs_revision
in_scope ScopeJudgment.unavailable = err Error.unavailable

unfoldable pub adapt : State → Adaptation → Access → Validation → Result Error (Effect × State)
unfolding in_scope
adapt s a access v = do
  current_grounds s a.agreement v
  record_access s access GrantAction.adapt (some a.agreement) v
  nonempty a.grounds
  judgment ← ok_or v.scope Error.unavailable
  in_scope judgment
  ok (Effect.recorded, s)

abbrev pub criterion_ids : List Criterion → List CriterionId
criterion_ids [] = []
criterion_ids (c ∷ cs) = c.id ∷ criterion_ids cs

abbrev pub revises_targets : ChangeBasis → Bool
revises_targets ChangeBasis.revised_targets = true
revises_targets _ = false

unfoldable pub progress : State → Progress → Access → Validation → Result Error (Effect × State)
progress s p access v = do
  current_grounds s p.agreement v
  record_access s access GrantAction.progress (some p.agreement) v
  nonempty p.evidence
  a ← agreement s p.agreement
  q ← proposal s a.proposal
  let terms = collect (statements q.terms.binding)
  let criteria = collect (criterion_ids q.terms.criteria)
  reject_if
      (is_empty p.terms || (not (is_subset p.terms terms) || not (is_subset p.criteria criteria)))
      Error.invalid
  reject_if (revises_targets p.basis && is_none q.expected_agreement) Error.invalid
  ok (Effect.recorded, s)
