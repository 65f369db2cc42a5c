-- ===== src/Kernel/Rules/Transition/Settling.antt =====
-- `Command::Fulfill` and `Command::Withdraw` of `State::transition`.
use changekernel.Base.{
  List, [], ◌∷◌, some, Bool, ◌||◌, ◌&&◌, not, Result, ok, reject_if, ◌>>=◌, ◌>>◌,
}
use changekernel.Base.Order.{◌==◌, ◌!=◌, list_eq, nat_eq}
use changekernel.Base.Lists.{any, is_empty, length}
use changekernel.Base.BTreeSet.{collect}
use changekernel.Base.BTreeMap.{values}
use changekernel.Kernel.Ids.{CriterionId, Error, id_eq, id_ord}
use changekernel.Kernel.Keys.{ContentKey, content_key_eq}
use changekernel.Kernel.Model.Actions.{
  Action, ActionPhase, CriterionEvidence, Resolution, Fulfillment, phase_eq,
}
use changekernel.Kernel.Model.Commands.{Effect, Settlement}
use changekernel.Kernel.State.{State, Validation}
use changekernel.Kernel.Rules.Lookup.{owner, proposal, agreement}
use changekernel.Kernel.Rules.Dependencies.{current_grounds}
use changekernel.Kernel.Rules.Transition.Reporting.{criterion_ids}

abbrev pub provided_ids : List CriterionEvidence → List CriterionId
provided_ids [] = []
provided_ids (c ∷ cs) = c.criterion ∷ provided_ids cs

-- A resolution with evidence discharges the blocker.
abbrev pub resolved : List Resolution → ContentKey → Bool
resolved resolutions b = any (λ r. r.blocker == b && not (is_empty r.evidence)) resolutions

abbrev pub in_flight : List Action → Bool
in_flight actions = any (λ a. a.phase == ActionPhase.dispatched) actions

unfoldable pub fulfill : State → Fulfillment → Validation → Result Error (Effect × State)
fulfill s f v = do
  owner s v.authority
  current_grounds s f.agreement v
  a ← agreement s f.agreement
  p ← proposal s a.proposal
  let criteria = collect (criterion_ids p.terms.criteria)
  let provided = collect (provided_ids f.criteria)
  reject_if
      (is_empty criteria
        || (criteria != provided
            || (length provided != length f.criteria || any (λ c. is_empty c.evidence) f.criteria)))
      Error.invalid
  reject_if (any (λ b. not (resolved f.resolutions b)) a.blockers || in_flight (values s.actions))
      Error.conflict
  let settled = Settlement.fulfilled f.agreement
  ok (Effect.settled settled, record s { settlement = some settled })

unfoldable pub withdraw : State → Validation → Result Error (Effect × State)
withdraw s v = do
  owner s v.authority
  ok (Effect.settled Settlement.withdrawn, record s { settlement = some Settlement.withdrawn })
