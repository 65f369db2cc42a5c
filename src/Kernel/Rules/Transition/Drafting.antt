-- ===== src/Kernel/Rules/Transition/Drafting.antt =====
-- `Command::Initiate`, `Command::Propose` and `Command::Assess` of `State::transition`.
use changekernel.Base.{List, [], ◌∷◌, ◌++◌, none, true, ◌||◌, ◌&&◌, Result, ok, reject_if, ◌>>◌}
use changekernel.Base.Order.{◌==◌, ◌!=◌, option_eq}
use changekernel.Base.Lists.{any}
use changekernel.Base.BTreeSet
use changekernel.Base.BTreeSet.{BTreeSet}
use changekernel.Base.BTreeMap.{insert, contains_key, values}
use changekernel.Kernel.Ids.{CriterionId, Error, id_eq, id_ord}
use changekernel.Kernel.Keys.{identity_eq}
use changekernel.Kernel.Model.Terms.{Proposal, Assessment, Criterion, criterion_eq}
use changekernel.Kernel.Model.Grants.{Access, GrantAction}
use changekernel.Kernel.Model.Commands.{Effect}
use changekernel.Kernel.State.{State, Validation}
use changekernel.Kernel.Rules.Lookup.{proposal}
use changekernel.Kernel.Rules.Dependencies.{dependencies_valid}
use changekernel.Kernel.Rules.Roles.{validate_roles}
use changekernel.Kernel.Rules.Permission.{record_access}

unfoldable pub initiate : State → Access → Validation → Result Error (Effect × State)
initiate s access v = do
  reject_if s.initiated Error.conflict
  record_access s access GrantAction.create_draft none v
  ok (Effect.initiated, record s { initiated = true })

abbrev pub all_criteria : List Proposal → List Criterion
all_criteria [] = []
all_criteria (p ∷ ps) = p.terms.criteria ++ all_criteria ps

-- The loop over the criteria of a proposal: each identity once, and never redefined.
unfoldable pub check_criteria :
    List Criterion → BTreeSet CriterionId → List Criterion → Result Error (Unit {0})
check_criteria existing seen [] = ok tt
check_criteria existing seen (c ∷ rest) = do
  reject_if (BTreeSet.contains seen c.id || any (λ old. old.id == c.id && old != c) existing)
      Error.conflict
  check_criteria existing (BTreeSet.insert c.id seen) rest

unfoldable pub propose : State → Proposal → Access → Validation → Result Error (Effect × State)
propose s p access v = do
  record_access s access GrantAction.propose none v
  reject_if (p.identity != s.identity || p.expected_agreement != s.current) Error.stale
  reject_if
      (contains_key s.proposals p.id
        || any (λ old. old.agreement == p.agreement) (values s.proposals))
      Error.conflict
  validate_roles p.terms
  check_criteria (all_criteria (values s.proposals)) [] p.terms.criteria
  dependencies_valid p.dependencies v.grounds
  ok (Effect.proposed p.id, record s { proposals = insert p.id p s.proposals })

unfoldable pub assess : State → Assessment → Access → Validation → Result Error (Effect × State)
assess s a access v = do
  record_access s access GrantAction.assess none v
  proposal s a.proposal
  reject_if (contains_key s.assessments a.id) Error.conflict
  dependencies_valid a.dependencies v.grounds
  ok (Effect.assessed a.id, record s { assessments = insert a.id a s.assessments })
