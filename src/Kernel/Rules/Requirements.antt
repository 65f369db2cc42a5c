-- ===== src/Kernel/Rules/Requirements.antt =====
-- `State::requirements`: the contents and the grounds that a command has to have resolved (rules.rs).
-- The two sets that the source passes as `&mut` are the fields of `Needs`.
use changekernel.Base.{
  List, [], ◌∷◌, ◌++◌, Option, none, some, ◌&&◌, not, Result, ok, ok_or, ◌>>=◌, ◌>>◌,
}
use changekernel.Base.Order.{◌==◌}
use changekernel.Base.Lists.{filter}
use changekernel.Base.BTreeSet.{BTreeSet, extend}
use changekernel.Base.BTreeMap.{get, values}
use changekernel.Kernel.Ids.{ProposalId, AgreementId, AssessmentId, GroundId, Error, id_eq, id_ord}
use changekernel.Kernel.Keys.{ContentKey, content_key_ord}
use changekernel.Kernel.Content.{OriginSelector}
use changekernel.Kernel.Model.Terms.{Dependency, Decision, DecisionKind, Evidence, Assessment}
use changekernel.Kernel.Model.Actions.{CriterionEvidence, Resolution}
use changekernel.Kernel.Model.Commands.{Command}
use changekernel.Kernel.State.{State, EffectiveDecision}
use changekernel.Kernel.Rules.Lookup.{proposal, assessment, decision, agreement}
use changekernel.Kernel.Rules.Roles.{
  terms_content_items, assessment_content_items, evidence_content_items,
}
use changekernel.Kernel.Rules.Origins.{validate_origin_selectors}

pub record Needs : Type 0 where
  pub content_items : BTreeSet ContentKey
  pub grounds : BTreeSet GroundId

abbrev pub no_needs : Needs
no_needs = record { content_items = []; grounds = [] }

abbrev pub grounds_of : List Dependency → List GroundId
grounds_of [] = []
grounds_of (d ∷ ds) = d.ground_fact ∷ grounds_of ds

-- `content_items.extend(keys)`
abbrev pub need_keys : List ContentKey → Needs → Needs
need_keys keys n = record n { content_items = extend n.content_items keys }

-- `grounds.extend(deps.iter().map(|d| d.ground.clone()))`
abbrev pub need_grounds : List Dependency → Needs → Needs
need_grounds deps n = record n { grounds = extend n.grounds (grounds_of deps) }

abbrev pub need_evidence : List Evidence → Needs → Needs
need_evidence es n = record n { content_items = evidence_content_items es n.content_items }

abbrev pub need_assessment : Assessment → Needs → Needs
need_assessment a n =
    need_grounds a.dependencies
      (record n { content_items = assessment_content_items a n.content_items })

unfoldable pub proposal_requirements : State → ProposalId → Needs → Result Error Needs
proposal_requirements s id n = do
  p ← proposal s id
  ok (
      need_grounds p.dependencies
        (record n { content_items = terms_content_items p.terms n.content_items }))

unfoldable pub kind_requirements : State → DecisionKind → Needs → Result Error Needs
kind_requirements s DecisionKind.adopt n = ok n
kind_requirements s (DecisionKind.undertake id) n = do a ← assessment s id; ok (need_assessment a n)

unfoldable pub decision_requirements : State → Decision → Needs → Result Error Needs
unfolding kind_requirements
decision_requirements s d n = do
  n' ← proposal_requirements s d.proposal n
  kind_requirements s d.kind (need_grounds d.dependencies n')

unfoldable pub agreement_requirements : State → AgreementId → Needs → Result Error Needs
agreement_requirements s id n = do
  a ← agreement s id
  adoption ← decision s a.adoption
  n' ← decision_requirements s adoption.decision (need_keys a.blockers n)
  undertaking ← decision s a.undertaking
  decision_requirements s undertaking.decision n'

-- `for old in self.decisions.values().filter(..)`
unfoldable pub decisions_requirements : State → List EffectiveDecision → Needs → Result Error Needs
decisions_requirements s [] n = ok n
decisions_requirements s (old ∷ rest) n = do
  n' ← decision_requirements s old.decision n
  decisions_requirements s rest n'

abbrev pub live_decisions : State → ProposalId → List EffectiveDecision
live_decisions s p = filter (λ d. not d.retracted && d.decision.proposal == p) (values s.decisions)

abbrev pub historical_contents : List OriginSelector → List ContentKey
historical_contents [] = []
historical_contents (OriginSelector.current_grant ∷ rest) = historical_contents rest
historical_contents (OriginSelector.historical origin ∷ rest) =
    origin.binding.content ∷ historical_contents rest

unfoldable pub renewal_requirements : State → Option AssessmentId → Needs → Result Error Needs
renewal_requirements s none n = ok n
renewal_requirements s (some id) n = do a ← assessment s id; ok (need_assessment a n)

unfoldable pub optional_agreement : State → Option AgreementId → Needs → Result Error Needs
optional_agreement s none n = ok n
optional_agreement s (some a) n = agreement_requirements s a n

abbrev pub need_criteria : List CriterionEvidence → Needs → Needs
need_criteria [] n = n
need_criteria (c ∷ cs) n = need_criteria cs (need_evidence c.evidence n)

abbrev pub need_resolutions : List Resolution → Needs → Needs
need_resolutions [] n = n
need_resolutions (r ∷ rs) n =
    need_resolutions rs (need_evidence r.evidence (need_keys (r.blocker ∷ []) n))

unfoldable pub requirements : State → Command → Result Error Needs
unfolding renewal_requirements optional_agreement
requirements s (Command.initiate wish _) = ok (need_keys (wish ∷ []) no_needs)
requirements s (Command.propose p _) = ok (
    need_grounds p.dependencies
      (record no_needs { content_items = terms_content_items p.terms [] }))
requirements s (Command.assess a _) = do
  n ← proposal_requirements s a.proposal no_needs
  ok (need_assessment a n)
requirements s (Command.decide d) = do
  n ← decision_requirements s d no_needs
  decisions_requirements s (live_decisions s d.proposal) n
requirements s (Command.retract _) = ok no_needs
requirements s (Command.revoke_grant _ _) = ok no_needs
requirements s (Command.reaffirm id dependencies renewed) = do
  old ← decision s id
  n ← decision_requirements s old.decision no_needs
  n' ← decisions_requirements s (live_decisions s old.decision.proposal) n
  n'' ← renewal_requirements s renewed n'
  ok (need_grounds dependencies n'')
requirements s (Command.set_grant _ _ spec) = do
  validate_origin_selectors s spec
  ok (
      need_keys (historical_contents (spec.content_origins ++ spec.disclosure_origins))
        (need_keys spec.disclosure (need_keys spec.content_items no_needs)))
requirements s (Command.admit a) = do
  n ← agreement_requirements s a.agreement no_needs
  ok (need_grounds a.dependencies (need_keys a.conditions n))
requirements s (Command.dispatch id) = do
  a ← ok_or (get s.actions id) Error.invalid
  n ← agreement_requirements s a.request.agreement no_needs
  ok (
      need_grounds (a.request.dependencies ++ a.admission_dependencies)
        (need_keys a.request.conditions n))
requirements s (Command.finding f _) = do
  n ← optional_agreement s f.agreement no_needs
  ok (need_evidence f.evidence (need_keys (f.claim ∷ []) n))
requirements s (Command.adapt a _) = do
  n ← agreement_requirements s a.agreement no_needs
  ok (need_evidence a.grounds (need_keys (a.previous_approach ∷ a.changed_approach ∷ []) n))
requirements s (Command.progress p _) = do
  n ← agreement_requirements s p.agreement no_needs
  ok (
      need_evidence p.evidence
        (need_keys (p.understanding.assessment ∷ p.outcome.assessment ∷ []) n))
requirements s (Command.fulfill f) = do
  n ← agreement_requirements s f.agreement no_needs
  ok (need_resolutions f.resolutions (need_criteria f.criteria (need_keys (f.acceptance ∷ []) n)))
requirements s (Command.withdraw reason) = ok (need_keys (reason ∷ []) no_needs)
requirements s (Command.reconcile _ _ evidence _) = ok (need_evidence evidence no_needs)
