-- ===== src/Kernel/State.antt =====
-- The state of one Change, the authority of a caller and what the ports have established.
use changekernel.Base.{ℕ, List, [], Option, none, Bool, false, Result, ok, reject_if, ◌>>◌}
use changekernel.Base.Order.{◌==◌}
use changekernel.Base.BTreeSet.{BTreeSet}
use changekernel.Base.BTreeMap.{BTreeMap}
use changekernel.Base.Lists.{length}
use changekernel.Kernel.Ids.{
  ActorId, OwnerId, ProposalId, AgreementId, AssessmentId, DecisionId, GrantId, ActionId,
  OperationId, GroundId, GroundVersion, Error, id_eq,
}
use changekernel.Kernel.Keys.{ContentKey, Identity}
use changekernel.Kernel.Content.{RecordedContent, ContentEstablishment}
use changekernel.Kernel.Model.Terms.{Proposal, Assessment, Decision, Evidence}
use changekernel.Kernel.Model.Grants.{Grant}
use changekernel.Kernel.Model.Actions.{Action}
use changekernel.Kernel.Model.Commands.{Settlement, Operation, Accepted, Status}

pub record Authority : Type 0 where
  pub actor : ActorId
  pub represented_owner : OwnerId
  pub owner_control : Option Identity
  pub agent_role : Option Identity

pub data ScopeJudgment : Type 0 where
  within_discretion : Evidence → ScopeJudgment
  requires_revision : ScopeJudgment
  unavailable : ScopeJudgment

pub record NativeConditions : Type 0 where
  pub action : ActionId
  pub evidence : List Evidence

pub record Validation : Type 0 where
  pub authority : Authority
  pub content_items : BTreeSet ContentKey
  pub fresh : BTreeSet ContentKey
  pub grounds : BTreeMap GroundId GroundVersion
  pub scope : Option ScopeJudgment
  pub native : Option NativeConditions

pub record EffectiveDecision : Type 0 where
  pub decision : Decision
  pub actor : ActorId
  pub retracted : Bool
  pub matched : Bool
  pub blockers : BTreeSet ContentKey

pub record Agreement : Type 0 where
  pub proposal : ProposalId
  pub adoption : DecisionId
  pub undertaking : DecisionId
  pub blockers : BTreeSet ContentKey

pub record State : Type 0 where
  pub identity : Identity
  pub initiated : Bool
  pub current : Option AgreementId
  pub settlement : Option Settlement
  pub proposals : BTreeMap ProposalId Proposal
  pub assessments : BTreeMap AssessmentId Assessment
  pub decisions : BTreeMap DecisionId EffectiveDecision
  pub agreements : BTreeMap AgreementId Agreement
  pub grants : BTreeMap GrantId Grant
  pub actions : BTreeMap ActionId Action
  pub history : BTreeMap OperationId (Operation × Accepted)
  pub last_operation : Option OperationId
  pub content_items : BTreeMap ContentKey (List ℕ)
  pub created : BTreeMap ContentKey RecordedContent
  pub established : BTreeMap ContentKey ContentEstablishment

abbrev pub empty_state : Identity → State
empty_state i = record {
  identity = i;
  initiated = false;
  current = none;
  settlement = none;
  proposals = [];
  assessments = [];
  decisions = [];
  agreements = [];
  grants = [];
  actions = [];
  history = [];
  last_operation = none;
  content_items = [];
  created = [];
  established = [];
}

-- `State::try_new`
unfoldable pub try_new : Identity → Result Error State
try_new i = do reject_if (i.owner_actor == i.agent) Error.invalid; ok (empty_state i)

-- `State::status`
unfoldable pub status : State → Status
status s = record {
  initiated = s.initiated;
  current_agreement = s.current;
  settlement = s.settlement;
  accepted_operations = length s.history;
}
