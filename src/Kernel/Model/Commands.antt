-- ===== src/Kernel/Model/Commands.antt =====
-- Commands, operations and what an accepted one has done.
use changekernel.Base.{ℕ, List, Option, Bool}
use changekernel.Base.BTreeSet.{BTreeSet}
use changekernel.Kernel.Ids.{
  ActorId, OwnerId, ProposalId, AgreementId, AssessmentId, DecisionId, GrantId, ActionId,
  OperationId,
}
use changekernel.Kernel.Keys.{ContentKey, GrantUse}
use changekernel.Kernel.Content.{FreshContent}
use changekernel.Kernel.Model.Terms.{Proposal, Assessment, Decision, Dependency, Evidence}
use changekernel.Kernel.Model.Grants.{Access, GrantSpec}
use changekernel.Kernel.Model.Actions.{
  ActionRequest, ActionOutcome, Finding, Adaptation, Progress, Fulfillment,
}

pub data Settlement : Type 0 where
  fulfilled : AgreementId → Settlement
  withdrawn : Settlement

-- The fields of each variant in the order of the source.
pub data Command : Type 0 where
  initiate : ContentKey → Access → Command
  propose : Proposal → Access → Command
  assess : Assessment → Access → Command
  decide : Decision → Command
  retract : DecisionId → Command
  reaffirm : DecisionId → List Dependency → Option AssessmentId → Command
  set_grant : GrantId → Option ℕ → GrantSpec → Command
  revoke_grant : GrantId → ℕ → Command
  admit : ActionRequest → Command
  dispatch : ActionId → Command
  finding : Finding → Access → Command
  adapt : Adaptation → Access → Command
  progress : Progress → Access → Command
  fulfill : Fulfillment → Command
  withdraw : ContentKey → Command
  reconcile : ActionId → GrantUse → List Evidence → ActionOutcome → Command

pub record Operation : Type 0 where
  pub id : OperationId
  pub command : Command
  pub fresh : List FreshContent
  pub first_retention : BTreeSet ContentKey

pub data Effect : Type 0 where
  initiated : Effect
  proposed : ProposalId → Effect
  assessed : AssessmentId → Effect
  decision : DecisionId → Option AgreementId → Effect
  retracted : DecisionId → Effect
  reaffirmed : DecisionId → Option AgreementId → Effect
  grant : GrantUse → Effect
  revoked : GrantUse → Effect
  admitted : ActionId → Effect
  dispatched : ActionId → Effect
  recorded : Effect
  settled : Settlement → Effect
  reconciled : ActionId → Effect

pub record Accepted : Type 0 where
  pub operation : OperationId
  pub actor : ActorId
  pub represented_owner : OwnerId
  pub effect : Effect

pub record Status : Type 0 where
  pub initiated : Bool
  pub current_agreement : Option AgreementId
  pub settlement : Option Settlement
  pub accepted_operations : ℕ  -- usize
