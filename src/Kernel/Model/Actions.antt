-- ===== src/Kernel/Model/Actions.antt =====
-- Native actions and the reports on a pursuit.
use changekernel.Base.{List, Option, ℕ, [], ◌∷◌, ◌≡◌, arith}
use changekernel.Base.Order.{PartialEq, eq_by_codes}
use changekernel.Base.BTreeSet.{BTreeSet}
use changekernel.Kernel.Ids.{
  ActorId, ActionId, AgreementId, CriterionId, ScopeId, LimitId, NativeActionId,
}
use changekernel.Kernel.Keys.{ContentKey, ContentReference, GrantUse}
use changekernel.Kernel.Model.Terms.{Dependency, Evidence}

pub data Disposition : Type 0 where
  supports challenges undetermined : Disposition

pub record Finding : Type 0 where
  pub agreement : Option AgreementId
  pub claim : ContentKey
  pub evidence : List Evidence
  pub disposition : Disposition

pub record Adaptation : Type 0 where
  pub agreement : AgreementId
  pub previous_approach : ContentKey
  pub changed_approach : ContentKey
  pub grounds : List Evidence
  pub discretion : ScopeId

pub data ProgressValue : Type 0 where
  advanced unchanged regressed undetermined : ProgressValue

pub record ProgressDimension : Type 0 where
  pub value : ProgressValue
  pub assessment : ContentKey

pub data ChangeBasis : Type 0 where
  observation corrected_understanding revised_targets : ChangeBasis

pub record Progress : Type 0 where
  pub agreement : AgreementId
  pub terms : BTreeSet ContentReference
  pub criteria : BTreeSet CriterionId
  pub evidence : List Evidence
  pub understanding : ProgressDimension
  pub outcome : ProgressDimension
  pub basis : ChangeBasis

pub record ActionRequest : Type 0 where
  pub id : ActionId
  pub agreement : AgreementId
  pub grant : GrantUse
  pub native_action : NativeActionId
  pub scope : BTreeSet ScopeId
  pub limits : BTreeSet LimitId
  pub dependencies : List Dependency
  pub conditions : List ContentKey

pub data ActionPhase : Type 0 where
  admitted dispatched reconciled : ActionPhase

pub data ActionOutcome : Type 0 where
  undetermined reported_applied reported_not_applied reported_partial : ActionOutcome

pub record Action : Type 0 where
  pub request : ActionRequest
  pub actor : ActorId
  pub phase : ActionPhase
  pub admission_dependencies : List Dependency
  pub evidence : List Evidence
  pub outcome : ActionOutcome

pub record CriterionEvidence : Type 0 where
  pub criterion : CriterionId
  pub evidence : List Evidence

pub record Resolution : Type 0 where
  pub blocker : ContentKey
  pub evidence : List Evidence

pub record Fulfillment : Type 0 where
  pub agreement : AgreementId
  pub criteria : List CriterionEvidence
  pub resolutions : List Resolution
  pub acceptance : ContentKey

abbrev pub phase_codes : ActionPhase → List ℕ
phase_codes ActionPhase.admitted = 0 ∷ []
phase_codes ActionPhase.dispatched = 1 ∷ []
phase_codes ActionPhase.reconciled = 2 ∷ []

pub phase_codes_inj : (a b : ActionPhase) → phase_codes a ≡ phase_codes b → a ≡ b
phase_codes_inj a b h = ground arith

instance abbrev pub phase_eq : PartialEq ActionPhase
phase_eq = eq_by_codes phase_codes phase_codes_inj
