-- ===== src/Kernel/Model/Terms.antt =====
-- Proposals, assessments and decisions: what the parties agree on.
use changekernel.Base.{◌≡◌, List, Option, Bool, true, ◌&&◌, arith, ◌↔◌}
use changekernel.Base.Order.{PartialEq, ◌==◌, list_beq_iff, list_eq}
use changekernel.Base.BTreeSet.{BTreeSet}
use changekernel.Kernel.Ids.{
  ActorId, ProposalId, AgreementId, AssessmentId, DecisionId, CriterionId, GroundId, GroundVersion,
  id_eq,
}
use changekernel.Kernel.Keys.{ContentKey, ContentReference, Identity, content_reference_eq}

pub record Dependency : Type 0 where
  pub ground_fact : GroundId  -- `ground`
  pub version : GroundVersion

pub record Evidence : Type 0 where
  pub source : ActorId
  pub content : ContentKey
  pub limitations : ContentKey

pub record TermSelection : Type 0 where
  pub statement : ContentReference
  pub context : BTreeSet ContentReference

pub record Unknown : Type 0 where
  pub question : ContentKey
  pub bounded_by : ContentKey
  pub affected : BTreeSet ContentReference

pub record Criterion : Type 0 where
  pub id : CriterionId
  pub definition : ContentReference
  pub terms : BTreeSet ContentReference

abbrev pub criterion_beq : Criterion → Criterion → Bool
criterion_beq a b = a.id == b.id && (a.definition == b.definition && a.terms == b.terms)

pub criterion_beq_iff : (a b : Criterion) → (criterion_beq a b ≡ true) ↔ (a ≡ b)
criterion_beq_iff a b = ground (
  arith,
  (id_eq {k = _}).same_iff a.id b.id,
  content_reference_eq.same_iff a.definition b.definition,
  list_beq_iff a.terms b.terms,
)

instance abbrev pub criterion_eq : PartialEq Criterion
criterion_eq = record { same = criterion_beq; same_iff = criterion_beq_iff }

pub record Terms : Type 0 where
  pub binding : List TermSelection
  pub context : BTreeSet ContentReference
  pub unknowns : List Unknown
  pub criteria : List Criterion

pub record Proposal : Type 0 where
  pub id : ProposalId
  pub agreement : AgreementId
  pub identity : Identity
  pub expected_agreement : Option AgreementId
  pub terms : Terms
  pub dependencies : List Dependency

pub record Assessment : Type 0 where
  pub id : AssessmentId
  pub proposal : ProposalId
  pub feasibility : ContentKey
  pub capabilities : ContentKey
  pub resources : ContentKey
  pub commitments : ContentKey
  pub coverage : ContentKey
  pub limitations : ContentKey
  pub dependencies : List Dependency
  pub blockers : List ContentKey

pub data DecisionKind : Type 0 where
  adopt : DecisionKind
  undertake : AssessmentId → DecisionKind

pub record Decision : Type 0 where
  pub id : DecisionId
  pub proposal : ProposalId
  pub kind : DecisionKind
  pub dependencies : List Dependency
