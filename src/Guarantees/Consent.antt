-- ===== src/Guarantees/Consent.antt =====
-- Two-party consent: what stands behind every agreement of a Change.
pub mod Decisions
pub mod Histories
use changekernel.Base.{
  ℕ, ◌≡◌, ◌≢◌, refl, Option, none, some, Bool, true, false, ok, arith, ◌⊎◌, inl, inr, Bool-cases,
}
use changekernel.Base.BTreeMap.{get, insert, get-insert}
use changekernel.Base.BTreeMap.Sorted.{IsSorted}
use changekernel.Kernel.Ids.{ActorId, AgreementId, DecisionId, ProposalId, id_eq, id_ord}
use changekernel.Kernel.Keys.{Identity}
use changekernel.Kernel.Model.Terms.{DecisionKind, Proposal}
use changekernel.Kernel.State.{State, EffectiveDecision, Agreement}
use changekernel.Kernel.Rules.Writes.Noted.{is_adopt}

-- The actor who has to take a decision of a kind.
abbrev pub party_of : Identity → DecisionKind → ActorId
party_of i DecisionKind.adopt = i.owner_actor
party_of i (DecisionKind.undertake _) = i.agent

-- A decision that an agreement rests on: of the right party, about its proposal, matched and not
-- retracted.
pub record Supports (s : State) (adopting : Bool) (p : ProposalId) (id : DecisionId) : Type 0 where
  pub d : EffectiveDecision
  pub found : get s.decisions id ≡ some d
  pub kind : is_adopt d.decision.kind ≡ adopting
  pub about : d.decision.proposal ≡ p
  pub matched : d.matched ≡ true
  pub live : d.retracted ≡ false

-- An agreement rests on a proposal that names it, an adoption and an undertaking.
pub record IsBacked (s : State) (a : AgreementId) (g : Agreement) : Type 0 where
  pub p : Proposal
  pub proposal : get s.proposals g.proposal ≡ some p
  pub names : p.agreement ≡ a
  pub adoption : Supports s true g.proposal g.adoption
  pub undertaking : Supports s false g.proposal g.undertaking

pub record IsConsented (s : State) : Type 0 where
  pub parties_differ : s.identity.owner_actor ≢ s.identity.agent
  pub decisions_sorted : IsSorted s.decisions
  pub parties :
      (id : DecisionId) (d : EffectiveDecision)
      → get s.decisions id ≡ some d
      → d.actor ≡ party_of s.identity d.decision.kind
  pub keyed : (id : ProposalId) (p : Proposal) → get s.proposals id ≡ some p → p.id ≡ id
  pub backed : (a : AgreementId) (g : Agreement) → get s.agreements a ≡ some g → IsBacked s a g
  pub active :
      (a : AgreementId) → s.current ≡ some a → (g : Agreement) × (get s.agreements a ≡ some g)

-- Proposals are only added.
abbrev pub KeepsProposals : State → State → Type 0
KeepsProposals s t =
    (id : ProposalId) (p : Proposal) → get s.proposals id ≡ some p → get t.proposals id ≡ some p

Supports-frame :
    (s t : State) (b : Bool) (p : ProposalId) (id : DecisionId)
    → t.decisions ≡ s.decisions
    → Supports s b p id
    → Supports t b p id
Supports-frame s t b p id e h = record {
  d = h.d;
  found = rw e (h.found);
  kind = h.kind;
  about = h.about;
  matched = h.matched;
  live = h.live;
}

pub IsBacked-frame :
    (s t : State) (a : AgreementId) (g : Agreement)
    → t.decisions ≡ s.decisions
    → KeepsProposals s t
    → IsBacked s a g
    → IsBacked t a g
IsBacked-frame s t a g e k h = record {
  p = h.p;
  proposal = k g.proposal h.p h.proposal;
  names = h.names;
  adoption = Supports-frame s t true g.proposal g.adoption e h.adoption;
  undertaking = Supports-frame s t false g.proposal g.undertaking e h.undertaking;
}

-- A write to other parts of the state.
pub IsConsented-frame :
    (s t : State)
    → t.identity ≡ s.identity
    → t.decisions ≡ s.decisions
    → t.agreements ≡ s.agreements
    → t.current ≡ s.current
    → KeepsProposals s t
    → ((id : ProposalId) (p : Proposal) → get t.proposals id ≡ some p → p.id ≡ id)
    → IsConsented s
    → IsConsented t
IsConsented-frame s t i d a c k keyed h = record {
  parties_differ = rw i h.parties_differ;
  decisions_sorted = rw d h.decisions_sorted;
  parties = λ id x e. rw i (h.parties id x (rw d at e));
  keyed = keyed;
  backed = λ x g e. IsBacked-frame s t x g d k (h.backed x g (rw a at e));
  active = λ x e. let (g, f) = h.active x (rw c at e) in (g, rw a f);
}

-- A write that leaves the proposals alone too.
pub IsConsented-same :
    (s t : State)
    → t.identity ≡ s.identity
    → t.decisions ≡ s.decisions
    → t.agreements ≡ s.agreements
    → t.current ≡ s.current
    → t.proposals ≡ s.proposals
    → IsConsented s
    → IsConsented t
IsConsented-same s t i d a c p h =
    IsConsented-frame s t i d a c (λ id x e. rw p e) (λ id x e. h.keyed id x (rw p at e)) h
