-- ===== src/Guarantees/Consent/Decisions.antt =====
-- Writes to the decisions and to the agreements keep the consent.
use changekernel.Base.{
  ◌≡◌, refl, Option, some, Bool, true, false, ok, arith, inl, inr, Bool-cases, sym, subst,
}
use changekernel.Base.Order.{eq_of_beq}
use changekernel.Base.BTreeSet.{BTreeSet, extend}
use changekernel.Base.BTreeMap.{get, insert, get-insert, get-insert_self}
use changekernel.Base.BTreeMap.Sorted.{IsSorted, insert-IsSorted, get_of_Member}
use changekernel.Kernel.Ids.{AgreementId, DecisionId, ProposalId, id_eq, id_ord}
use changekernel.Kernel.Keys.{ContentKey, content_key_ord}
use changekernel.Kernel.Model.Terms.{DecisionKind, Proposal}
use changekernel.Kernel.State.{State, Validation, EffectiveDecision, Agreement}
use changekernel.Kernel.Rules.Lookup.{proposal}
use changekernel.Kernel.Rules.Activation.{agreed, activate}
use changekernel.Kernel.Rules.Writes.Activated.{IsRefreshed, IsConcluded, activate_cases, concluded}
use changekernel.Kernel.Rules.Writes.Noted.{is_adopt, is_undertake, FromEntries}
use changekernel.Guarantees.Consent.{party_of, Supports, IsBacked, IsConsented, IsBacked-frame}

-- A later version of a decision that an agreement may rest on.
pub record Upholds (old new : EffectiveDecision) : Type 0 where
  pub kind : is_adopt new.decision.kind ≡ is_adopt old.decision.kind
  pub about : new.decision.proposal ≡ old.decision.proposal
  pub matched : old.matched ≡ true → (new.matched ≡ true) × (new.retracted ≡ old.retracted)

abbrev with_decision : State → DecisionId → EffectiveDecision → State
with_decision s id new = record s { decisions = insert id new s.decisions }

module _ (s : State) (id : DecisionId) (new : EffectiveDecision)
    (upholds : (old : EffectiveDecision) → get s.decisions id ≡ some old → Upholds old new) where
  Supports-insert :
      (b : Bool) (p : ProposalId) (j : DecisionId)
      → Supports s b p j
      → Supports (with_decision s id new) b p j
  Supports-insert b p j h = elim (Bool-cases (id_eq.same j id)) [
    | inl same ↦
        let k = upholds h.d (rw (eq_of_beq j id same) at h.found) in
        record {
          d = new;
          found = ground (arith, get-insert id j new s.decisions);
          kind = ground arith;
          about = ground arith;
          matched = ground arith;
          live = ground arith;
        }
    | inr other ↦ record {
      d = h.d;
      found = ground (arith, get-insert id j new s.decisions);
      kind = h.kind;
      about = h.about;
      matched = h.matched;
      live = h.live;
    }
  ]

  pub IsConsented-insert :
      new.actor ≡ party_of s.identity new.decision.kind
      → IsConsented s
      → IsConsented (with_decision s id new)
  IsConsented-insert party h = record {
    parties_differ = h.parties_differ;
    decisions_sorted = insert-IsSorted id new s.decisions h.decisions_sorted;
    parties = λ j d e. elim (Bool-cases (id_eq.same j id)) [
      | inl same ↦ ground (arith, get-insert id j new s.decisions)
      | inr other ↦ h.parties j d (ground (arith, get-insert id j new s.decisions))
    ];
    keyed = h.keyed;
    backed = λ a g e.
        let k = h.backed a g e in
        record {
          p = k.p;
          proposal = k.proposal;
          names = k.names;
          adoption = Supports-insert true g.proposal g.adoption k.adoption;
          undertaking = Supports-insert false g.proposal g.undertaking k.undertaking;
        };
    active = h.active;
  }

-- An agreement that is written and made current.
abbrev pub with_agreement : State → AgreementId → Agreement → State
with_agreement s a g = record s { agreements = insert a g s.agreements; current = some a }

pub IsConsented-agree :
    (s : State) (a : AgreementId) (g : Agreement)
    → IsBacked s a g
    → IsConsented s
    → IsConsented (with_agreement s a g)
IsConsented-agree s a g k h = record {
  parties_differ = h.parties_differ;
  decisions_sorted = h.decisions_sorted;
  parties = h.parties;
  keyed = h.keyed;
  backed = λ x y e. elim (Bool-cases (id_eq.same x a)) [
    | inl same ↦
        let value : y ≡ g = ground (arith, get-insert a x g s.agreements) in
        rw (eq_of_beq x a same, value)
          (IsBacked-frame s (with_agreement s a g) a g refl (λ _ _ f. f) k)
    | inr other ↦
        IsBacked-frame s (with_agreement s a g) x y refl (λ _ _ f. f)
          (h.backed x y (ground (arith, get-insert a x g s.agreements)))
  ];
  active = λ x e. (g, ground (arith, get-insert a x g s.agreements, id_eq.same_iff x a));
}

mark-Upholds :
    {o : Option EffectiveDecision} (old d : EffectiveDecision)
    → o ≡ some old
    → o ≡ some d
    → d.retracted ≡ false
    → Upholds old (record d { matched = true })
mark-Upholds old d e f r = ground arith

refreshed-IsConsented :
    (s t : State) (id : ProposalId) (o : Option AgreementId)
    → IsRefreshed s id o t
    → IsConsented s
    → IsConsented t
refreshed-IsConsented s t id o r h =
    let grown : Agreement = record (r.a) { blockers = extend r.a.blockers r.u.blockers } in
    let old = h.backed r.p.agreement r.a r.agreement_found in
    let new : IsBacked s r.p.agreement grown = record {
      p = old.p;
      proposal = old.proposal;
      names = old.names;
      adoption = old.adoption;
      undertaking = old.undertaking;
    } in
    let same : t ≡ with_agreement s r.p.agreement grown = ground (arith, r.written, r.is_current) in
    subst IsConsented (sym same) (IsConsented-agree s r.p.agreement grown new h)

-- The decision that the loop has found is the one that is written.
from_entries :
    (s : State) (id : ProposalId) (v : Validation) (is_kind : DecisionKind → Bool)
    (key : DecisionId)
    → IsSorted s.decisions
    → FromEntries s id v is_kind s.decisions key
    → (d : EffectiveDecision) × (get s.decisions key ≡ some d)
      × (is_kind d.decision.kind ≡ true)
      × (d.decision.proposal ≡ id)
      × (d.retracted ≡ false)
from_entries s id v is_kind key sorted (d, m, ready, k) =
    (d, get_of_Member key d s.decisions sorted m, k, ready.about, ready.live)

undertakes : (k : DecisionKind) → is_undertake k ≡ true → is_adopt k ≡ false
undertakes k h = ground arith

-- The three writes of `conclude`, for two decisions of the two kinds about the proposal.
conclude-IsConsented :
    (s : State) (p : Proposal) (a b : DecisionId) (d u : EffectiveDecision)
    (blockers : BTreeSet ContentKey)
    → get s.proposals p.id ≡ some p
    → get s.decisions a ≡ some d
    → get s.decisions b ≡ some u
    → is_adopt d.decision.kind ≡ true
    → is_adopt u.decision.kind ≡ false
    → d.decision.proposal ≡ p.id
    → u.decision.proposal ≡ p.id
    → d.retracted ≡ false
    → u.retracted ≡ false
    → IsConsented s
    → IsConsented (concluded s p a b d u blockers)
conclude-IsConsented s p a b d u blockers fp fd fu kd ku pd pu ld lu h =
    let d' : EffectiveDecision = record d { matched = true } in
    let u' : EffectiveDecision = record u { matched = true } in
    let distinct : id_eq.same b a ≡ false = ground (arith, id_eq.same_iff b a) in
    let distinct' : id_eq.same a b ≡ false =
      ground (arith, id_eq.same_iff a b, id_eq.same_iff b a) in
    let s1 : State = with_decision s a d' in
    let s2 : State = with_decision s1 b u' in
    let fu' : get s1.decisions b ≡ some u = ground (arith, get-insert a b d' s.decisions) in
    let once : IsConsented s1 =
      IsConsented-insert s a d' (λ old e. mark-Upholds old d e fd ld) (h.parties a d fd) h in
    let twice : IsConsented s2 =
      IsConsented-insert s1 b u' (λ old e. mark-Upholds old u e fu' lu) (once.parties b u fu')
        once in
    let fd1 : get s1.decisions a ≡ some d' = get-insert_self a d' s.decisions in
    let fd2 : get s2.decisions a ≡ some d' = ground (arith, get-insert b a u' s1.decisions) in
    IsConsented-agree s2 p.agreement (agreed p a b blockers)
      (record {
        p = p;
        proposal = fp;
        names = refl;
        adoption = record { d = d'; found = fd2; kind = kd; about = pd; matched = refl; live = ld };
        undertaking = record {
          d = u';
          found = get-insert_self b u' s1.decisions;
          kind = ku;
          about = pu;
          matched = refl;
          live = lu;
        };
      })
      twice

concluded-IsConsented :
    (s t : State) (id : ProposalId) (v : Validation) (o : Option AgreementId)
    → IsConcluded s id v o t
    → IsConsented s
    → IsConsented t
unfolding proposal
concluded-IsConsented s t id v o c h =
    let (d, fd, kd, pd, ld) =
      from_entries s id v is_adopt c.adoption h.decisions_sorted c.adopted in
    let (u, fu, ku, pu, lu) =
      from_entries s id v is_undertake c.undertaking h.decisions_sorted c.undertaken in
    let fp : get s.proposals id ≡ some c.p = ground (arith, c.found) in
    let named : c.p.id ≡ id = h.keyed id c.p fp in
    let same_d : c.d ≡ d = ground (arith, c.first) in
    let ku' : is_adopt u.decision.kind ≡ false = undertakes u.decision.kind ku in
    let distinct : id_eq.same c.undertaking c.adoption ≡ false =
      ground (arith, id_eq.same_iff c.undertaking c.adoption) in
    let same_u : c.u ≡ u = ground (
      arith,
      c.second,
      get-insert c.adoption c.undertaking (record (c.d) { matched = true }) s.decisions,
    ) in
    rw c.written (
      conclude-IsConsented s c.p c.adoption c.undertaking c.d c.u c.blockers
        (subst (λ x. get s.proposals x ≡ some c.p) (sym named) fp) c.first (rw same_u fu)
        (rw same_d kd) (rw same_u ku') (rw (same_d, named) pd) (rw (same_u, named) pu)
        (rw same_d ld) (rw same_u lu) h)

-- An activation, whatever it does, keeps the consent.
pub activate-IsConsented :
    (s t : State) (id : ProposalId) (v : Validation) (o : Option AgreementId)
    → activate s id v ≡ (ok o, t)
    → IsConsented s
    → IsConsented t
activate-IsConsented s t id v o h k = elim (activate_cases s id v o t h) [
  | inl (same, _) ↦ rw same k
  | inr (inl r) ↦ refreshed-IsConsented s t id o r k
  | inr (inr c) ↦ concluded-IsConsented s t id v o c k
]
