-- ===== src/Kernel/Rules/Writes/Computed.antt =====
-- Every decision of a state has dependencies: `decision_dependencies` accepts it (rules.rs).
use changekernel.Base.{
  ◌≡◌, refl, ap, Option, some, true, ok, arith, List, [], inl, inr, Result-cases, Option-cases,
  Bool-cases,
}
use changekernel.Base.BTreeMap.{get, insert, get-insert}
use changekernel.Kernel.Ids.{AgreementId, AssessmentId, DecisionId, ProposalId, id_eq, id_ord}
use changekernel.Kernel.Model.Terms.{Assessment, Proposal, Decision, DecisionKind, Dependency}
use changekernel.Kernel.State.{State, Validation, EffectiveDecision}
use changekernel.Kernel.Rules.Lookup.{proposal, assessment, decision}
use changekernel.Kernel.Rules.Dependencies.{
  Grounds, decision_dependencies, with_assessment, insert_all,
}
use changekernel.Kernel.Rules.Activation.{activate}
use changekernel.Kernel.Rules.Transition.Deciding.{
  enter_decision, renew_decision, renewed_kind, effective,
}
use changekernel.Kernel.Rules.Writes.Activated.{IsConcluded, activate_cases}
use changekernel.Kernel.Rules.Writes.Decisions.{
  KeepsRest, activate-KeepsRest, enter_decision_writes, enter_decision_ready, renew_decision_writes,
}

abbrev pub IsComputable : State → Decision → Type 0
IsComputable s d = (deps : List Dependency) × (decision_dependencies s d ≡ ok deps)

pub record IsComputed (s : State) : Type 0 where
  pub each :
      (id : DecisionId) (d : EffectiveDecision)
      → get s.decisions id ≡ some d
      → IsComputable s d.decision

-- Proposals and assessments are only added.
pub record KeepsDrafts (s t : State) : Type 0 where
  pub proposals :
      (id : ProposalId) (p : Proposal) → get s.proposals id ≡ some p → get t.proposals id ≡ some p
  pub assessments :
      (id : AssessmentId) (a : Assessment)
      → get s.assessments id ≡ some a
      → get t.assessments id ≡ some a

pub KeepsDrafts-same :
    (s t : State) → t.proposals ≡ s.proposals → t.assessments ≡ s.assessments → KeepsDrafts s t
KeepsDrafts-same s t e f = record {
  proposals = λ id p h. ground arith;
  assessments = λ id a h. ground arith;
}

module _ (s t : State) (keeps : KeepsDrafts s t) where
  with_assessment-frame :
      (p : Proposal) (d : Decision) (k : DecisionKind) (m : Grounds) {n : Grounds}
      → with_assessment s p d k m ≡ ok n
      → with_assessment t p d k m ≡ ok n
  unfolding with_assessment assessment
  with_assessment-frame p d DecisionKind.adopt m h = h
  with_assessment-frame p d (DecisionKind.undertake id) m h =
      elim (Option-cases (get s.assessments id)) [
        | inl e ↦ absurd (ground arith)
        | inr (a, e) ↦
            let f : get t.assessments id ≡ some a = keeps.assessments id a e in ground arith
      ]

  pub IsComputable-frame : (d : Decision) → IsComputable s d → IsComputable t d
  unfolding decision_dependencies proposal
  IsComputable-frame d (deps, h) = elim (Option-cases (get s.proposals d.proposal)) [
    | inl e ↦ absurd (ground arith)
    | inr (p, e) ↦
        elim (Result-cases (with_assessment s p d d.kind (insert_all p.dependencies []))) [
          | inr (x, f) ↦ absurd (ground arith)
          | inl (m, f) ↦
              let e' : get t.proposals d.proposal ≡ some p = keeps.proposals d.proposal p e in
              let f' : with_assessment t p d d.kind (insert_all p.dependencies []) ≡ ok m =
                with_assessment-frame p d d.kind (insert_all p.dependencies []) f in
              (deps, ground arith)
        ]
  ]

  pub IsComputed-frame : t.decisions ≡ s.decisions → IsComputed s → IsComputed t
  IsComputed-frame e h = record {
    each = λ id d f. IsComputable-frame d.decision (h.each id d (rw e at f));
  }

-- A write of a decision that is computable.
pub IsComputed-insert :
    (s t : State) (id : DecisionId) (new : EffectiveDecision)
    → t.proposals ≡ s.proposals
    → t.assessments ≡ s.assessments
    → t.decisions ≡ insert id new s.decisions
    → IsComputable s new.decision
    → IsComputed s
    → IsComputed t
IsComputed-insert s t id new p a w n h = record {
  each = λ j d e.
      IsComputable-frame s t (KeepsDrafts-same s t p a) d.decision
        (elim (Bool-cases (id_eq.same j id)) [
          | inl same ↦
              let value : d ≡ new = ground (arith, w, get-insert id j new s.decisions) in rw value n
          | inr other ↦ h.each j d (ground (arith, w, get-insert id j new s.decisions))
        ]);
}

concluded-IsComputed :
    (s t : State) (id : ProposalId) (v : Validation) (o : Option AgreementId)
    → t.proposals ≡ s.proposals
    → t.assessments ≡ s.assessments
    → IsConcluded s id v o t
    → IsComputed s
    → IsComputed t
concluded-IsComputed s t id v o p a r h =
    let once : State = record s {
      decisions = insert r.adoption (record (r.d) { matched = true }) s.decisions;
    } in
    let k : IsComputed once =
      IsComputed-insert s once r.adoption (record (r.d) { matched = true }) refl refl refl
        (h.each r.adoption r.d r.first) h in
    IsComputed-insert once t r.undertaking (record (r.u) { matched = true }) p a
      (ground (arith, r.written)) (k.each r.undertaking r.u r.second) k

pub activate-IsComputed :
    (s t : State) (id : ProposalId) (v : Validation) (o : Option AgreementId)
    → activate s id v ≡ (ok o, t)
    → IsComputed s
    → IsComputed t
activate-IsComputed s t id v o q h =
    let k : KeepsRest s t = rw (ap (λ r. r.1) q) at (activate-KeepsRest s id v) in
    elim (activate_cases s id v o t q) [
      | inl (w, _) ↦ rw w h
      | inr (inl r) ↦
          IsComputed-frame s t (KeepsDrafts-same s t k.proposals k.assessments)
            (ground (arith, r.written)) h
      | inr (inr r) ↦ concluded-IsComputed s t id v o k.proposals k.assessments r h
    ]

module _ (s : State) (v : Validation) where
  pub enter_decision-IsComputed :
      (d : Decision) {t : State} → enter_decision s d v ≡ ok t → IsComputed s → IsComputed t
  enter_decision-IsComputed d {t} q h =
      let (b, _, w, _, _) = enter_decision_writes s v d q in
      let (_, deps, _, computed, _) = enter_decision_ready s v d q in
      IsComputed-insert s t d.id (effective d v b) (ground arith) (ground arith) (ground arith)
        (deps, computed) h

  -- The renewed decision is looked through before it is written.
  renewed-IsComputable :
      (id : DecisionId) (deps : List Dependency) (assessed : Option AssessmentId)
      (old : EffectiveDecision) (kind : DecisionKind) {r : ProposalId × State}
      → renew_decision s id deps assessed v ≡ ok r
      → get s.decisions id ≡ some old
      → renewed_kind old.decision.kind assessed ≡ ok kind
      → IsComputable s (record (old.decision) { dependencies = deps; kind = kind })
  unfolding renew_decision decision
  renewed-IsComputable id deps assessed old kind h e f =
      elim (Result-cases
        (decision_dependencies s (record (old.decision) { dependencies = deps; kind = kind }))) [
          | inl (next, g) ↦ (next, g)
          | inr (x, g) ↦ absurd (ground arith)
        ]

  pub renew_decision-IsComputed :
      (id : DecisionId) (deps : List Dependency) (assessed : Option AssessmentId) {p : ProposalId}
      {t : State}
      → renew_decision s id deps assessed v ≡ ok (p, t)
      → IsComputed s
      → IsComputed t
  renew_decision-IsComputed id deps assessed {p} {t} q h =
      let (old, kind, b, f, g, _, w, _) = renew_decision_writes s v id deps assessed q in
      IsComputed-insert s t id _ (ground arith) (ground arith) (ap (λ (x : State). x.decisions) w)
        (renewed-IsComputable id deps assessed old kind q f g) h
