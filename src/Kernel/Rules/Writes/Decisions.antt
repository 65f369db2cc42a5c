-- ===== src/Kernel/Rules/Writes/Decisions.antt =====
-- What `Decide`, `Reaffirm` and `State::activate` write when they are accepted.
use changekernel.Base.{
  ◌≡◌, Option, none, some, false, ok, arith, List, inl, inr, Result-cases, Option-cases, ◌⊎◌,
  Bool-cases,
}
use changekernel.Base.Order.{eq_of_beq, eq_of_not_bne, option_eq}
use changekernel.Base.BTreeSet.{BTreeSet, extend}
use changekernel.Base.BTreeMap.{get, insert}
use changekernel.Kernel.Ids.{AgreementId, AssessmentId, DecisionId, ProposalId, id_eq, id_ord}
use changekernel.Kernel.Keys.{ContentKey, content_key_ord}
use changekernel.Kernel.Model.Terms.{Proposal, Decision, DecisionKind, Dependency}
use changekernel.Kernel.Model.Commands.{Effect}
use changekernel.Kernel.State.{State, Validation, EffectiveDecision}
use changekernel.Kernel.Rules.Lookup.{proposal, decision, party}
use changekernel.Kernel.Rules.Dependencies.{decision_dependencies}
use changekernel.Kernel.Rules.Activation.{
  Candidates, activate, refresh, activate_new, conclude, commit,
}
use changekernel.Kernel.Rules.Transition.Deciding.{
  enter_decision, renew_decision, decide, reaffirm, effective, kind_blockers, renewed_kind,
}

-- What `activate` leaves alone, on every branch.
pub record KeepsRest (s t : State) : Type 0 where
  pub identity : t.identity ≡ s.identity
  pub initiated : t.initiated ≡ s.initiated
  pub settlement : t.settlement ≡ s.settlement
  pub proposals : t.proposals ≡ s.proposals
  pub assessments : t.assessments ≡ s.assessments
  pub grants : t.grants ≡ s.grants
  pub actions : t.actions ≡ s.actions
  pub content_items : t.content_items ≡ s.content_items
  pub established : t.established ≡ s.established

refresh-KeepsRest : (s : State) (p : Proposal) → KeepsRest s (commit s (refresh s p)).1
unfolding refresh
refresh-KeepsRest s p = ground arith

conclude-KeepsRest :
    (s : State) (p : Proposal) (a u : DecisionId) (b : BTreeSet ContentKey)
    → KeepsRest s (conclude s p a u b).1
unfolding conclude
conclude-KeepsRest s p a u b = ground arith

activate_new-KeepsRest :
    (s : State) (p : Proposal) (c : Candidates) → KeepsRest s (activate_new s p c).1
unfolding activate_new
activate_new-KeepsRest s p c = grind (arith, conclude-KeepsRest)

pub activate-KeepsRest :
    (s : State) (id : ProposalId) (v : Validation) → KeepsRest s (activate s id v).1
unfolding activate
activate-KeepsRest s id v = grind (arith, refresh-KeepsRest, activate_new-KeepsRest)

module _ (s : State) (v : Validation) where
  pub enter_decision_writes :
      (d : Decision) {t : State}
      → enter_decision s d v ≡ ok t
      → (blockers : BTreeSet ContentKey) × (kind_blockers s d.kind ≡ ok blockers)
        × (t ≡ record s { decisions = insert d.id (effective d v blockers) s.decisions })
        × (get s.decisions d.id ≡ none)
        × (party s d.kind v.authority ≡ ok tt)
  unfolding enter_decision
  enter_decision_writes d h = elim (Result-cases (kind_blockers s d.kind)) [
    | inl (b, p) ↦ (b, p, ground arith, ground arith, ground arith)
    | inr (x, p) ↦ absurd (ground arith)
  ]

  pub enter_decision_ready :
      (d : Decision) {t : State}
      → enter_decision s d v ≡ ok t
      → (p : Proposal) × (deps : List Dependency) × (proposal s d.proposal ≡ ok p)
        × (decision_dependencies s d ≡ ok deps)
        × (p.expected_agreement ≡ s.current)
  unfolding enter_decision
  enter_decision_ready d h = elim (Result-cases (proposal s d.proposal)) [
    | inl (p, e) ↦ elim (Result-cases (decision_dependencies s d)) [
      | inl (deps, f) ↦ (p, deps, e, f, eq_of_not_bne p.expected_agreement s.current (ground arith))
      | inr (x, f) ↦ absurd (ground arith)
    ]
    | inr (x, e) ↦ absurd (ground arith)
  ]

  pub decide_writes :
      (d : Decision) {e : Effect} {t : State}
      → decide s d v ≡ (ok e, t)
      → (s' : State) × (o : Option AgreementId) × (enter_decision s d v ≡ ok s')
        × (activate s' d.proposal v ≡ (ok o, t))
        × (e ≡ Effect.decision d.id o)
  unfolding decide
  decide_writes d {t} h = elim (Result-cases (enter_decision s d v)) [
    | inl (s', p) ↦ elim (Result-cases (activate s' d.proposal v).0) [
      | inl (o, q) ↦ (s', o, p, ground arith, ground arith)
      | inr (x, q) ↦ absurd (ground arith)
    ]
    | inr (x, p) ↦ absurd (ground arith)
  ]

  pub renew_decision_writes :
      (id : DecisionId) (deps : List Dependency) (assessed : Option AssessmentId) {p : ProposalId}
      {t : State}
      → renew_decision s id deps assessed v ≡ ok (p, t)
      → (old : EffectiveDecision) × (kind : DecisionKind) × (blockers : BTreeSet ContentKey) × (get
            s.decisions id
          ≡ some old)
        × (renewed_kind old.decision.kind assessed ≡ ok kind)
        × (p ≡ old.decision.proposal)
        × (t ≡ record s {
          decisions =
              insert id
                (record old {
                  blockers = extend old.blockers blockers;
                  decision = record (old.decision) { dependencies = deps; kind = kind };
                })
                s.decisions;
        })
        × (old.retracted ≡ false)
  unfolding renew_decision decision
  renew_decision_writes id deps assessed h = elim (Option-cases (get s.decisions id)) [
    | inl e ↦ absurd (ground arith)
    | inr (old, e) ↦ elim (Result-cases (renewed_kind old.decision.kind assessed)) [
      | inl (kind, f) ↦ elim (Result-cases (kind_blockers s kind)) [
        | inl (b, g) ↦ (old, kind, b, e, f, ground arith, ground arith, ground arith)
        | inr (x, g) ↦ absurd (ground arith)
      ]
      | inr (x, f) ↦ absurd (ground arith)
    ]
  ]

  pub reaffirm_writes :
      (id : DecisionId) (deps : List Dependency) (assessed : Option AssessmentId) {e : Effect}
      {t : State}
      → reaffirm s id deps assessed v ≡ (ok e, t)
      → (p : ProposalId) × (s' : State) × (o : Option AgreementId) × (renew_decision s id deps
            assessed v
          ≡ ok (p, s'))
        × (activate s' p v ≡ (ok o, t))
        × (e ≡ Effect.reaffirmed id o)
  unfolding reaffirm
  reaffirm_writes id deps assessed {t} h =
      elim (Result-cases (renew_decision s id deps assessed v)) [
        | inl ((p, s'), q) ↦ elim (Result-cases (activate s' p v).0) [
          | inl (o, r) ↦ (p, s', o, q, ground arith, ground arith)
          | inr (x, r) ↦ absurd (ground arith)
        ]
        | inr (x, p) ↦ absurd (ground arith)
      ]

  -- The proposal of a renewed decision is current, or expects the current agreement.
  pub renew_decision_ready :
      (id : DecisionId) (deps : List Dependency) (assessed : Option AssessmentId) {p : ProposalId}
      {t : State}
      → renew_decision s id deps assessed v ≡ ok (p, t)
      → (q : Proposal) × (proposal s p ≡ ok q)
        × ((s.current ≡ some q.agreement) ⊎ (q.expected_agreement ≡ s.current))
  unfolding renew_decision
  renew_decision_ready id deps assessed {p} h = elim (Result-cases (decision s id)) [
    | inr (x, e) ↦ absurd (ground arith)
    | inl (old, e) ↦ elim (Result-cases (proposal s old.decision.proposal)) [
      | inr (x, f) ↦ absurd (ground arith)
      | inl (q, f) ↦
          let same : p ≡ old.decision.proposal = ground arith in
          elim (Bool-cases (option_eq.same s.current (some q.agreement))) [
            | inl g ↦ (q, rw same f, inl (eq_of_beq s.current (some q.agreement) g))
            | inr g ↦
                (q, rw same f, inr (eq_of_not_bne q.expected_agreement s.current (ground arith)))
          ]
    ]
  ]
