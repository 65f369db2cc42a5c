-- ===== src/Kernel/Rules/Activation.antt =====
-- `State::activate`: a proposal with both decisions becomes the current agreement (rules.rs).
use changekernel.Base.{
  List, [], ◌∷◌, Option, none, some, Bool, true, false, ◌||◌, Result, ok, err, reject_if, ok_or,
  ◌>>=◌, ◌>>◌, if◌then◌else◌,
}
use changekernel.Base.Order.{◌==◌, ◌!=◌, option_eq}
use changekernel.Base.BTreeSet.{BTreeSet, extend}
use changekernel.Base.BTreeMap.{BTreeMap, get, insert}
use changekernel.Kernel.Ids.{ProposalId, AgreementId, DecisionId, Error, id_eq, id_ord}
use changekernel.Kernel.Keys.{ContentKey, content_key_ord}
use changekernel.Kernel.Model.Terms.{Proposal, DecisionKind}
use changekernel.Kernel.State.{State, EffectiveDecision, Agreement, Validation}
use changekernel.Kernel.Rules.Lookup.{proposal, decision, agreement, is_settled}
use changekernel.Kernel.Rules.Dependencies.{decision_dependencies, dependencies_valid}

-- A method on `&mut self` leaves a state also where it returns an error.
abbrev pub Outcome : Type 0 → Type 0
Outcome A = Result Error A × State

-- Checks and one write at the end: on an error nothing was written.
abbrev pub commit : {A : Type 0} → State → Result Error (A × State) → Outcome A
commit s (ok (a, s')) = (ok a, s')
commit s (err e) = (err e, s)

-- The two variables that the loop of `activate` fills.
pub record Candidates : Type 0 where
  pub adopt : Option DecisionId
  pub undertake : Option DecisionId

abbrev pub note : DecisionKind → DecisionId → Candidates → Candidates
note DecisionKind.adopt id c = record c { adopt = some id }
note (DecisionKind.undertake _) id c = record c { undertake = some id }

abbrev pub is_err {ℓ} : {A : Type ℓ} → Result Error A → Bool
is_err (ok _) = false
is_err (err _) = true

-- One round of that loop.
unfoldable pub consider :
    State
    → ProposalId
    → Validation
    → DecisionId
    → EffectiveDecision
    → Candidates
    → Result Error Candidates
consider s id v key d c = if d.retracted || d.decision.proposal != id then ok c else do
  deps ← decision_dependencies s d.decision
  if is_err (dependencies_valid deps v.grounds) then ok c else ok (note d.decision.kind key c)

unfoldable pub candidates :
    State
    → ProposalId
    → Validation
    → List (DecisionId × EffectiveDecision)
    → Candidates
    → Result Error Candidates
candidates s id v [] c = ok c
candidates s id v ((key, d) ∷ rest) c = do c' ← consider s id v key d c; candidates s id v rest c'

-- `if let Some(current) = &self.current { blockers.extend(..) }`
unfoldable pub inherited :
    State → Option AgreementId → BTreeSet ContentKey → Result Error (BTreeSet ContentKey)
inherited s none blockers = ok blockers
inherited s (some id) blockers = do a ← agreement s id; ok (extend blockers a.blockers)

-- `self.decisions.get_mut(id).ok_or(Error::Invalid)?.matched = true`
unfoldable pub mark_matched :
    BTreeMap DecisionId EffectiveDecision
    → DecisionId
    → Result Error (BTreeMap DecisionId EffectiveDecision)
mark_matched decisions id = do
  d ← ok_or (get decisions id) Error.invalid
  ok (insert id (record d { matched = true }) decisions)

abbrev pub agreed : Proposal → DecisionId → DecisionId → BTreeSet ContentKey → Agreement
agreed p adoption undertaking blockers = record {
  proposal = p.id;
  adoption = adoption;
  undertaking = undertaking;
  blockers = blockers;
}

-- The three writes: both decisions, then the agreement.
unfoldable pub conclude :
    State → Proposal → DecisionId → DecisionId → BTreeSet ContentKey → Outcome (Option AgreementId)
conclude s p adoption undertaking blockers = elim (mark_matched s.decisions adoption) [
  | err e ↦ (err e, s)
  | ok once ↦ elim (mark_matched once undertaking) [
    | err e ↦ (err e, record s { decisions = once })
    | ok twice ↦ (
      ok (some p.agreement),
      record s {
        decisions = twice;
        agreements = insert p.agreement (agreed p adoption undertaking blockers) s.agreements;
        current = some p.agreement;
      },
    )
  ]
]

unfoldable pub gather_blockers : State → DecisionId → Result Error (BTreeSet ContentKey)
unfolding inherited
gather_blockers s undertaking = do u ← decision s undertaking; inherited s s.current u.blockers

unfoldable pub activate_new : State → Proposal → Candidates → Outcome (Option AgreementId)
activate_new s p c = elim c.adopt [
  | none ↦ (ok none, s)
  | some adoption ↦ elim c.undertake [
    | none ↦ (ok none, s)
    | some undertaking ↦ elim (gather_blockers s undertaking) [
      | err e ↦ (err e, s)
      | ok blockers ↦ conclude s p adoption undertaking blockers
    ]
  ]
]

-- The branch for a proposal that is the current agreement: its blockers grow.
unfoldable pub refresh : State → Proposal → Result Error (Option AgreementId × State)
refresh s p = do
  a ← agreement s p.agreement
  u ← decision s a.undertaking
  a' ← ok_or (get s.agreements p.agreement) Error.invalid
  let grown = record a' { blockers = extend a'.blockers u.blockers }
  ok (none, record s { agreements = insert p.agreement grown s.agreements })

unfoldable pub search_candidates :
    State → ProposalId → Proposal → Validation → Result Error Candidates
search_candidates s id p v = do
  reject_if (p.expected_agreement != s.current || is_settled s) Error.stale
  candidates s id v s.decisions (record { adopt = none; undertake = none })

unfoldable pub activate : State → ProposalId → Validation → Outcome (Option AgreementId)
activate s id v = elim (proposal s id) [
  | err e ↦ (err e, s)
  | ok p ↦
      if s.current == some p.agreement
      then commit s (refresh s p)
      else elim (search_candidates s id p v) [ err e ↦ (err e, s) | ok c ↦ activate_new s p c ]
]
