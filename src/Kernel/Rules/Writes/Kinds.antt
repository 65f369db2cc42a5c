-- ===== src/Kernel/Rules/Writes/Kinds.antt =====
-- The kinds of write that an accepted command makes, each to one part of the state.
use changekernel.Base.{
  ℕ, ◌+◌, ◌<◌, ◌≡◌, ◌≢◌, refl, ◌++◌, List, Option, none, some, true, false, ok, arith, ◌⊎◌, inr,
  ◌∙◌, ap,
}
use changekernel.Base.BTreeMap.{get, insert}
use changekernel.Kernel.Ids.{AgreementId, ProposalId, ActionId, GrantId, id_ord}
use changekernel.Kernel.Model.Terms.{Assessment, Evidence, Proposal}
use changekernel.Kernel.Model.Grants.{Grant}
use changekernel.Kernel.Model.Actions.{Action, ActionOutcome, ActionPhase}
use changekernel.Kernel.Model.Commands.{Command, Effect, Settlement}
use changekernel.Kernel.State.{State, Validation}
use changekernel.Kernel.Rules.Activation.{activate}
use changekernel.Kernel.Rules.Transition.{perform}
use changekernel.Kernel.Rules.Transition.Granting.{granted, next_generation}
use changekernel.Kernel.Rules.Transition.Acting.{admitted_action, reported_phase}
use changekernel.Kernel.Rules.Writes.{
  initiate_writes, propose_writes, assess_writes, retract_writes, set_grant_writes,
  revoke_grant_writes, admit_writes, dispatch_writes, reconcile_writes, finding_writes,
  adapt_writes, progress_writes, fulfill_writes, withdraw_writes,
}
use changekernel.Kernel.Rules.Writes.Decisions.{
  KeepsRest, activate-KeepsRest, enter_decision_writes, decide_writes, renew_decision_writes,
  reaffirm_writes,
}
use changekernel.Kernel.Rules.Writes.Computed.{
  IsComputed, IsComputed-insert, activate-IsComputed, enter_decision-IsComputed,
  renew_decision-IsComputed,
}
use changekernel.Kernel.Rules.Writes.Steps.{commit_ok}

-- Later states of one grant: the same, or a later generation of a grant that was not revoked.
abbrev pub IsLater : Grant → Grant → Type 0
IsLater g g' = (g' ≡ g) ⊎ ((g.revoked ≡ false) × (g.generation < g'.generation))

-- How one entry of `actions` may change.
pub data ActionStep : Option Action → Action → Type 0 where
  admits :
      {o : Option Action} {a : Action} → o ≡ none → a.phase ≡ ActionPhase.admitted → ActionStep o a
  dispatches :
      {o : Option Action} {a : Action} (old : Action)
      → o ≡ some old
      → old.phase ≡ ActionPhase.admitted
      → a ≡ record old { phase = ActionPhase.dispatched }
      → ActionStep o a
  reports :
      {o : Option Action} {a : Action} (old : Action) (evidence : List Evidence)
      (outcome : ActionOutcome)
      → o ≡ some old
      → old.phase ≢ ActionPhase.admitted
      → a ≡ record old {
        evidence = old.evidence ++ evidence;
        outcome = outcome;
        phase = reported_phase outcome;
      }
      → ActionStep o a

-- What becomes of the agreements when a command writes a decision.
pub data Decides (s t : State) : Type 0 where
  quiet : t.agreements ≡ s.agreements → t.current ≡ s.current → Decides s t
  activating :
      (s' : State) (id : ProposalId) (v : Validation) (o : Option AgreementId)
      → s'.agreements ≡ s.agreements
      → s'.current ≡ s.current
      → activate s' id v ≡ (ok o, t)
      → Decides s t

pub data Wrote (s t : State) : Type 0 where
  nothing : t ≡ s → Wrote s t
  initiation : t ≡ record s { initiated = true } → Wrote s t
  proposed :
      (p : Proposal)
      → t ≡ record s { proposals = insert p.id p s.proposals }
      → get s.proposals p.id ≡ none
      → Wrote s t
  assessed :
      (a : Assessment)
      → t ≡ record s { assessments = insert a.id a s.assessments }
      → get s.assessments a.id ≡ none
      → Wrote s t
  decided : KeepsRest s t → Decides s t → (IsComputed s → IsComputed t) → Wrote s t
  granting :
      (id : GrantId) (new : Grant)
      → t ≡ record s { grants = insert id new s.grants }
      → ((g : Grant) → get s.grants id ≡ some g → IsLater g new)
      → Wrote s t
  acting :
      (id : ActionId) (new : Action)
      → t ≡ record s { actions = insert id new s.actions }
      → ActionStep (get s.actions id) new
      → Wrote s t
  settling : (x : Settlement) → t ≡ record s { settlement = some x } → Wrote s t

next_generation_later :
    (o : Option Grant) (expected : Option ℕ) (n : ℕ) (g : Grant)
    → next_generation o expected ≡ ok n
    → o ≡ some g
    → (g.revoked ≡ false) × (g.generation < n)
unfolding next_generation
next_generation_later o expected n g h e = ground arith

KeepsRest-trans : {s t u : State} → KeepsRest s t → KeepsRest t u → KeepsRest s u
KeepsRest-trans a b = record {
  identity = b.identity ∙ a.identity;
  initiated = b.initiated ∙ a.initiated;
  settlement = b.settlement ∙ a.settlement;
  proposals = b.proposals ∙ a.proposals;
  assessments = b.assessments ∙ a.assessments;
  grants = b.grants ∙ a.grants;
  actions = b.actions ∙ a.actions;
  content_items = b.content_items ∙ a.content_items;
  established = b.established ∙ a.established;
}

-- Every accepted command makes one of these writes.
pub perform_wrote :
    (s t : State) (e : Effect) (c : Command) (v : Validation)
    → perform s c v ≡ (ok e, t)
    → Wrote s t
unfolding perform
perform_wrote s t e (Command.initiate _ access) v h =
    Wrote.initiation (initiate_writes s v access (commit_ok s _ h))
perform_wrote s t e (Command.propose p access) v h =
    let (w, n) = propose_writes s v p access (commit_ok s _ h) in Wrote.proposed p w n
perform_wrote s t e (Command.assess a access) v h =
    let (w, n) = assess_writes s v a access (commit_ok s _ h) in Wrote.assessed a w n
perform_wrote s t e (Command.decide d) v h =
    let (s', o, p, q, _) = decide_writes s v d h in
    let (b, _, w, _, _) = enter_decision_writes s v d p in
    Wrote.decided
      (KeepsRest-trans (ground arith)
        (rw (ap (λ r. r.1) q) at (activate-KeepsRest s' d.proposal v)))
      (Decides.activating s' d.proposal v o (ground arith) (ground arith) q)
      (λ k. activate-IsComputed s' t d.proposal v o q (enter_decision-IsComputed s v d p k))
perform_wrote s t e (Command.retract id) v h =
    let (d, found, _, w) = retract_writes s v id (commit_ok s _ h) in
    Wrote.decided (ground arith) (Decides.quiet (ground arith) (ground arith)) (λ k.
      IsComputed-insert s t id (record d { retracted = true }) (ground arith) (ground arith)
        (ground arith) (k.each id d found) k)
perform_wrote s t e (Command.reaffirm id deps renewed) v h =
    let (p, s', o, q, r, _) = reaffirm_writes s v id deps renewed h in
    let (old, k, b, _, _, _, w, _) = renew_decision_writes s v id deps renewed q in
    Wrote.decided
      (KeepsRest-trans (ground arith) (rw (ap (λ r. r.1) r) at (activate-KeepsRest s' p v)))
      (Decides.activating s' p v o (ground arith) (ground arith) r)
      (λ x. activate-IsComputed s' t p v o r (renew_decision-IsComputed s v id deps renewed q x))
perform_wrote s t e (Command.set_grant id expected spec) v h =
    let (n, p, w, _) = set_grant_writes s v id expected spec (commit_ok s _ h) in
    Wrote.granting id (granted id n spec) w
      (λ g q. inr (next_generation_later (get s.grants id) expected n g p q))
perform_wrote s t e (Command.revoke_grant id expected) v h =
    let (g, p, r, w) = revoke_grant_writes s v id expected (commit_ok s _ h) in
    Wrote.granting id (record g { generation = g.generation + 1; revoked = true }) w
      (λ g' q. inr (ground arith, ground arith))
perform_wrote s t e (Command.admit a) v h =
    let (deps, w, n, _) = admit_writes s v a (commit_ok s _ h) in
    Wrote.acting a.id (admitted_action a v deps) w (ActionStep.admits n refl)
perform_wrote s t e (Command.dispatch id) v h =
    let (a, p, q, w, _, _) = dispatch_writes s v id (commit_ok s _ h) in
    Wrote.acting id (record a { phase = ActionPhase.dispatched }) w
      (ActionStep.dispatches a p q refl)
perform_wrote s t e (Command.finding f access) v h =
    Wrote.nothing (finding_writes s v f access (commit_ok s _ h))
perform_wrote s t e (Command.adapt a access) v h =
    Wrote.nothing (adapt_writes s v a access (commit_ok s _ h))
perform_wrote s t e (Command.progress p access) v h =
    Wrote.nothing (progress_writes s v p access (commit_ok s _ h))
perform_wrote s t e (Command.fulfill f) v h =
    Wrote.settling _ (fulfill_writes s v f (commit_ok s _ h))
perform_wrote s t e (Command.withdraw _) v h =
    Wrote.settling _ (withdraw_writes s v (commit_ok s _ h))
perform_wrote s t e (Command.reconcile action used evidence outcome) v h =
    let (a, p, q, w) = reconcile_writes s v action used evidence outcome (commit_ok s _ h) in
    Wrote.acting action _ w (ActionStep.reports a evidence outcome p q refl)
