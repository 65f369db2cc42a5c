-- ===== src/Guarantees/Consent/Histories.antt =====
-- Consent over single transitions and over histories of them.
use changekernel.Base.{
  ◌∙◌, ◌≡◌, ◌≢◌, refl, Option, none, some, true, false, ok, arith, inl, inr, Bool-cases, sym, List,
}
use changekernel.Base.BTreeMap.{get, insert, get-insert}
use changekernel.Kernel.Ids.{AgreementId, AssessmentId, DecisionId, ProposalId, id_eq, id_ord}
use changekernel.Kernel.Keys.{Identity}
use changekernel.Kernel.Model.Terms.{DecisionKind, Dependency, Proposal, Decision}
use changekernel.Kernel.Model.Commands.{Command, Effect}
use changekernel.Kernel.State.{
  State, Validation, EffectiveDecision, Agreement, Authority, try_new, empty_state,
}
use changekernel.Kernel.Rules.Lookup.{party}
use changekernel.Kernel.Rules.Transition.{perform, transition}
use changekernel.Kernel.Rules.Transition.Deciding.{effective, renew_decision, renewed_kind}
use changekernel.Kernel.Rules.Writes.{
  initiate_writes, propose_writes, assess_writes, retract_writes, set_grant_writes,
  revoke_grant_writes, admit_writes, dispatch_writes, reconcile_writes, finding_writes,
  adapt_writes, progress_writes, fulfill_writes, withdraw_writes,
}
use changekernel.Kernel.Rules.Writes.Noted.{is_adopt}
use changekernel.Kernel.Rules.Writes.Decisions.{
  enter_decision_writes, decide_writes, renew_decision_writes, reaffirm_writes,
}
use changekernel.Kernel.Rules.Writes.Steps.{
  commit_ok, transition_ok, Retention, retain, Reach, Reach-induction,
}
use changekernel.Guarantees.Authority.{IsParty, party-IsParty}
use changekernel.Guarantees.Consent.{party_of, IsConsented, IsConsented-frame, IsConsented-same}
use changekernel.Guarantees.Consent.Decisions.{IsConsented-insert, activate-IsConsented}

record IsUntouched (s t : State) : Type 0 where
  identity : t.identity ≡ s.identity
  decisions : t.decisions ≡ s.decisions
  agreements : t.agreements ≡ s.agreements
  current : t.current ≡ s.current
  proposals : t.proposals ≡ s.proposals

IsUntouched-IsConsented : {s t : State} → IsUntouched s t → IsConsented s → IsConsented t
IsUntouched-IsConsented {s} {t} u h =
    IsConsented-same s t u.identity u.decisions u.agreements u.current u.proposals h

proposed-IsConsented :
    (s t : State) (p : Proposal)
    → t ≡ record s { proposals = insert p.id p s.proposals }
    → get s.proposals p.id ≡ none
    → IsConsented s
    → IsConsented t
proposed-IsConsented s t p w n h =
    IsConsented-frame s t (ground arith) (ground arith) (ground arith) (ground arith)
      (λ id q e. ground (arith, get-insert p.id id p s.proposals, id_eq.same_iff id p.id))
      (λ id q e. elim (Bool-cases (id_eq.same id p.id)) [
        | inl same ↦ ground (arith, get-insert p.id id p s.proposals, id_eq.same_iff id p.id)
        | inr other ↦ h.keyed id q (ground (arith, get-insert p.id id p s.proposals))
      ])
      h

party-party_of :
    (s : State) (a : Authority) (k : DecisionKind) → IsParty s a k → a.actor ≡ party_of s.identity k
party-party_of s a DecisionKind.adopt h = h.actor
party-party_of s a (DecisionKind.undertake _) h = h.actor

renewed_kind_adopt :
    (k k' : DecisionKind) (o : Option AssessmentId)
    → renewed_kind k o ≡ ok k'
    → is_adopt k' ≡ is_adopt k
unfolding renewed_kind
renewed_kind_adopt k k' o h = ground arith

party_of_kind :
    (i : Identity) (k k' : DecisionKind) → is_adopt k' ≡ is_adopt k → party_of i k' ≡ party_of i k
party_of_kind i k k' h = ground arith

pub decided-IsConsented :
    (s s' : State) (d : Decision) (v : Validation) (b : _)
    → s' ≡ record s { decisions = insert d.id (effective d v b) s.decisions }
    → get s.decisions d.id ≡ none
    → party s d.kind v.authority ≡ ok tt
    → IsConsented s
    → IsConsented s'
decided-IsConsented s s' d v b w n p h = rw w (
    IsConsented-insert s d.id (effective d v b) (λ old e. absurd (cc))
      (party-party_of s v.authority d.kind (party-IsParty s v.authority d.kind p)) h)

pub renewed-IsConsented :
    (s s' : State) (id : DecisionId) (deps : List Dependency) (renewed : Option AssessmentId)
    (v : Validation) (p : ProposalId)
    → renew_decision s id deps renewed v ≡ ok (p, s')
    → IsConsented s
    → IsConsented s'
renewed-IsConsented s s' id deps renewed v p q k =
    let (old, kind, b, f, g, _, w, live) = renew_decision_writes s v id deps renewed q in
    let same : is_adopt kind ≡ is_adopt old.decision.kind =
      renewed_kind_adopt old.decision.kind kind renewed g in
    rw w (
      IsConsented-insert s id _ (λ x y. ground arith)
        (k.parties id old f ∙ sym (party_of_kind s.identity old.decision.kind kind same)) k)

perform-IsConsented :
    (s t : State) (e : Effect) (c : Command) (v : Validation)
    → perform s c v ≡ (ok e, t)
    → IsConsented s
    → IsConsented t
unfolding perform
perform-IsConsented s t e (Command.initiate _ access) v h k =
    let w = initiate_writes s v access (commit_ok s _ h) in IsUntouched-IsConsented (ground arith) k
perform-IsConsented s t e (Command.propose p access) v h k =
    let (w, n) = propose_writes s v p access (commit_ok s _ h) in proposed-IsConsented s t p w n k
perform-IsConsented s t e (Command.assess a access) v h k =
    let (w, n) = assess_writes s v a access (commit_ok s _ h) in
    IsUntouched-IsConsented (ground arith) k
perform-IsConsented s t e (Command.decide d) v h k =
    let (s', o, p, q, _) = decide_writes s v d h in
    let (b, _, w, n, r) = enter_decision_writes s v d p in
    activate-IsConsented s' t d.proposal v o q (decided-IsConsented s s' d v b w n r k)
perform-IsConsented s t e (Command.retract id) v h k =
    let (d, f, m, w) = retract_writes s v id (commit_ok s _ h) in
    rw w (
      IsConsented-insert s id (record d { retracted = true }) (λ old g. ground arith)
        (k.parties id d f) k)
perform-IsConsented s t e (Command.reaffirm id deps renewed) v h k =
    let (p, s', o, q, r, _) = reaffirm_writes s v id deps renewed h in
    activate-IsConsented s' t p v o r (renewed-IsConsented s s' id deps renewed v p q k)
perform-IsConsented s t e (Command.set_grant id expected spec) v h k =
    let (n, p, w, _) = set_grant_writes s v id expected spec (commit_ok s _ h) in
    IsUntouched-IsConsented (ground arith) k
perform-IsConsented s t e (Command.revoke_grant id expected) v h k =
    let (g, p, r, w) = revoke_grant_writes s v id expected (commit_ok s _ h) in
    IsUntouched-IsConsented (ground arith) k
perform-IsConsented s t e (Command.admit a) v h k =
    let (deps, w, n, _) = admit_writes s v a (commit_ok s _ h) in
    IsUntouched-IsConsented (ground arith) k
perform-IsConsented s t e (Command.dispatch id) v h k =
    let (a, p, q, w, _, _) = dispatch_writes s v id (commit_ok s _ h) in
    IsUntouched-IsConsented (ground arith) k
perform-IsConsented s t e (Command.finding f access) v h k =
    let w = finding_writes s v f access (commit_ok s _ h) in rw w k
perform-IsConsented s t e (Command.adapt a access) v h k =
    let w = adapt_writes s v a access (commit_ok s _ h) in rw w k
perform-IsConsented s t e (Command.progress p access) v h k =
    let w = progress_writes s v p access (commit_ok s _ h) in rw w k
perform-IsConsented s t e (Command.fulfill f) v h k =
    let w = fulfill_writes s v f (commit_ok s _ h) in IsUntouched-IsConsented (ground arith) k
perform-IsConsented s t e (Command.withdraw _) v h k =
    let w = withdraw_writes s v (commit_ok s _ h) in IsUntouched-IsConsented (ground arith) k
perform-IsConsented s t e (Command.reconcile action used evidence outcome) v h k =
    let (a, p, q, w) = reconcile_writes s v action used evidence outcome (commit_ok s _ h) in
    IsUntouched-IsConsented (ground arith) k

-- Every accepted command keeps the consent.
pub transition-IsConsented :
    (s t : State) (c : Command) (v : Validation) (e : Effect)
    → IsConsented s
    → transition s c v ≡ (ok e, t)
    → IsConsented t
transition-IsConsented s t c v e k h = perform-IsConsented s t e c v (transition_ok s c v h).1 k

new-IsConsented : (i : Identity) (s : State) → try_new i ≡ ok s → IsConsented s
unfolding try_new get
new-IsConsented i s h =
    let fresh : s ≡ empty_state i = ground arith in
    let differ : i.owner_actor ≢ i.agent =
      λ e. ground (arith, id_eq.same_iff i.owner_actor i.agent) in
    rw fresh (record {
      parties_differ = differ;
      decisions_sorted = tt;
      parties = λ id d e. absurd (cc);
      keyed = λ id p e. absurd (cc);
      backed = λ a g e. absurd (cc);
      active = λ a e. absurd (cc);
    })

retain-IsConsented : (r : Retention) (t : State) → IsConsented t → IsConsented (retain r t)
retain-IsConsented r t h = IsUntouched-IsConsented (ground arith) h

-- From a new Change, every history of accepted operations leads to a state with this consent.
pub history-IsConsented :
    (i : Identity) (s t : State) → try_new i ≡ ok s → Reach s t → IsConsented t
history-IsConsented i s t h =
    Reach-induction IsConsented (λ t u e c v k f. transition-IsConsented t u c v e f k)
      retain-IsConsented s (new-IsConsented i s h)

-- What the consent says of one agreement: two decisions about one proposal, by different actors.
pub record IsMutual (s : State) (a : AgreementId) : Type 0 where
  pub g : Agreement
  pub p : Proposal
  pub adoption : EffectiveDecision
  pub undertaking : EffectiveDecision
  pub agreement_found : get s.agreements a ≡ some g
  pub proposal_found : get s.proposals g.proposal ≡ some p
  pub proposal_names : p.agreement ≡ a
  pub adoption_found : get s.decisions g.adoption ≡ some adoption
  pub undertaking_found : get s.decisions g.undertaking ≡ some undertaking
  pub adoption_about : adoption.decision.proposal ≡ g.proposal
  pub undertaking_about : undertaking.decision.proposal ≡ g.proposal
  pub adopts : adoption.decision.kind ≡ DecisionKind.adopt
  pub undertakes :
      (basis : AssessmentId) × (undertaking.decision.kind ≡ DecisionKind.undertake basis)
  pub adoption_live : adoption.retracted ≡ false
  pub undertaking_live : undertaking.retracted ≡ false
  pub adopter : adoption.actor ≡ s.identity.owner_actor
  pub undertaker : undertaking.actor ≡ s.identity.agent
  pub actors_differ : adoption.actor ≢ undertaking.actor

adopt_of : (k : DecisionKind) → is_adopt k ≡ true → k ≡ DecisionKind.adopt
adopt_of k h = ground arith

undertake_of :
    (k : DecisionKind)
    → is_adopt k ≡ false
    → (basis : AssessmentId) × (k ≡ DecisionKind.undertake basis)
undertake_of DecisionKind.adopt h = absurd (cc)
undertake_of (DecisionKind.undertake basis) h = (basis, refl)

party_adopt : (i : Identity) (k : DecisionKind) → is_adopt k ≡ true → party_of i k ≡ i.owner_actor
party_adopt i k h = ground arith

party_undertake : (i : Identity) (k : DecisionKind) → is_adopt k ≡ false → party_of i k ≡ i.agent
party_undertake i k h = ground arith

-- In every state that a history of accepted operations reaches from a new Change, the current
-- agreement is recorded, its proposal names it, and it rests on an adoption by the owner's actor and
-- an undertaking by the agent, two different actors, both about that proposal and neither retracted.
pub current_agreement-IsMutual :
    (i : Identity) (s t : State) (a : AgreementId)
    → try_new i ≡ ok s
    → Reach s t
    → t.current ≡ some a
    → IsMutual t a
current_agreement-IsMutual i s t a h path now =
    let k = history-IsConsented i s t h path in
    let (g, found) = k.active a now in
    let b = k.backed a g found in
    let d = b.adoption in
    let u = b.undertaking in
    let by_owner : d.d.actor ≡ t.identity.owner_actor =
      k.parties g.adoption d.d d.found ∙ party_adopt t.identity d.d.decision.kind d.kind in
    let by_agent : u.d.actor ≡ t.identity.agent =
      k.parties g.undertaking u.d u.found ∙ party_undertake t.identity u.d.decision.kind u.kind in
    record {
      g = g;
      p = b.p;
      adoption = d.d;
      undertaking = u.d;
      agreement_found = found;
      proposal_found = b.proposal;
      proposal_names = b.names;
      adoption_found = d.found;
      undertaking_found = u.found;
      adoption_about = d.about;
      undertaking_about = u.about;
      adopts = adopt_of d.d.decision.kind d.kind;
      undertakes = undertake_of u.d.decision.kind u.kind;
      adoption_live = d.live;
      undertaking_live = u.live;
      adopter = by_owner;
      undertaker = by_agent;
      actors_differ = λ e. k.parties_differ (sym by_owner ∙ e ∙ by_agent);
    }
