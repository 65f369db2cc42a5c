-- ===== src/Guarantees/Settled.antt =====
-- A settled Change: what it still accepts, and what no longer changes.
use changekernel.Base.{ℕ, ◌≡◌, refl, Option, some, true, ok, arith, List}
use changekernel.Kernel.Ids.{ActionId, GrantId}
use changekernel.Kernel.Keys.{GrantUse, GrantTarget}
use changekernel.Kernel.Model.Terms.{Evidence}
use changekernel.Kernel.Model.Grants.{GrantSpec}
use changekernel.Kernel.Model.Actions.{ActionOutcome}
use changekernel.Kernel.Model.Commands.{Command, Effect, Settlement}
use changekernel.Kernel.State.{State, Validation}
use changekernel.Kernel.Rules.Transition.{perform, transition, entry, allowed_when_settled}
use changekernel.Kernel.Rules.Writes.{set_grant_writes, revoke_grant_writes, reconcile_writes}
use changekernel.Kernel.Rules.Writes.Steps.{commit_ok, transition_ok, Reach, Reach-induction}

-- The commands of a settled Change: reports on actions, grants for such reports and revocations.
pub data Closing : Command → Type 0 where
  report :
      (action : ActionId) (used : GrantUse) (evidence : List Evidence) (outcome : ActionOutcome)
      → Closing (Command.reconcile action used evidence outcome)
  revocation : (id : GrantId) (expected : ℕ) → Closing (Command.revoke_grant id expected)
  reconciliation_grant :
      (id : GrantId) (expected : Option ℕ) (spec : GrantSpec) (actions : List ActionId)
      → spec.target ≡ GrantTarget.reconciliation actions
      → Closing (Command.set_grant id expected spec)

allowed-Closing : (c : Command) → allowed_when_settled c ≡ true → Closing c
unfolding allowed_when_settled
allowed-Closing (Command.reconcile action used evidence outcome) h =
    Closing.report action used evidence outcome
allowed-Closing (Command.revoke_grant id expected) h = Closing.revocation id expected
allowed-Closing (Command.set_grant id expected spec) h = target spec.target refl
  where
    target : (g : GrantTarget) → spec.target ≡ g → Closing (Command.set_grant id expected spec)
    target (GrantTarget.reconciliation actions) e =
        Closing.reconciliation_grant id expected spec actions e
    target g e = absurd (cc)
allowed-Closing c h = absurd (cc)

-- What a settled Change no longer changes.
pub record IsFrozen (s t : State) : Type 0 where
  pub settlement : t.settlement ≡ s.settlement
  pub current : t.current ≡ s.current
  pub agreements : t.agreements ≡ s.agreements
  pub decisions : t.decisions ≡ s.decisions
  pub proposals : t.proposals ≡ s.proposals
  pub assessments : t.assessments ≡ s.assessments

entry_settled :
    (s : State) (c : Command) (v : Validation) {x : Settlement}
    → s.settlement ≡ some x
    → entry s c v ≡ ok tt
    → allowed_when_settled c ≡ true
unfolding entry
entry_settled s c v h e = ground arith

perform-IsFrozen :
    (s t : State) (e : Effect) (c : Command) (v : Validation)
    → Closing c
    → perform s c v ≡ (ok e, t)
    → IsFrozen s t
unfolding perform
perform-IsFrozen s t e c v (Closing.report action used evidence outcome) h =
    let (a, p, q, w) = reconcile_writes s v action used evidence outcome (commit_ok s _ h) in
    ground arith
perform-IsFrozen s t e c v (Closing.revocation id expected) h =
    let (g, p, r, w) = revoke_grant_writes s v id expected (commit_ok s _ h) in ground arith
perform-IsFrozen s t e c v (Closing.reconciliation_grant id expected spec actions p) h =
    let (n, q, w, x) = set_grant_writes s v id expected spec (commit_ok s _ h) in ground arith

IsFrozen-trans : (s t u : State) → IsFrozen s t → IsFrozen t u → IsFrozen s u
IsFrozen-trans s t u p q = ground arith

-- A settled Change accepts nothing but reports on actions, grants whose target is a reconciliation,
-- and revocations; and what it accepts leaves the settlement, the current agreement and all
-- agreements, decisions, proposals and assessments as they are.
pub settled_accepts :
    (s t : State) (c : Command) (v : Validation) (e : Effect) (x : Settlement)
    → s.settlement ≡ some x
    → transition s c v ≡ (ok e, t)
    → Closing c × IsFrozen s t
settled_accepts s t c v e x h k =
    let (open', done) = transition_ok s c v k in
    let closing = allowed-Closing c (entry_settled s c v h open') in
    (closing, perform-IsFrozen s t e c v closing done)

-- Once a Change is settled, no history of accepted operations changes its settlement, its current
-- agreement, or any agreement, decision, proposal or assessment.
pub settled_forever :
    {s t : State} (x : Settlement) → s.settlement ≡ some x → Reach s t → IsFrozen s t
settled_forever {s} x h =
    Reach-induction (IsFrozen s)
      (λ t u e c v k f. IsFrozen-trans s t u f (settled_accepts t u c v e x (ground arith) k).1)
      (λ r t f. ground arith) s (ground arith)
