-- ===== src/Kernel/Rules/Writes.antt =====
-- What each command of `State::transition` writes when it is accepted.
pub mod Decisions
pub mod Noted
pub mod Activated
pub mod Computed
pub mod Steps
pub mod Kinds
use changekernel.Base.{
  List, Option-cases, Result-cases, inl, inr, ◌+◌, ◌≢◌, ℕ, ◌≡◌, refl, ◌++◌, Option, none, some,
  Bool, true, false, Result, ok, err, arith,
}
use changekernel.Base.BTreeMap.{get, insert}
use changekernel.Kernel.Ids.{GrantId, ActionId, AgreementId, DecisionId, ProposalId, id_ord}
use changekernel.Kernel.Keys.{GrantUse}
use changekernel.Kernel.Model.Terms.{Proposal, Assessment, Decision, Dependency, Evidence}
use changekernel.Kernel.Model.Grants.{Access, GrantAction, Grant, GrantSpec}
use changekernel.Kernel.Model.Actions.{
  ActionRequest, Action, ActionPhase, Finding, Adaptation, Progress, Fulfillment, ActionOutcome,
  phase_eq,
}
use changekernel.Kernel.Model.Commands.{Effect, Settlement}
use changekernel.Kernel.State.{State, Validation, EffectiveDecision}
use changekernel.Kernel.Rules.Lookup.{decision}
use changekernel.Kernel.Rules.Permission.{native_grant}
use changekernel.Kernel.Rules.Dependencies.{agreement_dependencies}
use changekernel.Kernel.Rules.Transition.Drafting.{initiate, propose, assess}
use changekernel.Kernel.Rules.Transition.Deciding.{retract}
use changekernel.Kernel.Rules.Transition.Granting.{
  set_grant, revoke_grant, granted, next_generation,
}
use changekernel.Kernel.Rules.Transition.Acting.{
  admit, dispatch, reconcile, admitted_action, reported_phase,
}
use changekernel.Kernel.Rules.Transition.Reporting.{finding, adapt, progress}
use changekernel.Kernel.Rules.Transition.Settling.{fulfill, withdraw}

module _ (s : State) (v : Validation) {e : Effect} {t : State} where
  pub initiate_writes :
      (access : Access) → initiate s access v ≡ ok (e, t) → t ≡ record s { initiated = true }
  unfolding initiate
  initiate_writes access h = ground arith

  pub propose_writes :
      (p : Proposal) (access : Access)
      → propose s p access v ≡ ok (e, t)
      → (t ≡ record s { proposals = insert p.id p s.proposals }) × (get s.proposals p.id ≡ none)
  unfolding propose
  propose_writes p access h = ground arith

  pub assess_writes :
      (a : Assessment) (access : Access)
      → assess s a access v ≡ ok (e, t)
      → (t ≡ record s { assessments = insert a.id a s.assessments })
        × (get s.assessments a.id ≡ none)
  unfolding assess
  assess_writes a access h = ground arith

  pub retract_writes :
      (id : DecisionId)
      → retract s id v ≡ ok (e, t)
      → (d : EffectiveDecision) × (get s.decisions id ≡ some d)
        × (d.matched ≡ false)
        × (t ≡ record s { decisions = insert id (record d { retracted = true }) s.decisions })
  unfolding retract decision
  retract_writes id h = elim (Option-cases (get s.decisions id)) [
    | inl p ↦ absurd (ground arith)
    | inr (d, p) ↦ (d, p, ground arith, ground arith)
  ]

  pub set_grant_writes :
      (id : GrantId) (expected : Option ℕ) (spec : GrantSpec)
      → set_grant s id expected spec v ≡ ok (e, t)
      → (n : ℕ) × (next_generation (get s.grants id) expected ≡ ok n)
        × (t ≡ record s { grants = insert id (granted id n spec) s.grants })
        × (e ≡ Effect.grant (record { id = id; generation = n }))
  unfolding set_grant
  set_grant_writes id expected spec h =
      elim (Result-cases (next_generation (get s.grants id) expected)) [
        | inl (n, p) ↦ (n, p, ground arith, ground arith)
        | inr (x, p) ↦ absurd (ground arith)
      ]

  pub revoke_grant_writes :
      (id : GrantId) (expected : ℕ)
      → revoke_grant s id expected v ≡ ok (e, t)
      → (g : Grant) × (get s.grants id ≡ some g)
        × (g.revoked ≡ false)
        × (t ≡ record s {
          grants = insert id (record g { generation = g.generation + 1; revoked = true }) s.grants;
        })
  unfolding revoke_grant
  revoke_grant_writes id expected h = elim (Option-cases (get s.grants id)) [
    | inl p ↦ absurd (ground arith)
    | inr (g, p) ↦ (g, p, ground arith, ground arith)
  ]

  pub admit_writes :
      (a : ActionRequest)
      → admit s a v ≡ ok (e, t)
      → (deps : List Dependency) × (t
          ≡ record s { actions = insert a.id (admitted_action a v deps) s.actions })
        × (get s.actions a.id ≡ none)
        × (native_grant s a GrantAction.admit v ≡ ok tt)
  unfolding admit
  admit_writes a h = elim (Result-cases (agreement_dependencies s a.agreement)) [
    | inl (deps, p) ↦ (deps, ground arith, ground arith, ground arith)
    | inr (x, p) ↦ absurd (ground arith)
  ]

  pub dispatch_writes :
      (id : ActionId)
      → dispatch s id v ≡ ok (e, t)
      → (a : Action) × (get s.actions id ≡ some a)
        × (a.phase ≡ ActionPhase.admitted)
        × (t ≡ record s {
          actions = insert id (record a { phase = ActionPhase.dispatched }) s.actions;
        })
        × (a.actor ≡ v.authority.actor)
        × (native_grant s a.request GrantAction.dispatch v ≡ ok tt)
  unfolding dispatch
  dispatch_writes id h = elim (Option-cases (get s.actions id)) [
    | inl p ↦ absurd (ground arith)
    | inr (a, p) ↦ (
      a,
      p,
      ground (arith, phase_eq.same_iff a.phase ActionPhase.admitted),
      ground arith,
      ground arith,
      ground arith,
    )
  ]

  pub reconcile_writes :
      (action : ActionId) (used : GrantUse) (evidence : List Evidence) (outcome : ActionOutcome)
      → reconcile s action used evidence outcome v ≡ ok (e, t)
      → (a : Action) × (get s.actions action ≡ some a)
        × (a.phase ≢ ActionPhase.admitted)
        × (t ≡ record s {
          actions =
              insert action
                (record a {
                  evidence = a.evidence ++ evidence;
                  outcome = outcome;
                  phase = reported_phase outcome;
                })
                s.actions;
        })
  unfolding reconcile
  reconcile_writes action used evidence outcome h = elim (Option-cases (get s.actions action)) [
    | inl p ↦ absurd (ground arith)
    | inr (a, p) ↦
        (a, p, ground (arith, phase_eq.same_iff a.phase ActionPhase.admitted), ground arith)
  ]

  pub finding_writes : (f : Finding) (access : Access) → finding s f access v ≡ ok (e, t) → t ≡ s
  unfolding finding
  finding_writes f access h = ground arith

  pub adapt_writes : (a : Adaptation) (access : Access) → adapt s a access v ≡ ok (e, t) → t ≡ s
  unfolding adapt
  adapt_writes a access h = ground arith

  pub progress_writes : (p : Progress) (access : Access) → progress s p access v ≡ ok (e, t) → t ≡ s
  unfolding progress
  progress_writes p access h = ground arith

  pub fulfill_writes :
      (f : Fulfillment)
      → fulfill s f v ≡ ok (e, t)
      → t ≡ record s { settlement = some (Settlement.fulfilled f.agreement) }
  unfolding fulfill
  fulfill_writes f h = ground arith

  pub withdraw_writes :
      withdraw s v ≡ ok (e, t) → t ≡ record s { settlement = some Settlement.withdrawn }
  unfolding withdraw
  withdraw_writes h = ground arith
