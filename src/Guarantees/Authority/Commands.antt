-- ===== src/Guarantees/Authority/Commands.antt =====
-- Every accepted command was authorised.
use changekernel.Base.{◌≡◌, Option, none, some, ok, arith, inl, inr, Result-cases, Option-cases}
use changekernel.Base.Order.{eq_of_not_bne}
use changekernel.Base.BTreeMap.{get}
use changekernel.Kernel.Ids.{AgreementId, id_eq, id_ord}
use changekernel.Kernel.Model.Grants.{Access, GrantAction, grant_action_ord}
use changekernel.Kernel.Model.Actions.{ActionRequest}
use changekernel.Kernel.Model.Commands.{Command, Effect}
use changekernel.Kernel.State.{State, Validation}
use changekernel.Kernel.Rules.Lookup.{grant, decision}
use changekernel.Kernel.Rules.Permission.{record_access, native_grant}
use changekernel.Kernel.Rules.Transition.{perform, transition}
use changekernel.Kernel.Rules.Transition.Drafting.{initiate, propose, assess}
use changekernel.Kernel.Rules.Transition.Deciding.{retract, enter_decision, renew_decision}
use changekernel.Kernel.Rules.Transition.Granting.{set_grant, revoke_grant}
use changekernel.Kernel.Rules.Transition.Acting.{reconcile}
use changekernel.Kernel.Rules.Transition.Reporting.{finding, adapt, progress}
use changekernel.Kernel.Rules.Transition.Settling.{fulfill, withdraw}
use changekernel.Kernel.Rules.Writes.{admit_writes, dispatch_writes}
use changekernel.Kernel.Rules.Writes.Decisions.{decide_writes, reaffirm_writes}
use changekernel.Kernel.Rules.Writes.Steps.{commit_ok, transition_ok}
use changekernel.Guarantees.Authority.{
  HasAccess, HoldsGrant, IsAuthorised, owner-IsOwner, party-IsParty, grant-HoldsGrant,
}

module _ (s : State) (v : Validation) where
  access-HasAccess :
      (access : Access) (action : GrantAction) (agreement : Option AgreementId)
      → record_access s access action agreement v ≡ ok tt
      → HasAccess s v.authority access action
  unfolding record_access
  access-HasAccess Access.owner action agreement h = owner-IsOwner s v.authority h
  access-HasAccess (Access.grant used) action agreement h =
      elim (Result-cases (grant s used v.authority)) [
        | inl (g, p) ↦ grant-HoldsGrant s v.authority used action g p (ground arith)
        | inr (x, p) ↦ absurd (ground arith)
      ]

  native-HoldsGrant :
      (a : ActionRequest) (kind : GrantAction)
      → native_grant s a kind v ≡ ok tt
      → HoldsGrant s v.authority a.grant kind
  unfolding native_grant
  native-HoldsGrant a kind h = elim (Result-cases (grant s a.grant v.authority)) [
    | inl (g, p) ↦ grant-HoldsGrant s v.authority a.grant kind g p (ground arith)
    | inr (x, p) ↦ absurd (ground arith)
  ]

  perform-IsAuthorised :
      (t : State) (e : Effect) (c : Command)
      → perform s c v ≡ (ok e, t)
      → IsAuthorised s v.authority c
  unfolding perform initiate propose assess retract decision set_grant revoke_grant reconcile
      finding adapt progress fulfill withdraw enter_decision renew_decision
  perform-IsAuthorised t e (Command.initiate w access) h =
      access-HasAccess access GrantAction.create_draft none (ground arith)
  perform-IsAuthorised t e (Command.propose p access) h =
      access-HasAccess access GrantAction.propose none (ground arith)
  perform-IsAuthorised t e (Command.assess a access) h =
      access-HasAccess access GrantAction.assess none (ground arith)
  perform-IsAuthorised t e (Command.decide d) h =
      let (s', o, p, q, r) = decide_writes s v d h in
      party-IsParty s v.authority d.kind (ground arith)
  perform-IsAuthorised t e (Command.retract id) h = elim (Option-cases (get s.decisions id)) [
    | inl p ↦ absurd (ground arith)
    | inr (d, p) ↦ (
      d,
      p,
      eq_of_not_bne d.actor v.authority.actor (ground arith),
      party-IsParty s v.authority d.decision.kind (ground arith),
    )
  ]
  perform-IsAuthorised t e (Command.reaffirm id deps a) h =
      let (p, s', o, q, r, x) = reaffirm_writes s v id deps a h in
      elim (Option-cases (get s.decisions id)) [
        | inl p ↦ absurd (ground arith)
        | inr (d, p) ↦ (
          d,
          p,
          eq_of_not_bne d.actor v.authority.actor (ground arith),
          party-IsParty s v.authority d.decision.kind (ground arith),
        )
      ]
  perform-IsAuthorised t e (Command.set_grant id expected spec) h =
      owner-IsOwner s v.authority (ground arith)
  perform-IsAuthorised t e (Command.revoke_grant id expected) h =
      owner-IsOwner s v.authority (ground arith)
  perform-IsAuthorised t e (Command.admit r) h =
      let (deps, w, n, k) = admit_writes s v r (commit_ok s _ h) in
      native-HoldsGrant r GrantAction.admit k
  perform-IsAuthorised t e (Command.dispatch id) h =
      let (a, p, q, w, k, n) = dispatch_writes s v id (commit_ok s _ h) in
      (a, p, k, native-HoldsGrant a.request GrantAction.dispatch n)
  perform-IsAuthorised t e (Command.finding f access) h =
      access-HasAccess access GrantAction.finding f.agreement (ground arith)
  perform-IsAuthorised t e (Command.adapt a access) h =
      access-HasAccess access GrantAction.adapt (some a.agreement) (ground arith)
  perform-IsAuthorised t e (Command.progress p access) h =
      access-HasAccess access GrantAction.progress (some p.agreement) (ground arith)
  perform-IsAuthorised t e (Command.fulfill f) h = owner-IsOwner s v.authority (ground arith)
  perform-IsAuthorised t e (Command.withdraw w) h = owner-IsOwner s v.authority (ground arith)
  perform-IsAuthorised t e (Command.reconcile action used evidence outcome) h =
      elim (Result-cases (grant s used v.authority)) [
        | inl (g, p) ↦ grant-HoldsGrant s v.authority used GrantAction.reconcile g p (ground arith)
        | inr (x, p) ↦ absurd (ground arith)
      ]

-- An accepted command was authorised: the owner's commands by the owner's actor with control of the
-- Change, an undertaking by the agent in its role, a retraction or renewal by the party that had
-- decided, and delegated commands by a live grant to this very actor that allows them.
pub accepted-IsAuthorised :
    (s t : State) (c : Command) (v : Validation) (e : Effect)
    → transition s c v ≡ (ok e, t)
    → IsAuthorised s v.authority c
accepted-IsAuthorised s t c v e h = perform-IsAuthorised s v t e c (transition_ok s c v h).1
