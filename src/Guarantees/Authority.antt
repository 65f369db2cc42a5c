-- ===== src/Guarantees/Authority.antt =====
-- Who stands behind an accepted command.
pub mod Commands
use changekernel.Base.{
  ℕ, ◌≡◌, ◌≢◌, refl, Option, none, some, Bool, true, false, ok, err, Result, arith, ◌⊎◌, inl, inr,
  ap, Result-cases, Option-cases, List,
}
use changekernel.Base.Order.{eq_of_not_bne, option_eq}
use changekernel.Base.BTreeSet.{contains}
use changekernel.Base.BTreeMap.{get}
use changekernel.Kernel.Ids.{ActorId, ActionId, GrantId, DecisionId, Error, id_eq, id_ord}
use changekernel.Kernel.Keys.{GrantUse, GrantTarget, Identity, identity_eq}
use changekernel.Kernel.Model.Terms.{DecisionKind, Decision}
use changekernel.Kernel.Model.Grants.{Access, Grant, GrantAction, grant_action_ord}
use changekernel.Kernel.Model.Actions.{Action, ActionRequest}
use changekernel.Kernel.Model.Commands.{Command, Effect}
use changekernel.Kernel.State.{State, Validation, Authority, EffectiveDecision}
use changekernel.Kernel.Rules.Lookup.{owner, agent, party, grant, decision}
use changekernel.Kernel.Rules.Permission.{record_access, native_grant, reconciles}
use changekernel.Kernel.Rules.Transition.{perform, transition}
use changekernel.Kernel.Rules.Transition.Drafting.{initiate, propose, assess}
use changekernel.Kernel.Rules.Transition.Deciding.{
  decide, retract, reaffirm, enter_decision, renew_decision,
}
use changekernel.Kernel.Rules.Transition.Granting.{set_grant, revoke_grant}
use changekernel.Kernel.Rules.Transition.Acting.{admit, dispatch, reconcile}
use changekernel.Kernel.Rules.Transition.Reporting.{finding, adapt, progress}
use changekernel.Kernel.Rules.Transition.Settling.{fulfill, withdraw}
use changekernel.Kernel.Rules.Writes.Steps.{commit_ok, transition_ok}

-- The caller is the owner's actor, with control of this very Change.
pub record IsOwner (s : State) (a : Authority) : Type 0 where
  pub actor : a.actor ≡ s.identity.owner_actor
  pub represented : a.represented_owner ≡ s.identity.owner
  pub control : a.owner_control ≡ some s.identity

-- The caller is the agent, in its role in this very Change.
pub record IsAgent (s : State) (a : Authority) : Type 0 where
  pub actor : a.actor ≡ s.identity.agent
  pub represented : a.represented_owner ≡ s.identity.owner
  pub role : a.agent_role ≡ some s.identity

-- The caller holds the named grant: it is there, not revoked, of that generation, for this actor, and
-- it allows the action.
pub record HoldsGrant (s : State) (a : Authority) (used : GrantUse) (action : GrantAction)
    : Type 0 where
  pub g : Grant
  pub found : get s.grants used.id ≡ some g
  pub live : g.revoked ≡ false
  pub generation : g.generation ≡ used.generation
  pub recipient : g.spec.recipient ≡ a.actor
  pub represented : a.represented_owner ≡ s.identity.owner
  pub allows : contains g.spec.actions action ≡ true

abbrev pub HasAccess : State → Authority → Access → GrantAction → Type 0
HasAccess s a Access.owner action = IsOwner s a
HasAccess s a (Access.grant used) action = HoldsGrant s a used action

abbrev pub IsParty : State → Authority → DecisionKind → Type 0
IsParty s a DecisionKind.adopt = IsOwner s a
IsParty s a (DecisionKind.undertake _) = IsAgent s a

-- Whom each command needs.
abbrev pub IsAuthorised : State → Authority → Command → Type 0
IsAuthorised s a (Command.initiate _ access) = HasAccess s a access GrantAction.create_draft
IsAuthorised s a (Command.propose _ access) = HasAccess s a access GrantAction.propose
IsAuthorised s a (Command.assess _ access) = HasAccess s a access GrantAction.assess
IsAuthorised s a (Command.decide d) = IsParty s a d.kind
IsAuthorised s a (Command.retract id) =
    (d : EffectiveDecision) × (get s.decisions id ≡ some d)
    × (d.actor ≡ a.actor)
    × IsParty s a d.decision.kind
IsAuthorised s a (Command.reaffirm id _ _) =
    (d : EffectiveDecision) × (get s.decisions id ≡ some d)
    × (d.actor ≡ a.actor)
    × IsParty s a d.decision.kind
IsAuthorised s a (Command.set_grant _ _ _) = IsOwner s a
IsAuthorised s a (Command.revoke_grant _ _) = IsOwner s a
IsAuthorised s a (Command.admit r) = HoldsGrant s a r.grant GrantAction.admit
IsAuthorised s a (Command.dispatch id) =
    (x : Action) × (get s.actions id ≡ some x)
    × (x.actor ≡ a.actor)
    × HoldsGrant s a x.request.grant GrantAction.dispatch
IsAuthorised s a (Command.finding _ access) = HasAccess s a access GrantAction.finding
IsAuthorised s a (Command.adapt _ access) = HasAccess s a access GrantAction.adapt
IsAuthorised s a (Command.progress _ access) = HasAccess s a access GrantAction.progress
IsAuthorised s a (Command.fulfill _) = IsOwner s a
IsAuthorised s a (Command.withdraw _) = IsOwner s a
IsAuthorised s a (Command.reconcile _ used _ _) = HoldsGrant s a used GrantAction.reconcile

module _ (s : State) (a : Authority) where
  pub owner-IsOwner : owner s a ≡ ok tt → IsOwner s a
  unfolding owner
  owner-IsOwner h = record {
    actor = eq_of_not_bne a.actor s.identity.owner_actor (ground arith);
    represented = eq_of_not_bne a.represented_owner s.identity.owner (ground arith);
    control = eq_of_not_bne a.owner_control (some s.identity) (ground arith);
  }

  agent-IsAgent : agent s a ≡ ok tt → IsAgent s a
  unfolding agent
  agent-IsAgent h = record {
    actor = eq_of_not_bne a.actor s.identity.agent (ground arith);
    represented = eq_of_not_bne a.represented_owner s.identity.owner (ground arith);
    role = eq_of_not_bne a.agent_role (some s.identity) (ground arith);
  }

  pub party-IsParty : (k : DecisionKind) → party s k a ≡ ok tt → IsParty s a k
  unfolding party
  party-IsParty DecisionKind.adopt h = owner-IsOwner h
  party-IsParty (DecisionKind.undertake _) h = agent-IsAgent h

  grant-HoldsGrant :
      (used : GrantUse) (action : GrantAction) (g : Grant)
      → grant s used a ≡ ok g
      → contains g.spec.actions action ≡ true
      → HoldsGrant s a used action
  unfolding grant
  grant-HoldsGrant used action g h k = record {
    g = g;
    found = ground arith;
    live = ground arith;
    generation = ground arith;
    recipient = eq_of_not_bne g.spec.recipient a.actor (ground arith);
    represented = eq_of_not_bne a.represented_owner s.identity.owner (ground arith);
    allows = k;
  }
