-- ===== src/Examples/Scenario.antt =====
-- A Change from its creation to its fulfilment: the values, the commands and the states.
use changekernel.Base.{ℕ, none, some, [], ◌∷◌, true, ok, err, ◌≡◌, refl}
use changekernel.Base.BTreeSet
use changekernel.Base.BTreeMap
use changekernel.Kernel.Ids.{Identifier, IdKind, Error}
use changekernel.Kernel.Keys.{ContentKey, ContentReference, GrantTarget, Identity, change_key}
use changekernel.Kernel.Model.Terms.{Assessment, Decision, DecisionKind, Evidence, Proposal}
use changekernel.Kernel.Model.Grants.{Access, GrantAction, GrantSpec}
use changekernel.Kernel.Model.Actions.{ActionOutcome, ActionRequest, Fulfillment}
use changekernel.Kernel.Model.Commands.{Command, Effect, Settlement}
use changekernel.Kernel.State.{State, Validation, empty_state}
use changekernel.Kernel.Rules.Lookup.{
  action_request, agent, agreement, assessment, current_agreement, decision, grant, nonempty, owner,
  party, proposal,
}
use changekernel.Kernel.Rules.Dependencies.{
  agreement_dependencies, contradicts, current_grounds, decision_dependencies, dependencies_valid,
  insert_all, insert_own, merge_from, merged, to_dependencies, valid_from, with_assessment,
}
use changekernel.Kernel.Rules.Roles.{validate_roles}
use changekernel.Kernel.Rules.Origins.{
  covers_content_items, selected_origin, selects, validate_origin_selectors, validate_selector,
  validate_selectors,
}
use changekernel.Kernel.Rules.Permission.{native_grant, record_access, target_admits}
use changekernel.Kernel.Rules.Activation.{
  Outcome, activate, activate_new, candidates, conclude, consider, gather_blockers, inherited,
  mark_matched, refresh, search_candidates,
}
use changekernel.Kernel.Rules.Transition.{
  allowed_before_initiation, allowed_when_settled, entry, perform, transition,
}
use changekernel.Kernel.Rules.Transition.Drafting.{assess, check_criteria, initiate, propose}
use changekernel.Kernel.Rules.Transition.Deciding.{
  decide, enter_decision, kind_blockers, reaffirm, renew_decision, renewed_kind, retract,
}
use changekernel.Kernel.Rules.Transition.Granting.{
  next_generation, revoke_grant, set_grant, target_allows,
}
use changekernel.Kernel.Rules.Transition.Acting.{admit, dispatch, reconcile}
use changekernel.Kernel.Rules.Transition.Reporting.{adapt, finding, in_scope, progress}
use changekernel.Kernel.Rules.Transition.Settling.{fulfill, withdraw}

-- One transition, with all that it calls open.
unfoldable pub run : State → Command → Validation → Outcome Effect
unfolding transition entry allowed_before_initiation allowed_when_settled perform assess
    check_criteria initiate propose decide enter_decision kind_blockers reaffirm renew_decision
    renewed_kind retract next_generation revoke_grant set_grant target_allows admit dispatch
    reconcile adapt finding in_scope progress fulfill withdraw activate activate_new candidates
    conclude consider gather_blockers inherited mark_matched refresh search_candidates native_grant
    record_access target_admits covers_content_items selected_origin selects
    validate_origin_selectors validate_selector validate_selectors validate_roles
    agreement_dependencies contradicts current_grounds decision_dependencies dependencies_valid
    insert_all insert_own merge_from merged to_dependencies valid_from with_assessment
    action_request agent agreement assessment current_agreement decision grant nonempty owner party
    proposal BTreeSet.contains BTreeSet.insert BTreeSet.extend BTreeSet.collect BTreeSet.is_subset
    BTreeMap.get BTreeMap.insert change_key
run s c v = transition s c v

abbrev pub id : {k : IdKind} → ℕ → Identifier k
id n = record { value = n }

abbrev pub identity : Identity
identity = record { owner = id 1; owner_actor = id 2; ledger = id 3; change = id 4; agent = id 5 }

abbrev pub content : ℕ → ContentKey
content n = record {
  establishing = record { owner = id 1; ledger = id 3; change = id 4 };
  id = id n;
}

abbrev pub reference : ℕ → ContentReference
reference n = record { identity = identity; operation = id 1; content = content n }

abbrev pub evidence : Evidence
evidence = record { source = id 2; content = content 8; limitations = content 9 }

abbrev pub by_owner : Validation
by_owner = record {
  authority = record {
    actor = id 2;
    represented_owner = id 1;
    owner_control = some identity;
    agent_role = none;
  };
  content_items = [];
  fresh = [];
  grounds = [];
  scope = none;
  native = none;
}

abbrev pub by_agent : Validation
by_agent = record by_owner {
  authority = record {
    actor = id 5;
    represented_owner = id 1;
    owner_control = none;
    agent_role = some identity;
  };
  native = some (record { action = id 80; evidence = evidence ∷ [] });
}

abbrev pub draft : Proposal
draft = record {
  id = id 20;
  agreement = id 30;
  identity = identity;
  expected_agreement = none;
  terms = record {
    binding = record { statement = reference 10; context = [] } ∷ [];
    context = [];
    unknowns = [];
    criteria = record { id = id 40; definition = reference 11; terms = reference 10 ∷ [] } ∷ [];
  };
  dependencies = [];
}

abbrev pub appraisal : Assessment
appraisal = record {
  id = id 50;
  proposal = id 20;
  feasibility = content 12;
  capabilities = content 12;
  resources = content 12;
  commitments = content 12;
  coverage = content 12;
  limitations = content 12;
  dependencies = [];
  blockers = content 13 ∷ [];
}

abbrev pub adoption : Decision
adoption = record { id = id 60; proposal = id 20; kind = DecisionKind.adopt; dependencies = [] }

abbrev pub undertaking : Decision
undertaking = record {
  id = id 61;
  proposal = id 20;
  kind = DecisionKind.undertake (id 50);
  dependencies = [];
}

abbrev pub native_spec : GrantSpec
native_spec = record {
  recipient = id 5;
  target = GrantTarget.pursuit (id 30);
  actions = GrantAction.admit ∷ GrantAction.dispatch ∷ [];
  content_items = [];
  disclosure = [];
  creation = none;
  content_origins = [];
  disclosure_origins = [];
  native_actions = id 90 ∷ [];
  native_scope = id 91 ∷ [];
  limits = id 92 ∷ [];
}

abbrev pub request : ActionRequest
request = record {
  id = id 80;
  agreement = id 30;
  grant = record { id = id 70; generation = 1 };
  native_action = id 90;
  scope = id 91 ∷ [];
  limits = id 92 ∷ [];
  dependencies = [];
  conditions = content 14 ∷ [];
}

abbrev pub report_spec : GrantSpec
report_spec = record native_spec {
  target = GrantTarget.reconciliation (id 80 ∷ []);
  actions = GrantAction.reconcile ∷ [];
  native_actions = [];
  native_scope = [];
  limits = [];
}

abbrev pub fulfillment : Fulfillment
fulfillment = record {
  agreement = id 30;
  criteria = record { criterion = id 40; evidence = evidence ∷ [] } ∷ [];
  resolutions = record { blocker = content 13; evidence = evidence ∷ [] } ∷ [];
  acceptance = content 15;
}

abbrev pub after : State → Command → Validation → State
after s c v = (run s c v).1

abbrev pub created : State
created = empty_state identity

abbrev pub initiated : State
initiated = record created { initiated = true }

abbrev pub proposed : State
proposed = after initiated (Command.propose draft Access.owner) by_owner

abbrev pub assessed : State
assessed = after proposed (Command.assess appraisal Access.owner) by_owner

abbrev pub adopted : State
adopted = after assessed (Command.decide adoption) by_owner

abbrev pub agreed : State
agreed = after adopted (Command.decide undertaking) by_agent

abbrev pub granted : State
granted = after agreed (Command.set_grant (id 70) none native_spec) by_owner

abbrev pub admitted : State
admitted = after granted (Command.admit request) by_agent

abbrev pub dispatched : State
dispatched = after admitted (Command.dispatch (id 80)) by_agent

abbrev pub reporting : State
reporting = after dispatched (Command.set_grant (id 71) none report_spec) by_owner

abbrev pub report : Command
report =
    Command.reconcile (id 80) (record { id = id 71; generation = 1 }) (evidence ∷ [])
      ActionOutcome.reported_applied

abbrev pub reported : State
reported = after reporting report by_agent

abbrev pub fulfilled : State
fulfilled = after reported (Command.fulfill fulfillment) by_owner

-- The history runs through.
agreed_now : agreed.current ≡ some (id 30)
unfolding run
agreed_now = refl

fulfilled_ok :
    ((run reported (Command.fulfill fulfillment) by_owner).0)
    ≡ ok (Effect.settled (Settlement.fulfilled (id 30)))
unfolding run
fulfilled_ok = refl

-- An unresolved blocker, and an action in flight, hold the fulfilment back.
unresolved_refused :
    (run reported (Command.fulfill (record fulfillment { resolutions = [] })) by_owner).0
    ≡ err Error.conflict
unfolding run
unresolved_refused = refl

in_flight_refused : (run reporting (Command.fulfill fulfillment) by_owner).0 ≡ err Error.conflict
unfolding run
in_flight_refused = refl
