-- ===== src/Examples/Calls.antt =====
-- Calls of `Change::execute` with ports that report one first retention.
use package.native.Mathlib.Decide.{ℕ_discrete}
use changekernel.Base.{◌≡◌, refl, [], ◌∷◌, some, false, Result, ok, err}
use changekernel.Base.BTreeSet
use changekernel.Base.BTreeMap
use changekernel.Kernel.Ids.{Error}
use changekernel.Kernel.Keys.{change_key}
use changekernel.Kernel.Content.{SourceClaim, InputKind, BindingKnowledge, Attribution}
use changekernel.Kernel.Model.Grants.{Access}
use changekernel.Kernel.Model.Commands.{Command, Effect, Accepted}
use changekernel.Kernel.State.{ScopeJudgment}
use changekernel.Kernel.Rules.Creation.{prepare_creation}
use changekernel.Kernel.Rules.Requirements.{requirements}
use changekernel.Application.Equality.{
  decided, intake_case_discrete, creation_discrete, operation_discrete,
}
use changekernel.Application.Requests.{
  OperationRequest, current_profile, is_current, request_discrete,
}
use changekernel.Application.Checks.{Acceptance, ReadScope, Query, Read}
use changekernel.Application.Records.{
  operation_request, establishment_claims, retained_bindings, creation_claims, command_claims,
}
use changekernel.Application.Ports.{Ports, continue}
use changekernel.Application.Intake.{check_intake, check_case, payload_of, retains_first}
use changekernel.Application.Change.{
  Change, validation, adaptation_items, requested_action, native_items, derived_items, brings,
  expected_case, check_items, check_context, check_coverage, validate_current, candidate_current,
  used_grant, snapshot_of, retain, establish, derivation_references, check_derivations,
  proposal_references, check_references,
}
use changekernel.Application.Change.Seal.{seal, retained}
use changekernel.Application.Change.Gather.{
  context, resolve, content, contents, grounds, adaptation, native, intake_request,
}
use changekernel.Application.Change.Reads.{read, answer}
use changekernel.Kernel.Rules.Permission.{read_access}
use changekernel.Kernel.Rules.Lookup.{owner}
use changekernel.Application.Change.Execute.{
  Called, plan, first_time, prepare_from, prepare, publish, settle_with, execute,
}
use changekernel.Examples.Scenario.{run, id, content as content_key, created, by_owner}

-- The source of a content that was there before.
abbrev pub pre_existing : SourceClaim
pre_existing = record {
  input_kind = InputKind.pre_existing;
  binding_knowledge = BindingKnowledge.no_known_binding;
  attribution = Attribution.anonymous;
  limitations = [];
}

-- Ports of the owner's actor that answer an acceptance in a given way.
abbrev pub owner_ports : Acceptance → Ports (Unit {0})
owner_ports answer = record {
  context = λ p. (
    ok (record {
      version = id 1;
      authority = by_owner.authority;
      disclosure = ReadScope.change (id 4) ∷ [];
    }),
    p,
  );
  resolve_content = λ _ _ p. (ok (record { bytes = 1 ∷ 2 ∷ []; source_claim = pre_existing }), p);
  authorize_intake = λ _ _ p. (ok tt, p);
  ground = λ _ p. (ok (id 1), p);
  discretion = λ _ p. (ok ScopeJudgment.requires_revision, p);
  native_conditions = λ _ p. (err Error.unavailable, p);
  accept = λ _ p. (answer, p);
  disclose = λ _ p. (ok tt, p);
}

abbrev pub new : Change
new = record { state = created; records = []; fenced = false }

abbrev pub initiate_request : OperationRequest
initiate_request = record {
  profile = current_profile;
  target = record { owner = id 1; ledger = id 3; change = id 4 };
  actor = id 2;
  represented_owner = id 1;
  operation = record {
    id = id 7;
    command = Command.initiate (content_key 10) Access.owner;
    fresh = [];
    first_retention = content_key 10 ∷ [];
  };
}

abbrev pub initiated_result : Accepted
initiated_result = record {
  operation = id 7;
  actor = id 2;
  represented_owner = id 1;
  effect = Effect.initiated;
}

unfoldable pub call : Acceptance → Called Accepted
unfolding execute settle_with publish prepare prepare_from first_time plan seal retained context
    contents content resolve intake_request grounds adaptation native continue candidate_current
    validate_current check_context check_coverage check_items expected_case brings derived_items
    native_items requested_action adaptation_items derivation_references check_derivations
    proposal_references check_references validation used_grant snapshot_of retain establish
    operation_request establishment_claims retained_bindings creation_claims command_claims
    check_intake check_case payload_of retains_first is_current decided intake_case_discrete
    request_discrete creation_discrete operation_discrete ℕ_discrete prepare_creation requirements
    run change_key BTreeSet.contains BTreeSet.insert BTreeSet.extend BTreeSet.collect
    BTreeSet.is_subset BTreeMap.get BTreeMap.insert BTreeMap.extend
call answer = (execute (owner_ports answer) new initiate_request tt).0

call_accepted : (call Acceptance.accepted).0 ≡ some (ok initiated_result)
unfolding call
call_accepted = refl

-- A read of the status of the new Change.
unfoldable pub inquiry : Result Error Read
unfolding read answer validation read_access owner context continue BTreeSet.contains
inquiry = (read (owner_ports Acceptance.accepted) new Query.status Access.owner tt).0
