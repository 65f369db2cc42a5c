-- ===== src/Application/Change/Seal.antt =====
-- The record that `Change::execute` of src/application/change.rs builds before the acceptance.
use changekernel.Base.{ℕ, none, some, Result, ok, reject_if, ok_or, ◌>>=◌, ◌>>◌}
use changekernel.Base.Order.{◌!=◌, option_eq}
use changekernel.Base.Lists.{length}
use changekernel.Kernel.Ids.{Error, id_eq, id_ord}
use changekernel.Kernel.Keys.{change_key_eq, content_key_eq, content_key_ord, identity_eq}
use changekernel.Kernel.Model.Commands.{Effect, Accepted}
use changekernel.Kernel.State.{State}
use changekernel.Kernel.Rules.Lookup.{checked_add}
use changekernel.Kernel.Rules.Creation.{u64_of}
use changekernel.Application.Requests.{OperationRequest, request_eq}
use changekernel.Application.Checks.{Checks, read_scope_ord}
use changekernel.Application.Records.{
  StoredOperation, operation_request, creation_claims, establishment_claims, retained_bindings,
}
use changekernel.Application.Change.{Change, used_grant, snapshot_of, retain}

-- What `execute` has found when it comes to the acceptance: the result of an earlier execution of the
-- same request, or a record and the state it leads to. `retain` may panic: `panics`.
pub data Prepared : Type 0 where
  recovered : Accepted → Prepared
  planned : StoredOperation → State → Prepared
  panics : Prepared

-- The record of an operation: from `let accepted` to the end of `let record`.
abbrev pub sealed : Change → OperationRequest → Checks → State → Effect → ℕ → StoredOperation
sealed c request checks candidate effect sequence = record {
  profile = request.profile;
  sequence = sequence;
  operation = request.operation;
  accepted = record {
    operation = request.operation.id;
    actor = checks.context.authority.actor;
    represented_owner = checks.context.authority.represented_owner;
    effect = effect;
  };
  checks = checks;
  used_grant = used_grant request.operation.command candidate;
  grant_snapshot = snapshot_of candidate (used_grant request.operation.command candidate);
  creations = creation_claims c.state request.operation;
  establishments = establishment_claims request.operation;
  retained_content_items = retained_bindings c.state request.operation checks;
}

-- `Self::retain(&mut candidate, &record)`
unfoldable pub retained : State → StoredOperation → Prepared
retained candidate r = elim (retain candidate r) [
  | none ↦ Prepared.panics
  | some s ↦ Prepared.planned r s
]

-- From `let accepted` to `Self::retain`.
unfoldable pub seal : Change → OperationRequest → Checks → State → Effect → Result Error Prepared
seal c request checks candidate effect = do
  count ← ok_or (u64_of (length c.records)) Error.invalid
  sequence ← ok_or (checked_add count 1) Error.invalid
  let r = sealed c request checks candidate effect sequence
  declared ← operation_request r
  reject_if (declared != request) Error.invalid
  ok (retained candidate r)
