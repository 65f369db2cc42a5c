-- ===== src/Application/Change/Execute.antt =====
-- `Change::execute` of src/application/change.rs, over any ports.
use changekernel.Base.{
  ◌++◌, Option, none, some, true, ◌||◌, not, Result, ok, err, reject_if, if◌then◌else◌,
}
use changekernel.Base.Order.{◌!=◌, option_eq}
use changekernel.Base.Lists.{any}
use changekernel.Base.BTreeMap.{contains_key, get, insert, keys}
use changekernel.Kernel.Ids.{Error, id_eq, id_ord}
use changekernel.Kernel.Keys.{
  change_key, change_key_eq, content_key_eq, content_key_ord, identity_eq,
}
use changekernel.Kernel.Content.{FreshContent}
use changekernel.Kernel.Model.Commands.{Accepted}
use changekernel.Kernel.State.{State}
use changekernel.Kernel.Rules.Creation.{prepare_creation}
use changekernel.Kernel.Rules.Requirements.{requirements}
use changekernel.Application.Requests.{OperationRequest, is_current, request_eq}
use changekernel.Application.Checks.{ReadScope, Checks, Acceptance, read_scope_ord}
use changekernel.Application.Records.{StoredOperation, operation_request}
use changekernel.Application.Ports.{Ports, Asks, ◌>>=◌, ◌>>◌, pure, done}
use changekernel.Application.Change.{
  Change, derived_references, reference_contents, requested_action, candidate_current,
}
use changekernel.Application.Change.Seal.{Prepared, seal}
use changekernel.Application.Change.Gather.{context, contents, grounds, adaptation, native, foreign}

pub data OperationRequestError : Type 0 where
  refused : Error → OperationRequestError
  not_accepted : Error → OperationRequestError
  indeterminate : OperationRequestError
  fenced : OperationRequestError

module _ {P : Type 0} (ports : Ports P) (c : Change) where
  -- From `candidate_current` to the acceptance.
  unfoldable pub plan : OperationRequest → Checks → Asks P Prepared
  plan request checks = do
    (candidate, effect) ← pure (candidate_current c request.operation checks)
    ports.authorize_intake checks request.operation
    pure (seal c request checks candidate effect)

  -- The part of `execute` for an operation that is not recorded.
  unfoldable pub first_time : OperationRequest → Checks → Asks P Prepared
  first_time request checks = do
    let operation = request.operation
    pure (reject_if (foreign c operation.command) Error.invalid)
    creation ← pure (prepare_creation c.state operation checks.context.authority)
    needs ← pure (requirements c.state operation.command)
    resolved ←
        contents ports c (record checks { creation = creation }) (some operation)
          (needs.content_items ++ reference_contents (derived_references operation.fresh))
    grounded ← grounds ports c resolved needs.grounds
    adapted ← adaptation ports c grounded operation operation.command
    action ← pure (requested_action c.state operation.command)
    complete ← native ports c adapted operation action
    pure (
        reject_if
          (any (λ (p : FreshContent). not (contains_key complete.content_items p.key))
            operation.fresh)
          Error.invalid)
    plan request complete

  -- The part of `execute` for an operation that is recorded.
  unfoldable pub retry : OperationRequest → Checks → StoredOperation → Asks P Prepared
  retry request checks original = do
    declared ← pure (operation_request original)
    pure (reject_if (declared != request) Error.conflict)
    complete ← contents ports c checks none (keys original.checks.content_items)
    ports.disclose complete
    done (Prepared.recovered original.accepted)

  unfoldable pub prepare_from : OperationRequest → Checks → Option StoredOperation → Asks P Prepared
  prepare_from request checks (some original) = retry request checks original
  prepare_from request checks none = first_time request checks

  -- `execute` up to the acceptance.
  unfoldable pub prepare : OperationRequest → Asks P Prepared
  prepare request = do
    pure (
        reject_if
          (not (is_current request.profile) || request.target != change_key c.state.identity)
          Error.conflict)
    checks ← context ports c (ReadScope.operation request.operation.id)
    pure (
        reject_if
          (request.actor != checks.context.authority.actor
            || request.represented_owner != checks.context.authority.represented_owner)
          Error.denied)
    prepare_from request checks (get c.records request.operation.id)

-- A call of a method on `&mut self`: `none` is a panic.
abbrev pub Called : Type 0 → Type 0
Called A = Option (Result OperationRequestError A) × Change

-- The `match` on the acceptance, and the publication.
unfoldable pub publish : Change → StoredOperation → State → Acceptance → Called Accepted
publish c r s Acceptance.accepted =
    (some (ok r.accepted), record c { state = s; records = insert r.operation.id r c.records })
publish c r s (Acceptance.refused e) = (some (err (OperationRequestError.refused e)), c)
publish c r s (Acceptance.not_accepted e) = (some (err (OperationRequestError.not_accepted e)), c)
publish c r s Acceptance.indeterminate =
    (some (err OperationRequestError.indeterminate), record c { fenced = true })

module _ {P : Type 0} (ports : Ports P) where
  unfoldable pub settle_with : Change → Result Error Prepared × P → Called Accepted × P
  settle_with c (err e, p) = ((some (err (OperationRequestError.refused e)), c), p)
  settle_with c (ok (Prepared.recovered a), p) = ((some (ok a), c), p)
  settle_with c (ok Prepared.panics, p) = ((none, c), p)
  settle_with c (ok (Prepared.planned r s), p) =
      let (acceptance, p') = ports.accept r p in (publish c r s acceptance, p')

  -- `Change::execute`
  unfoldable pub execute : Change → OperationRequest → P → Called Accepted × P
  execute c request p =
      if c.fenced
      then ((some (err OperationRequestError.fenced), c), p)
      else settle_with c (prepare ports c request p)
