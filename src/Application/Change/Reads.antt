-- ===== src/Application/Change/Reads.antt =====
-- `Change::read` and `Change::record` of src/application/change.rs: reads of the accepted state.
use changekernel.Base.{Option, none, some, Result, reject_if, ok_or, not}
use changekernel.Base.BTreeMap.{contains_key, get, keys}
use changekernel.Kernel.Ids.{Error, OperationId, id_ord}
use changekernel.Kernel.Keys.{ContentKey, content_key_ord}
use changekernel.Kernel.Model.Grants.{Access}
use changekernel.Kernel.Model.Commands.{Accepted}
use changekernel.Kernel.State.{status}
use changekernel.Kernel.Rules.Permission.{read_access, read_action_access}
use changekernel.Application.Checks.{ReadScope, Checks, Query, Read}
use changekernel.Application.Records.{StoredOperation}
use changekernel.Application.Ports.{Ports, Asks, ◌>>=◌, ◌>>◌, pure, done}
use changekernel.Application.Change.{Change, validation}
use changekernel.Application.Change.Gather.{context, content, contents}

abbrev pub query_scope : Change → Query → ReadScope
query_scope c (Query.content id) = ReadScope.content id
query_scope c (Query.operation id) = ReadScope.operation id
query_scope c Query.status = ReadScope.change c.state.identity.change
query_scope c (Query.action id) = ReadScope.action id

abbrev pub query_content : Query → Option ContentKey
query_content (Query.content id) = some id
query_content _ = none

-- The check of the access, by the kind of the query.
abbrev pub query_access : Change → Query → Access → Checks → Result Error (Unit {0})
query_access c (Query.action id) access checks =
    read_action_access c.state access id (validation checks)
query_access c query access checks =
    read_access c.state access (query_content query) (validation checks)

abbrev pub accepted_of : Option StoredOperation → Option Accepted
accepted_of none = none
accepted_of (some r) = some r.accepted

module _ {P : Type 0} (ports : Ports P) (c : Change) where
  -- `for id in record.checks.content_items.keys()`, where there is a record.
  unfoldable pub record_contents : Checks → Option StoredOperation → Asks P Checks
  record_contents checks none = done checks
  record_contents checks (some r) = contents ports c checks none (keys r.checks.content_items)

  -- The `match` on the query: the checks that go to `disclose`, and the result.
  unfoldable pub answer : Checks → Query → Asks P (Checks × Read)
  answer checks Query.status = done (checks, Read.status (status c.state))
  answer checks (Query.operation id) = do
    checks' ← record_contents checks (get c.records id)
    done (checks', Read.operation (accepted_of (get c.records id)))
  answer checks (Query.content id) = do
    pure (reject_if (not (contains_key c.state.content_items id)) Error.invalid)
    checks' ← content ports c checks none id
    bytes ← pure (ok_or (get checks'.content_items id) Error.unavailable)
    done (checks', Read.content bytes)
  answer checks (Query.action id) = do
    action ← pure (ok_or (get c.state.actions id) Error.invalid)
    done (checks, Read.action action)

  -- `Change::read`
  unfoldable pub read : Query → Access → Asks P Read
  read query access = do
    pure (reject_if c.fenced Error.unavailable)
    checks ← context ports c (query_scope c query)
    pure (query_access c query access checks)
    (complete, result) ← answer checks query
    ports.disclose complete
    done result

  -- `Change::record`
  unfoldable pub record_of : OperationId → Asks P (Option StoredOperation)
  record_of id = do
    pure (reject_if c.fenced Error.unavailable)
    checks ← context ports c (ReadScope.operation id)
    pure (read_access c.state Access.owner none (validation checks))
    complete ← record_contents checks (get c.records id)
    ports.disclose complete
    done (get c.records id)
