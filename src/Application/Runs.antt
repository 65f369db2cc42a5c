-- ===== src/Application/Runs.antt =====
-- Runs of the application: sequences of calls of `Change::execute` of src/application/change.rs.
pub mod Calls
pub mod Recovery
pub mod Kernel
pub mod Restored
pub mod Fences
pub mod Histories
pub mod Retries
pub mod Contents
pub mod Immutable
use changekernel.Base.{List, [], ◌∷◌, ◌++◌, none, some}
use changekernel.Base.BTreeMap.{get}
use changekernel.Kernel.Ids.{id_ord}
use changekernel.Application.Requests.{OperationRequest}
use changekernel.Application.Records.{StoredOperation}
use changekernel.Application.Ports.{Ports}
use changekernel.Application.Change.{Change}
use changekernel.Application.Change.Execute.{execute}

-- The record that a call has added.
unfoldable pub added : Change → OperationRequest → Change → List StoredOperation
added c request c' = elim (get c.records request.operation.id) [
  | some _ ↦ []
  | none ↦ elim (get c'.records request.operation.id) [ none ↦ [] | some r ↦ r ∷ [] ]
]

-- The Change after the calls, the records that they have added in their order, and the ports.
unfoldable pub run :
    {P : Type 0} → Ports P → Change → List OperationRequest → P → Change × List StoredOperation × P
run ports c [] p = (c, [], p)
run ports c (request ∷ rest) p =
    let ((_, c'), p') = execute ports c request p in
    let (d, records, q) = run ports c' rest p' in (d, added c request c' ++ records, q)
