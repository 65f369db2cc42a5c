-- ===== src/Application/Runs/Retries.antt =====
-- Retries of src/application/change.rs: an operation that is recorded keeps its result.
use changekernel.Base.{◌≡◌, List, [], ◌∷◌, none, some, ok, arith, ap, sym, subst, ◌∙◌}
use changekernel.Base.BTreeMap.{get, insert, get-insert, get-insert_self}
use changekernel.Kernel.Ids.{OperationId, id_eq, id_ord}
use changekernel.Kernel.Model.Commands.{Accepted, Operation}
use changekernel.Kernel.State.{State}
use changekernel.Application.Requests.{OperationRequest}
use changekernel.Application.Records.{StoredOperation}
use changekernel.Application.Ports.{Ports}
use changekernel.Application.Change.{Change}
use changekernel.Application.Change.Execute.{Called, execute}
use changekernel.Application.Change.Planned.{IsPlanned}
use changekernel.Application.Runs.{run}
use changekernel.Application.Runs.Calls.{Effects, execute-Effects, published}

-- Every record of `c` is still there in `d`.
pub record KeepsRecords (c d : Change) : Type 0 where
  pub kept :
      (id : OperationId) (r : StoredOperation)
      → get c.records id ≡ some r
      → get d.records id ≡ some r

published-KeepsRecords :
    (c : Change) (request : OperationRequest) (r : StoredOperation) (s : State)
    → IsPlanned c request r s
    → KeepsRecords c (published c r s)
published-KeepsRecords c request r s h =
    let op : r.operation ≡ request.operation =
      ap (λ (x : StoredOperation). x.operation) h.is_sealed.same in
    let new : get c.records r.operation.id ≡ none =
      subst (λ (o : Operation). get c.records o.id ≡ none) (sym op) h.absent in
    record {
      kept = λ id q e.
          ground
            (arith, get-insert r.operation.id id r c.records, id_eq.same_iff id r.operation.id);
    }

Effects-KeepsRecords :
    (c : Change) (request : OperationRequest) (x : Called Accepted)
    → Effects c request x
    → KeepsRecords c x.1
Effects-KeepsRecords c request x (Effects.recovers _ _ e) =
    subst (λ (y : Called Accepted). KeepsRecords c y.1) (sym e) (record { kept = λ id r k. k })
Effects-KeepsRecords c request x (Effects.refuses e _ _) =
    subst (λ y. KeepsRecords c y) (sym e) (record { kept = λ id r k. k })
Effects-KeepsRecords c request x (Effects.fences _ _ _ e) =
    subst (λ (y : Called Accepted). KeepsRecords c y.1) (sym e) (record { kept = λ id r k. k })
Effects-KeepsRecords c request x (Effects.publishes r s _ h e) =
    subst (λ (y : Called Accepted). KeepsRecords c y.1) (sym e)
      (published-KeepsRecords c request r s h)

pub run-KeepsRecords :
    {P : Type 0} (ports : Ports P) (c : Change) (requests : List OperationRequest) (p : P)
    → KeepsRecords c (run ports c requests p).0
unfolding run
run-KeepsRecords ports c [] p = record { kept = λ id r k. k }
run-KeepsRecords ports c (request ∷ rest) p =
    let c' : Change = (execute ports c request p).0.1 in
    let first =
      Effects-KeepsRecords c request (execute ports c request p).0
        (execute-Effects ports c request p) in
    let later = run-KeepsRecords ports c' rest (execute ports c request p).1 in
    record { kept = λ id r k. later.kept id r (first.kept id r k) }

-- A call for a recorded operation changes nothing, and a result that it returns is the recorded one.
recorded_call :
    (c : Change) (request : OperationRequest) (r : StoredOperation) (x : Called Accepted)
    → get c.records request.operation.id ≡ some r
    → Effects c request x
    → (x.1 ≡ c) × ((a : Accepted) → x.0 ≡ some (ok a) → a ≡ r.accepted)
recorded_call c request r x known (Effects.refuses e _ n) = (e, λ a k. absurd (n a k))
recorded_call c request r x known (Effects.recovers r' f e) = (ap (λ y. y.1) e, λ a k. ground arith)
recorded_call c request r x known (Effects.fences _ _ h e) =
    let absent : get c.records request.operation.id ≡ none = h.absent in absurd (ground arith)
recorded_call c request r x known (Effects.publishes _ _ _ h e) =
    let absent : get c.records request.operation.id ≡ none = h.absent in absurd (ground arith)

-- An accepted call leaves its operation recorded with the result that it returned.
accepted_recorded :
    (c : Change) (request : OperationRequest) (a : Accepted) (x : Called Accepted)
    → x.0 ≡ some (ok a)
    → Effects c request x
    → (r : StoredOperation) × (get x.1.records request.operation.id ≡ some r) × (r.accepted ≡ a)
accepted_recorded c request a x h (Effects.refuses _ _ n) = absurd (n a h)
accepted_recorded c request a x h (Effects.recovers r f e) = (r, ground arith, ground arith)
accepted_recorded c request a x h (Effects.fences _ _ _ e) = absurd (ground arith)
accepted_recorded c request a x h (Effects.publishes r s _ k e) =
    let op : r.operation ≡ request.operation =
      ap (λ (y : StoredOperation). y.operation) k.is_sealed.same in
    let now : get (insert r.operation.id r c.records) request.operation.id ≡ some r =
      subst (λ (o : Operation). get (insert r.operation.id r c.records) o.id ≡ some r) op
        (get-insert_self r.operation.id r c.records) in
    (r, ground arith, ground arith)

-- What a later call of the same request may still do.
pub record IsSettled {P : Type 0} (ports : Ports P) (d : Change) (request : OperationRequest)
    (p : P) (a : Accepted) : Type 0 where
  pub unchanged : (execute ports d request p).0.1 ≡ d
  pub result : (b : Accepted) → (execute ports d request p).0.0 ≡ some (ok b) → b ≡ a

-- After an accepted call and any further calls, a call for the same operation, with whatever ports and
-- whatever request under its identity, changes nothing, and if it returns a result, this is the one of
-- the accepted call.
pub accepted-IsSettled :
    {P Q : Type 0} (ports : Ports P) (ports' : Ports Q) (c : Change)
    (request again : OperationRequest) (p : P) (q q' : Q) (a : Accepted)
    (requests : List OperationRequest)
    → (execute ports c request p).0.0 ≡ some (ok a)
    → again.operation.id ≡ request.operation.id
    → IsSettled ports' (run ports' (execute ports c request p).0.1 requests q).0 again q' a
accepted-IsSettled ports ports' c request again p q q' a requests h same =
    let c' : Change = (execute ports c request p).0.1 in
    let d : Change = (run ports' c' requests q).0 in
    let (r, known, result) =
      accepted_recorded c request a (execute ports c request p).0 h
        (execute-Effects ports c request p) in
    let kept : get d.records request.operation.id ≡ some r =
      (run-KeepsRecords ports' c' requests q).kept request.operation.id r known in
    let found : get d.records again.operation.id ≡ some r =
      subst (λ i. get d.records i ≡ some r) (sym same) kept in
    let (unchanged, returned) =
      recorded_call d again r (execute ports' d again q').0 found
        (execute-Effects ports' d again q') in
    record { unchanged = unchanged; result = λ b k. returned b k ∙ result }
