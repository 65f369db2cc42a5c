-- ===== src/Application/Runs/Calls.antt =====
-- What one call of `Change::execute` may do to the Change, on every branch.
use changekernel.Base.{
  ◌≡◌, ◌≢◌, refl, some, Bool, true, false, Result, ok, err, arith, inl, inr, Bool-cases, subst, sym,
  if◌then◌else◌,
}
use changekernel.Base.BTreeMap.{get, insert}
use changekernel.Kernel.Ids.{Error, id_ord}
use changekernel.Kernel.Model.Commands.{Accepted}
use changekernel.Kernel.State.{State}
use changekernel.Application.Requests.{OperationRequest}
use changekernel.Application.Checks.{Acceptance}
use changekernel.Application.Records.{StoredOperation}
use changekernel.Application.Ports.{Ports}
use changekernel.Application.Change.{Change}
use changekernel.Application.Change.Seal.{Prepared}
use changekernel.Application.Change.Execute.{
  Called, OperationRequestError, prepare, publish, settle_with, execute,
}
use changekernel.Application.Change.Planned.{
  IsPlanned, Found, prepare-Found, found-IsPlanned, found_recorded,
}

abbrev pub published : Change → StoredOperation → State → Change
published c r s = record c { state = s; records = insert r.operation.id r c.records }

-- A call is refused, or recovers a recorded result, and leaves the Change alone; or it fences it, or
-- publishes a record that it has planned.
pub data Effects (c : Change) (request : OperationRequest) (x : Called Accepted) : Type 0 where
  refuses :
      x.1 ≡ c
      → x.0 ≢ some (err OperationRequestError.indeterminate)
      → ((a : Accepted) → x.0 ≢ some (ok a))
      → Effects c request x
  recovers :
      (r : StoredOperation)
      → get c.records request.operation.id ≡ some r
      → x ≡ (some (ok r.accepted), c)
      → Effects c request x
  fences :
      (r : StoredOperation) (s : State)
      → IsPlanned c request r s
      → x ≡ (some (err OperationRequestError.indeterminate), record c { fenced = true })
      → Effects c request x
  publishes :
      (r : StoredOperation) (s : State)
      → c.fenced ≡ false
      → IsPlanned c request r s
      → x ≡ (some (ok r.accepted), published c r s)
      → Effects c request x

publish-Effects :
    (c : Change) (request : OperationRequest) (r : StoredOperation) (s : State) (a : Acceptance)
    → c.fenced ≡ false
    → IsPlanned c request r s
    → Effects c request (publish c r s a)
unfolding publish
publish-Effects c request r s Acceptance.accepted f h = Effects.publishes r s f h refl
publish-Effects c request r s (Acceptance.refused e) f h =
    Effects.refuses refl (λ e. cc) (λ a e. cc)
publish-Effects c request r s (Acceptance.not_accepted e) f h =
    Effects.refuses refl (λ e. cc) (λ a e. cc)
publish-Effects c request r s Acceptance.indeterminate f h = Effects.fences r s h refl

module _ {P : Type 0} (ports : Ports P) (c : Change) (request : OperationRequest) where
  settle_with-Effects :
      (x : Result Error Prepared × P)
      → c.fenced ≡ false
      → ((y : Prepared) (q : P) → x ≡ (ok y, q) → Found ports c request y)
      → Effects c request (settle_with ports c x).0
  unfolding settle_with
  settle_with-Effects (err e, p) f h = Effects.refuses refl (λ e. cc) (λ a e. cc)
  settle_with-Effects (ok (Prepared.recovered a), p) f h =
      let (r, known, same) = found_recorded ports c request a (h (Prepared.recovered a) p refl) in
      Effects.recovers r known (ground arith)
  settle_with-Effects (ok Prepared.panics, p) f h = Effects.refuses refl (λ e. cc) (λ a e. cc)
  settle_with-Effects (ok (Prepared.planned r s), p) f h =
      publish-Effects c request r s (ports.accept r p).0 f
        (found-IsPlanned ports c request r s (h (Prepared.planned r s) p refl))

  -- The two branches of `execute`.
  branch : P → Bool → Called Accepted × P
  branch p b =
      if b
      then ((some (err OperationRequestError.fenced), c), p)
      else settle_with ports c (prepare ports c request p)

  pub execute-Effects : (p : P) → Effects c request (execute ports c request p).0
  unfolding execute branch
  execute-Effects p = elim (Bool-cases c.fenced) [
    | inl f ↦
        subst (λ b. Effects c request (branch p b).0) (sym f)
          (Effects.refuses refl (λ e. cc) (λ a e. cc))
    | inr f ↦
        subst (λ b. Effects c request (branch p b).0) (sym f)
          (settle_with-Effects (prepare ports c request p) f
            (λ y q e. prepare-Found ports c request y p q e))
  ]
