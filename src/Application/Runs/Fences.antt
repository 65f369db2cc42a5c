-- ===== src/Application/Runs/Fences.antt =====
-- The fence of src/application/change.rs: after an indeterminate acceptance nothing is done any more.
use changekernel.Base.{◌≡◌, refl, List, [], ◌∷◌, some, true, err, arith, ap}
use changekernel.Kernel.Model.Commands.{Accepted}
use changekernel.Application.Requests.{OperationRequest}
use changekernel.Application.Ports.{Ports}
use changekernel.Application.Change.{Change}
use changekernel.Application.Change.Execute.{Called, OperationRequestError, execute}
use changekernel.Application.Runs.{run}
use changekernel.Application.Runs.Calls.{Effects, execute-Effects}
use changekernel.Application.Runs.Restored.{added_same}

fenced_call :
    {P : Type 0} (ports : Ports P) (c : Change) (request : OperationRequest) (p : P)
    → c.fenced ≡ true
    → execute ports c request p ≡ ((some (err OperationRequestError.fenced), c), p)
unfolding execute
fenced_call ports c request p h = ground arith

fenced_run :
    {P : Type 0} (ports : Ports P) (c : Change) (requests : List OperationRequest) (p : P)
    → c.fenced ≡ true
    → run ports c requests p ≡ (c, [], p)
unfolding run
fenced_run ports c [] p h = refl
fenced_run ports c (request ∷ rest) p h =
    rw (fenced_call ports c request p h, fenced_run ports c rest p h, added_same c c request refl)
      refl

-- What an indeterminate call leaves: the state and the records as they were, for good.
pub record IsFenced (c d : Change) : Type 1 where
  pub state : d.state ≡ c.state
  pub records : d.records ≡ c.records
  pub fence : d.fenced ≡ true
  pub silent :
      (Q : Type 0) (ports : Ports Q) (requests : List OperationRequest) (q : Q)
      → run ports d requests q ≡ (d, [], q)

-- After an acceptance whose outcome is not known, the Change keeps its state and records, and no later
-- call, with whatever ports, changes it, adds a record or asks a port.
pub indeterminate-IsFenced :
    {P : Type 0} (ports : Ports P) (c d : Change) (request : OperationRequest) (p q : P)
    → execute ports c request p ≡ ((some (err OperationRequestError.indeterminate), d), q)
    → IsFenced c d
indeterminate-IsFenced ports c d request p q h =
    by_effects (execute ports c request p).0 (execute-Effects ports c request p) (ap (λ x. x.0) h)
  where
    by_effects :
        (x : Called Accepted)
        → Effects c request x
        → x ≡ (some (err OperationRequestError.indeterminate), d)
        → IsFenced c d
    by_effects x (Effects.recovers r _ e) k = absurd (ground arith)
    by_effects x (Effects.refuses e n _) k = absurd (n (ap (λ y. y.0) k))
    by_effects x (Effects.publishes r s f _ e) k = absurd (ground arith)
    by_effects x (Effects.fences _ _ _ e) k =
        let same : d ≡ record c { fenced = true } = ground arith in
        let fence : d.fenced ≡ true = ground arith in
        record {
          state = ground arith;
          records = ground arith;
          fence = fence;
          silent = λ Q ports requests q. fenced_run ports d requests q fence;
        }
