-- ===== src/Application/Runs/Histories.antt =====
-- A run of the application is a history of the kernel.
use changekernel.Base.{List, [], ◌∷◌, sym, subst}
use changekernel.Kernel.Model.Commands.{Accepted}
use changekernel.Kernel.State.{State}
use changekernel.Kernel.Rules.Writes.Steps.{Reach}
use changekernel.Application.Requests.{OperationRequest}
use changekernel.Application.Ports.{Ports}
use changekernel.Application.Change.{Change}
use changekernel.Application.Change.Execute.{Called, execute}
use changekernel.Application.Runs.{run}
use changekernel.Application.Runs.Calls.{Effects, execute-Effects}
use changekernel.Application.Runs.Kernel.{IsStep, planned-IsStep}

pub Reach-trans : {s t u : State} → Reach s t → Reach t u → Reach s u
Reach-trans h Reach.here = h
Reach-trans h (Reach.next c v r path e) = Reach.next c v r (Reach-trans h path) e

step-Reach : {s t : State} → IsStep s t → Reach s t
step-Reach {s} h =
    subst (λ x. Reach s x) (sym h.kept)
      (Reach.next {t = s} {u = h.between} {e = h.effect} h.command h.v h.q Reach.here h.stepped)

Effects-Reach :
    (c : Change) (request : OperationRequest) (x : Called Accepted)
    → Effects c request x
    → Reach c.state x.1.state
Effects-Reach c request x (Effects.recovers _ _ e) =
    subst (λ (y : Called Accepted). Reach c.state y.1.state) (sym e) Reach.here
Effects-Reach c request x (Effects.refuses e _ _) =
    subst (λ (y : Change). Reach c.state y.state) (sym e) Reach.here
Effects-Reach c request x (Effects.fences _ _ _ e) =
    subst (λ (y : Called Accepted). Reach c.state y.1.state) (sym e) Reach.here
Effects-Reach c request x (Effects.publishes r s _ h e) =
    subst (λ (y : Called Accepted). Reach c.state y.1.state) (sym e)
      (step-Reach (planned-IsStep c request r s h))

-- Whatever the ports report, the states of a Change over the calls of `execute` form a history of
-- accepted transitions of the kernel, so that all that holds of such histories holds of them.
pub run-Reach :
    {P : Type 0} (ports : Ports P) (c : Change) (requests : List OperationRequest) (p : P)
    → Reach c.state (run ports c requests p).0.state
unfolding run
run-Reach ports c [] p = Reach.here
run-Reach ports c (request ∷ rest) p =
    Reach-trans
      (Effects-Reach c request (execute ports c request p).0 (execute-Effects ports c request p))
      (run-Reach ports (execute ports c request p).0.1 rest (execute ports c request p).1)
