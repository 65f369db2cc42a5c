-- ===== src/Application/Runs/Kernel.antt =====
-- A published call is one transition of the kernel, and a retention.
use changekernel.Base.{◌≡◌, some, ok, arith, inl, inr, Option-cases}
use changekernel.Kernel.Ids.{id_ord}
use changekernel.Kernel.Keys.{content_key_ord}
use changekernel.Kernel.Model.Commands.{Command, Effect}
use changekernel.Kernel.State.{State, Validation}
use changekernel.Kernel.Rules.Transition.{transition}
use changekernel.Kernel.Rules.Writes.Steps.{transition_ok, Retention}
use changekernel.Kernel.Rules.Writes.Steps
use changekernel.Kernel.Rules.Writes.Kinds.{Wrote, perform_wrote}
use changekernel.Application.Requests.{OperationRequest}
use changekernel.Application.Records.{StoredOperation}
use changekernel.Application.Change.{Change, validation, retain, establish}
use changekernel.Application.Change.Planned.{IsPlanned}
use changekernel.Application.Runs.Recovery.{candidate_current-eq}

Wrote_identity : (s t : State) → Wrote s t → t.identity ≡ s.identity
Wrote_identity s t (Wrote.decided k _ _) = k.identity
Wrote_identity s t (Wrote.nothing w) = ground arith
Wrote_identity s t (Wrote.initiation w) = ground arith
Wrote_identity s t (Wrote.proposed p w n) = ground arith
Wrote_identity s t (Wrote.assessed a w n) = ground arith
Wrote_identity s t (Wrote.granting id new w k) = ground arith
Wrote_identity s t (Wrote.acting id new w step) = ground arith
Wrote_identity s t (Wrote.settling x w) = ground arith

pub transition_identity :
    (s t : State) (c : Command) (v : Validation) (e : Effect)
    → transition s c v ≡ (ok e, t)
    → t.identity ≡ s.identity
transition_identity s t c v e h =
    Wrote_identity s t (perform_wrote s t e c v (transition_ok s c v h).1)

-- The fields that `retain` writes, and no others.
pub retain-Retention :
    (s t : State) (r : StoredOperation)
    → retain s r ≡ some t
    → (q : Retention) × (t ≡ Steps.retain q s) × (q.last_operation ≡ some r.operation.id)
unfolding retain
retain-Retention s t r h = elim (Option-cases (establish r r.establishments s.established)) [
  | inl e ↦ absurd (ground arith)
  | inr (m, e) ↦ (
    record {
      history = t.history;
      last_operation = t.last_operation;
      content_items = t.content_items;
      created = t.created;
      established = t.established;
    },
    ground arith,
    ground arith,
  )
]

-- The step of the kernel that a planned record stands for.
pub record IsStep (s : State) (t : State) : Type 0 where
  pub command : Command
  pub v : Validation
  pub effect : Effect
  pub between : State
  pub q : Retention
  pub stepped : transition s command v ≡ (ok effect, between)
  pub kept : t ≡ Steps.retain q between

pub planned-IsStep :
    (c : Change) (request : OperationRequest) (r : StoredOperation) (s : State)
    → IsPlanned c request r s
    → IsStep c.state s
planned-IsStep c request r s h =
    let (_, stepped) = candidate_current-eq c request h.checks h.candidate h.effect h.valid in
    let (q, kept, _) = retain-Retention h.candidate s _ h.is_sealed.written in
    record {
      command = request.operation.command;
      v = validation h.checks;
      effect = h.effect;
      between = h.candidate;
      q = q;
      stepped = stepped;
      kept = kept;
    }

pub step_identity : (s t : State) → IsStep s t → t.identity ≡ s.identity
step_identity s t h =
    let k = transition_identity s h.between h.command h.v h.effect h.stepped in
    ground (arith, h.kept)
