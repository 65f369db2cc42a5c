-- ===== src/Application/Runs/Immutable.antt =====
-- The contents of a Change over the calls of `Change::execute` of src/application/change.rs: it never
-- panics, and the bytes of a content never change.
use changekernel.Base.{◌+◌, ◌≡◌, ◌≢◌, refl, sym, subst, List, [], ◌∷◌, none, Result, ok, err, arith}
use changekernel.Base.Lists.{length}
use changekernel.Base.BTreeMap.{get}
use changekernel.Kernel.Ids.{Error}
use changekernel.Kernel.Keys.{Identity, content_key_ord}
use changekernel.Kernel.Model.Commands.{Command, Effect, Accepted}
use changekernel.Kernel.State.{State, Validation}
use changekernel.Kernel.Rules.Transition.{transition}
use changekernel.Kernel.Rules.Writes.Steps.{transition_ok}
use changekernel.Kernel.Rules.Writes.Kinds.{Wrote, perform_wrote}
use changekernel.Application.Requests.{OperationRequest}
use changekernel.Application.Checks.{Checks}
use changekernel.Application.Records.{StoredOperation}
use changekernel.Application.Ports.{Ports}
use changekernel.Application.Change.{Change, candidate_current, validation}
use changekernel.Application.Change.Seal.{Prepared, seal, sealed, retained}
use changekernel.Application.Change.Execute.{Called, execute, prepare, settle_with, publish}
use changekernel.Application.Checks.{Acceptance}
use changekernel.Application.Change.Planned.{IsPlanned, Found, prepare-Found}
use changekernel.Application.Change.Validated.{IsValidated, validate_current-IsValidated}
use changekernel.Application.Change.Reconstruct.{try_new}
use changekernel.Application.Runs.{run}
use changekernel.Application.Runs.Calls.{Effects, execute-Effects}
use changekernel.Application.Runs.Recovery.{candidate_current-eq}
use changekernel.Application.Runs.Restored.{try_new-eq}
use changekernel.Application.Runs.Contents.{
  IsEstablished, KeepsBytes, retain-KeepsBytes, retain-IsEstablished, retain_total,
}

-- A transition leaves the contents and their establishments alone.
Wrote_contents :
    (s t : State)
    → Wrote s t
    → (t.content_items ≡ s.content_items) × (t.established ≡ s.established)
Wrote_contents s t (Wrote.decided k _ _) = (k.content_items, k.established)
Wrote_contents s t (Wrote.nothing w) = (ground arith, ground arith)
Wrote_contents s t (Wrote.initiation w) = (ground arith, ground arith)
Wrote_contents s t (Wrote.proposed p w n) = (ground arith, ground arith)
Wrote_contents s t (Wrote.assessed a w n) = (ground arith, ground arith)
Wrote_contents s t (Wrote.granting id new w k) = (ground arith, ground arith)
Wrote_contents s t (Wrote.acting id new w step) = (ground arith, ground arith)
Wrote_contents s t (Wrote.settling x w) = (ground arith, ground arith)

transition_contents :
    (s t : State) (c : Command) (v : Validation) (e : Effect)
    → transition s c v ≡ (ok e, t)
    → (t.content_items ≡ s.content_items) × (t.established ≡ s.established)
transition_contents s t c v e h =
    Wrote_contents s t (perform_wrote s t e c v (transition_ok s c v h).1)

-- What the contents of a later state are.
pub record KeepsContents (s t : State) : Type 0 where
  pub bytes : KeepsBytes s t
  pub established : IsEstablished t

planned-KeepsContents :
    (c : Change) (request : OperationRequest) (r : StoredOperation) (s : State)
    → IsPlanned c request r s
    → IsEstablished c.state
    → KeepsContents c.state s
planned-KeepsContents c request r s h k =
    let (valid, stepped) = candidate_current-eq c request h.checks h.candidate h.effect h.valid in
    let (contents, established) =
      transition_contents c.state h.candidate request.operation.command (validation h.checks)
        h.effect stepped in
    let r' : StoredOperation =
      sealed c request h.checks h.candidate h.effect (length c.records + 1) in
    let checked : IsValidated c request.operation h.checks =
      validate_current-IsValidated c request.operation h.checks valid in
    record {
      bytes =
          retain-KeepsBytes c h.candidate s r' contents established refl checked h.is_sealed.written
            k;
      established =
          retain-IsEstablished c h.candidate s r' contents established refl checked
            h.is_sealed.written k;
    }

KeepsContents-refl : (s : State) → IsEstablished s → KeepsContents s s
KeepsContents-refl s k = record { bytes = record { bytes = λ _ _ e. e }; established = k }

Effects-KeepsContents :
    (c : Change) (request : OperationRequest) (x : Called Accepted)
    → Effects c request x
    → IsEstablished c.state
    → KeepsContents c.state x.1.state
Effects-KeepsContents c request x (Effects.refuses e _ _) k =
    subst (λ (y : Change). KeepsContents c.state y.state) (sym e) (KeepsContents-refl c.state k)
Effects-KeepsContents c request x (Effects.recovers _ _ e) k =
    subst (λ (y : Called Accepted). KeepsContents c.state y.1.state) (sym e)
      (KeepsContents-refl c.state k)
Effects-KeepsContents c request x (Effects.fences _ _ _ e) k =
    subst (λ (y : Called Accepted). KeepsContents c.state y.1.state) (sym e)
      (KeepsContents-refl c.state k)
Effects-KeepsContents c request x (Effects.publishes r s _ h e) k =
    subst (λ (y : Called Accepted). KeepsContents c.state y.1.state) (sym e)
      (planned-KeepsContents c request r s h k)

pub run-KeepsContents :
    {P : Type 0} (ports : Ports P) (c : Change) (requests : List OperationRequest) (p : P)
    → IsEstablished c.state
    → KeepsContents c.state (run ports c requests p).0.state
unfolding run
run-KeepsContents ports c [] p k = KeepsContents-refl c.state k
run-KeepsContents ports c (request ∷ rest) p k =
    let c' : Change = (execute ports c request p).0.1 in
    let first =
      Effects-KeepsContents c request (execute ports c request p).0
        (execute-Effects ports c request p) k in
    let later = run-KeepsContents ports c' rest (execute ports c request p).1 first.established in
    record {
      bytes = record { bytes = λ j b e. later.bytes.bytes j b (first.bytes.bytes j b e) };
      established = later.established;
    }

new-IsEstablished : (i : Identity) (c : Change) → try_new i ≡ ok c → IsEstablished c.state
unfolding get
new-IsEstablished i c h =
    subst (λ (x : Change). IsEstablished x.state) (sym (try_new-eq i c h))
      (record { each = λ k b e. absurd (cc) })

-- Whatever the ports report, a content that a Change holds after some calls on a new Change keeps its
-- bytes over any further calls, with whatever ports.
pub retained_bytes_kept :
    {P Q : Type 0} (ports : Ports P) (ports' : Ports Q) (i : Identity) (c : Change)
    (before after : List OperationRequest) (p : P) (q : Q)
    → try_new i ≡ ok c
    → KeepsBytes
        (run ports c before p).0.state
        (run ports' (run ports c before p).0 after q).0.state
retained_bytes_kept ports ports' i c before after p q h =
    let d : Change = (run ports c before p).0 in
    let held : IsEstablished d.state =
      (run-KeepsContents ports c before p (new-IsEstablished i c h)).established in
    (run-KeepsContents ports' d after q held).bytes

seal_no_panic :
    (c : Change) (request : OperationRequest) (checks : Checks) (candidate : State)
    (effect : Effect)
    → candidate_current c request.operation checks ≡ ok (candidate, effect)
    → seal c request checks candidate effect ≢ ok Prepared.panics
unfolding seal retained
seal_no_panic c request checks candidate effect valid h =
    let (ok_now, _) = candidate_current-eq c request checks candidate effect valid in
    let checked : IsValidated c request.operation checks =
      validate_current-IsValidated c request.operation checks ok_now in
    let r' : StoredOperation = sealed c request checks candidate effect (length c.records + 1) in
    let (t, e) = retain_total candidate r' refl checked.covering in ground arith

module _ {P : Type 0} (ports : Ports P) (c : Change) (request : OperationRequest) where
  found_no_panic : Found ports c request Prepared.panics → ⊥
  found_no_panic (Found.recorded r f e) = cc
  found_no_panic (Found.drawn _ _ _ (checks, candidate, effect, valid, sealed_ok)) =
      seal_no_panic c request checks candidate effect valid sealed_ok

  publish_returns : (r : StoredOperation) (s : State) (a : Acceptance) → (publish c r s a).0 ≢ none
  unfolding publish
  publish_returns r s a = ground arith

  settle_with_returns :
      (x : Result Error Prepared × P)
      → ((q : P) → x ≢ (ok Prepared.panics, q))
      → (settle_with ports c x).0.0 ≢ none
  unfolding settle_with
  settle_with_returns (err e, q) h k = cc
  settle_with_returns (ok (Prepared.recovered a), q) h k = cc
  settle_with_returns (ok Prepared.panics, q) h k = h q refl
  settle_with_returns (ok (Prepared.planned r s), q) h k =
      publish_returns r s (ports.accept r q).0 k

  -- Whatever the ports report, `execute` returns: the look-up of an intake in `retain` never panics.
  pub execute_returns : (p : P) → (execute ports c request p).0.0 ≢ none
  unfolding execute
  execute_returns p h =
      settle_with_returns (prepare ports c request p)
        (λ q e. found_no_panic (prepare-Found ports c request Prepared.panics p q e)) (ground arith)
