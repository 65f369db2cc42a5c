-- ===== src/Application/Change/Planned.antt =====
-- Inversion of `Change::execute`: what stands behind a record that it presents for acceptance.
use changekernel.Base.{
  ℕ, ◌+◌, ◌≤◌, ◌≡◌, ◌≢◌, refl, Option, none, some, true, Result, ok, err, arith, inl, inr,
  Result-cases, Option-cases,
}
use changekernel.Base.Order.{eq_of_not_bne}
use changekernel.Base.Lists.{length}
use changekernel.Base.BTreeMap.{get}
use changekernel.Kernel.Ids.{Error, id_ord}
use changekernel.Kernel.Keys.{change_key, change_key_eq}
use changekernel.Kernel.Model.Commands.{Accepted, Effect}
use changekernel.Kernel.State.{State}
use changekernel.Kernel.Rules.Lookup.{u64_max}
use changekernel.Application.Requests.{OperationRequest, is_current, request_eq}
use changekernel.Application.Checks.{Checks}
use changekernel.Application.Records.{StoredOperation, operation_request}
use changekernel.Application.Ports.{Ports, Asks, continue}
use changekernel.Application.Change.{Change, candidate_current, retain}
use changekernel.Application.Change.Seal.{Prepared, seal, sealed, retained}
use changekernel.Application.Change.Execute.{plan, first_time, retry, prepare_from, prepare}

-- A `?` that does not return has a result to go on with.
pub continue-eq-ok :
    {P A B : Type 0} (x : Result Error A × P) (next : A → Asks P B) {b : B} {q : P}
    → continue x next ≡ (ok b, q)
    → (a : A) × (p : P) × (x ≡ (ok a, p)) × (next a p ≡ (ok b, q))
unfolding continue
continue-eq-ok (ok a, p) next h = (a, p, refl, h)
continue-eq-ok (err e, p) next h = absurd (cc)

-- The record that is presented, and the state that it leads to.
pub record IsSealed (c : Change) (request : OperationRequest) (checks : Checks) (candidate : State)
    (effect : Effect) (r : StoredOperation) (s : State) : Type 0 where
  pub bound : length c.records + 1 ≤ u64_max
  pub same : r ≡ sealed c request checks candidate effect (length c.records + 1)
  pub declared :
      operation_request (sealed c request checks candidate effect (length c.records + 1))
      ≡ ok request
  pub written :
      retain candidate (sealed c request checks candidate effect (length c.records + 1)) ≡ some s

retained-eq :
    (candidate : State) (r r' : StoredOperation) (s : State)
    → retained candidate r ≡ Prepared.planned r' s
    → (r' ≡ r) × (retain candidate r ≡ some s)
unfolding retained
retained-eq candidate r r' s h = elim (Option-cases (retain candidate r)) [
  | inl e ↦ absurd (ground arith)
  | inr (t, e) ↦ (ground arith, ground arith)
]

seal-IsSealed :
    (c : Change) (request : OperationRequest) (checks : Checks) (candidate : State)
    (effect : Effect) (r : StoredOperation) (s : State)
    → seal c request checks candidate effect ≡ ok (Prepared.planned r s)
    → IsSealed c request checks candidate effect r s
unfolding seal
seal-IsSealed c request checks candidate effect r s h =
    let n : ℕ = length c.records + 1 in
    elim (Result-cases (operation_request (sealed c request checks candidate effect n))) [
      | inr (x, e) ↦ absurd (ground arith)
      | inl (declared, e) ↦
          let kept : retained candidate (sealed c request checks candidate effect n)
              ≡ Prepared.planned r s =
            ground arith in
          let (same, written) =
            retained-eq candidate (sealed c request checks candidate effect n) r s kept in
          record {
            bound = ground arith;
            same = same;
            declared = rw (eq_of_not_bne declared request (ground arith)) at e;
            written = written;
          }
    ]

-- What `execute` has established of a record when it presents it.
pub record IsPlanned (c : Change) (request : OperationRequest) (r : StoredOperation) (s : State)
    : Type 0 where
  pub current : is_current request.profile ≡ true
  pub target : request.target ≡ change_key c.state.identity
  pub absent : get c.records request.operation.id ≡ none
  pub checks : Checks
  pub candidate : State
  pub effect : Effect
  pub valid : candidate_current c request.operation checks ≡ ok (candidate, effect)
  pub is_sealed : IsSealed c request checks candidate effect r s

-- The candidate that a result of `plan` is drawn from.
abbrev IsDrawn : Change → OperationRequest → Prepared → Type 0
IsDrawn c request x =
    (checks : Checks) × (candidate : State) × (effect : Effect) × (candidate_current c
        request.operation checks
      ≡ ok (candidate, effect))
    × (seal c request checks candidate effect ≡ ok x)

seal_not_recovered :
    (c : Change) (request : OperationRequest) (checks : Checks) (candidate : State)
    (effect : Effect) (a : Accepted)
    → seal c request checks candidate effect ≢ ok (Prepared.recovered a)
unfolding seal retained
seal_not_recovered c request checks candidate effect a h = ground arith

module _ {P : Type 0} (ports : Ports P) (c : Change) (request : OperationRequest) where
  plan-IsDrawn :
      (checks : Checks) (x : Prepared) (p q : P)
      → plan ports c request checks p ≡ (ok x, q)
      → IsDrawn c request x
  unfolding plan
  plan-IsDrawn checks x p q h =
      let ((candidate, effect), p1, e, h1) = continue-eq-ok _ _ h in
      let (_, p2, _, h2) = continue-eq-ok _ _ h1 in
      (checks, candidate, effect, ground arith, ground arith)

  first_time-IsDrawn :
      (checks : Checks) (x : Prepared) (p q : P)
      → first_time ports c request checks p ≡ (ok x, q)
      → IsDrawn c request x
  unfolding first_time
  first_time-IsDrawn checks x p q h =
      let (_, _, _, h1) = continue-eq-ok _ _ h in
      let (_, _, _, h2) = continue-eq-ok _ _ h1 in
      let (_, _, _, h3) = continue-eq-ok _ _ h2 in
      let (_, _, _, h4) = continue-eq-ok _ _ h3 in
      let (_, _, _, h5) = continue-eq-ok _ _ h4 in
      let (_, _, _, h6) = continue-eq-ok _ _ h5 in
      let (_, _, _, h7) = continue-eq-ok _ _ h6 in
      let (complete, _, _, h8) = continue-eq-ok _ _ h7 in
      let (_, p9, _, h9) = continue-eq-ok _ _ h8 in plan-IsDrawn complete x p9 q h9

  -- A retry ends in the recorded result, where it does not end in an error.
  retry_recovers :
      (checks : Checks) (original : StoredOperation) (x : Prepared) (p q : P)
      → retry ports c request checks original p ≡ (ok x, q)
      → x ≡ Prepared.recovered original.accepted
  unfolding retry
  retry_recovers checks original x p q h =
      let (_, _, _, h1) = continue-eq-ok _ _ h in
      let (_, _, _, h2) = continue-eq-ok _ _ h1 in
      let (_, _, _, h3) = continue-eq-ok _ _ h2 in
      let (_, _, _, h4) = continue-eq-ok _ _ h3 in ground arith

  -- The two ways to a result: of a recorded operation, or of one that is not recorded.
  pub data Found (x : Prepared) : Type 0 where
    recorded :
        (r : StoredOperation)
        → get c.records request.operation.id ≡ some r
        → x ≡ Prepared.recovered r.accepted
        → Found x
    drawn :
        is_current request.profile ≡ true
        → request.target ≡ change_key c.state.identity
        → get c.records request.operation.id ≡ none
        → IsDrawn c request x
        → Found x

  pub prepare-Found : (x : Prepared) (p q : P) → prepare ports c request p ≡ (ok x, q) → Found x
  unfolding prepare prepare_from
  prepare-Found x p q h =
      let (_, _, e, h1) = continue-eq-ok _ _ h in
      let (checks, _, _, h2) = continue-eq-ok _ _ h1 in
      let (_, p3, _, h3) = continue-eq-ok _ _ h2 in
      found checks p3 (get c.records request.operation.id) refl (ground arith)
        (eq_of_not_bne request.target (change_key c.state.identity) (ground arith)) h3
    where
      found :
          (checks : Checks) (p3 : P) (o : Option StoredOperation)
          → get c.records request.operation.id ≡ o
          → is_current request.profile ≡ true
          → request.target ≡ change_key c.state.identity
          → prepare_from ports c request checks o p3 ≡ (ok x, q)
          → Found x
      found checks p3 none f current target k =
          Found.drawn current target f (first_time-IsDrawn checks x p3 q k)
      found checks p3 (some r) f current target k =
          Found.recorded r f (retry_recovers checks r x p3 q k)

  pub found-IsPlanned :
      (r : StoredOperation) (s : State) → Found (Prepared.planned r s) → IsPlanned c request r s
  found-IsPlanned r s (Found.recorded r' f e) = absurd (cc)
  found-IsPlanned r s (Found.drawn current target f (checks, candidate, effect, valid, sealed_ok)) =
      record {
        current = current;
        target = target;
        absent = f;
        checks = checks;
        candidate = candidate;
        effect = effect;
        valid = valid;
        is_sealed = seal-IsSealed c request checks candidate effect r s sealed_ok;
      }

  -- A result is recovered of a record, and of no other operation.
  pub found_recorded :
      (a : Accepted)
      → Found (Prepared.recovered a)
      → (r : StoredOperation) × (get c.records request.operation.id ≡ some r) × (a ≡ r.accepted)
  found_recorded a (Found.recorded r f e) = (r, f, ground arith)
  found_recorded a (Found.drawn _ _ _ (checks, candidate, effect, _, sealed_ok)) =
      absurd (seal_not_recovered c request checks candidate effect a sealed_ok)
