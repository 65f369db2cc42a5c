-- ===== src/Application/Runs/Recovery.antt =====
-- A record that `Change::execute` presents replays to the state that it was presented with.
use changekernel.Base.{
  ℕ, ◌+◌, ◌≤◌, ◌≡◌, none, some, true, false, Result, ok, err, arith, inl, inr, Result-cases, ltb,
  leb,
}
use changekernel.Base.Order.{bne_refl, option_eq, list_eq}
use changekernel.Base.Lists.{length}
use changekernel.Base.BTreeMap.{get, insert}
use changekernel.Kernel.Ids.{Error, id_ord, id_eq}
use changekernel.Kernel.Keys.{change_key_eq, content_key_eq}
use changekernel.Kernel.Model.Commands.{Effect}
use changekernel.Kernel.State.{State}
use changekernel.Kernel.Rules.Lookup.{u64_max}
use changekernel.Kernel.Rules.Transition.{transition}
use changekernel.Application.Equality.{accepted_eq, grant_eq, grant_use_eq}
use changekernel.Application.Requests.{OperationRequest, request_eq, profile_eq}
use changekernel.Application.Checks.{Checks}
use changekernel.Application.Records.{StoredOperation, operation_request, created_eq}
use changekernel.Application.Change.{
  Change, candidate_current, effect_and_state, validate_current, validation, retain,
}
use changekernel.Application.Change.Seal.{sealed}
use changekernel.Application.Change.Reconstruct.{
  check_record, replayed_state, replay_retained, replay_record,
}
use changekernel.Application.Change.Planned.{IsPlanned}

sealed_checked :
    (c : Change) (request : OperationRequest) (checks : Checks) (candidate : State)
    (effect : Effect) (n total : ℕ)
    → operation_request (sealed c request checks candidate effect n) ≡ ok request
    → get c.records request.operation.id ≡ none
    → n ≤ total
    → check_record request.profile request.target total c
        (sealed c request checks candidate effect n)
        n
      ≡ ok tt
unfolding check_record
sealed_checked c request checks candidate effect n total e f h =
    let within : ltb total n ≡ false = ground arith in rw (e, f, within) (simp (bne_refl))

pub candidate_current-eq :
    (c : Change) (request : OperationRequest) (checks : Checks) (candidate : State)
    (effect : Effect)
    → candidate_current c request.operation checks ≡ ok (candidate, effect)
    → (validate_current c request.operation checks ≡ ok tt)
      × (transition c.state request.operation.command (validation checks) ≡ (ok effect, candidate))
unfolding candidate_current
candidate_current-eq c request checks candidate effect h =
    elim (Result-cases (validate_current c request.operation checks)) [
      | inr (x, e) ↦ absurd (ground arith)
      | inl (u, e) ↦ (ground arith, transitioned _ (ground arith))
    ]
  where
    transitioned :
        (o : Result Error Effect × State)
        → effect_and_state o ≡ ok (candidate, effect)
        → o ≡ (ok effect, candidate)
    transitioned (ok x, t) k = ground arith
    transitioned (err x, t) k = absurd (cc)

replay_retained-some :
    (c : Change) (r : StoredOperation) (t s : State)
    → retain t r ≡ some s
    → replay_retained c r (ok t)
      ≡ some (ok (record c { state = s; records = insert r.operation.id r c.records }))
unfolding replay_retained
replay_retained-some c r t s h = ground arith

module _ (c : Change) (request : OperationRequest) (r : StoredOperation) (s : State)
    (planned : IsPlanned c request r s) (total : ℕ) (room : length c.records + 1 ≤ total) where
  replayed_sealed :
      replayed_state request.profile request.target total c
        (sealed c request planned.checks planned.candidate planned.effect (length c.records + 1))
      ≡ ok planned.candidate
  unfolding replayed_state
  replayed_sealed =
      let n : ℕ = length c.records + 1 in
      let (valid, stepped) =
        candidate_current-eq c request planned.checks planned.candidate planned.effect
          planned.valid in
      let checked =
        sealed_checked c request planned.checks planned.candidate planned.effect n total
          planned.is_sealed.declared planned.absent room in
      let count : leb (length c.records) u64_max ≡ true = ground (arith, planned.is_sealed.bound) in
      let next : leb n u64_max ≡ true = ground (arith, planned.is_sealed.bound) in
      rw (count, next, checked, valid, stepped) (simp (bne_refl))

  -- The record that is presented replays, from the Change before, to the Change after.
  pub replay_record-planned :
      replay_record request.profile request.target total c r
      ≡ some (ok (record c { state = s; records = insert r.operation.id r c.records }))
  unfolding replay_record
  replay_record-planned =
      rw (planned.is_sealed.same, replayed_sealed)
        (replay_retained-some c
          (sealed c request planned.checks planned.candidate planned.effect (length c.records + 1))
          planned.candidate s planned.is_sealed.written)
