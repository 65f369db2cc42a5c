-- ===== src/Application/Change/Reconstruct.antt =====
-- `Change::try_new` and `Change::reconstruct` of src/application/change.rs.
use changekernel.Base.{
  ℕ, List, [], ◌∷◌, Option, none, some, false, ◌||◌, not, Result, ok, err, reject_if, ok_or, ◌>>=◌,
  ◌>>◌, ltb,
}
use changekernel.Base.Order.{◌!=◌, option_eq, list_eq, nat_eq}
use changekernel.Base.Lists.{length}
use changekernel.Base.BTreeMap.{contains_key, insert}
use changekernel.Kernel.Ids.{Error, id_eq, id_ord}
use changekernel.Kernel.Keys.{ChangeKey, Identity, change_key, change_key_eq, content_key_eq}
use changekernel.Kernel.Model.Commands.{Accepted}
use changekernel.Kernel.State.{State}
use changekernel.Kernel.State
use changekernel.Kernel.Rules.Lookup.{checked_add}
use changekernel.Kernel.Rules.Creation.{u64_of}
use changekernel.Kernel.Rules.Transition.{transition}
use changekernel.Application.Equality.{accepted_eq, grant_eq, grant_use_eq}
use changekernel.Application.Requests.{OperationRequestProfile, is_current, profile_eq}
use changekernel.Application.Records.{
  StoredOperation, HistoryHead, created_eq, operation_request, creation_claims,
  establishment_claims, retained_bindings,
}
use changekernel.Application.Change.{
  Change, validate_current, validation, effect_and_state, used_grant, snapshot_of, retain,
}

-- `Change::try_new`
unfoldable pub try_new : Identity → Result Error Change
try_new i = do s ← State.try_new i; ok (record { state = s; records = []; fenced = false })

-- The declared part of a record fits the position and the state that it stands at.
unfoldable pub check_record :
    OperationRequestProfile → ChangeKey → ℕ → Change → StoredOperation → ℕ → Result Error (Unit {0})
check_record profile target total c r sequence = do
  reject_if (r.profile != profile) Error.invalid
  request ← operation_request r
  reject_if
      (request.target != target
        || (r.sequence != sequence
            || (ltb total sequence
                || (contains_key c.records r.operation.id
                    || (r.creations != creation_claims c.state r.operation
                        || (r.establishments != establishment_claims r.operation
                            || r.retained_content_items
                              != retained_bindings c.state r.operation r.checks))))))
      Error.invalid

-- `Result<Self>`, or a panic: `none`.
abbrev pub Restored : Type 0
Restored = Option (Result Error Change)

abbrev pub restored_with : Result Error Change → (Change → Restored) → Restored
restored_with (err e) next = some (err e)
restored_with (ok c) next = next c

-- What the loop has computed of a record when it comes to `retain`: the state after the transition.
unfoldable pub replayed_state :
    OperationRequestProfile → ChangeKey → ℕ → Change → StoredOperation → Result Error State
replayed_state profile target total c r = do
  count ← ok_or (u64_of (length c.records)) Error.invalid
  sequence ← ok_or (checked_add count 1) Error.invalid
  check_record profile target total c r sequence
  validate_current c r.operation r.checks
  (s, effect) ← effect_and_state (transition c.state r.operation.command (validation r.checks))
  let expected : Accepted = record {
    operation = r.operation.id;
    actor = r.checks.context.authority.actor;
    represented_owner = r.checks.context.authority.represented_owner;
    effect = effect;
  }
  let used = used_grant r.operation.command s
  reject_if
      (r.accepted != expected || (r.used_grant != used || r.grant_snapshot != snapshot_of s used))
      Error.invalid
  ok s

-- `retain` and the insertion of the record.
unfoldable pub replay_retained : Change → StoredOperation → Result Error State → Restored
replay_retained c r (err e) = some (err e)
replay_retained c r (ok s) = elim (retain s r) [
  | none ↦ none
  | some s' ↦ some (ok (record c { state = s'; records = insert r.operation.id r c.records }))
]

-- One round of the loop.
unfoldable pub replay_record :
    OperationRequestProfile → ChangeKey → ℕ → Change → StoredOperation → Restored
replay_record profile target total c r =
    replay_retained c r (replayed_state profile target total c r)

abbrev pub and_then : Restored → (Change → Restored) → Restored
and_then none next = none
and_then (some (err e)) next = some (err e)
and_then (some (ok c)) next = next c

unfoldable pub replay :
    OperationRequestProfile → ChangeKey → ℕ → Change → List StoredOperation → Restored
replay profile target total c [] = some (ok c)
replay profile target total c (r ∷ rs) =
    and_then (replay_record profile target total c r) (λ c'. replay profile target total c' rs)

-- The last test of `reconstruct`.
unfoldable pub check_head : HistoryHead → Change → Result Error Change
check_head head c = do
  count ← ok_or (u64_of (length c.records)) Error.invalid
  reject_if (count != head.accepted_operations || c.state.last_operation != head.last_operation)
      Error.invalid
  ok c

-- `Change::reconstruct`
unfoldable pub reconstruct : HistoryHead → List StoredOperation → Restored
reconstruct head records =
    restored_with
      (do reject_if (not (is_current head.profile)) Error.invalid; try_new head.identity)
      (λ c.
        and_then (replay head.profile (change_key head.identity) head.accepted_operations c records)
          (λ c'. some (check_head head c')))
