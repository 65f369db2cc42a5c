-- ===== src/Examples/Runs.antt =====
-- The theorems of `Application.Runs` at a first retention of the owner's actor.
use changekernel.Base.{◌≡◌, ◌≢◌, refl, List, [], ◌∷◌, none, some, true, ok}
use changekernel.Base.Lists.{length}
use changekernel.Kernel.State
use changekernel.Kernel.State.{try_new}
use changekernel.Kernel.Rules.Writes.Steps.{Reach}
use changekernel.Application.Requests.{OperationRequest}
use changekernel.Application.Checks.{Acceptance}
use changekernel.Application.Budgets.{Reservation, ReadBudget, default_limits, reserve, debit}
use changekernel.Application.Budgets.Debits.{Balances, total, reserve_all, reserve_all-Balances}
use changekernel.Application.Change.Execute.{execute}
use changekernel.Application.Change.Reconstruct.{reconstruct}
use changekernel.Application.Change.Reconstruct
use changekernel.Application.Runs.{run, added}
use changekernel.Application.Runs.Restored.{unfenced, head_of, run-reconstruct}
use changekernel.Application.Runs.Fences.{IsFenced, indeterminate-IsFenced}
use changekernel.Application.Runs.Retries.{IsSettled, accepted-IsSettled}
use changekernel.Application.Runs.Histories.{run-Reach}
use changekernel.Application.Runs.Contents.{KeepsBytes}
use changekernel.Application.Runs.Immutable.{retained_bytes_kept, execute_returns}
use changekernel.Examples.Scenario.{identity, created}
use changekernel.Examples.Calls.{call, owner_ports, new, initiate_request, initiated_result}

abbrev requests : List OperationRequest
requests = initiate_request ∷ []

-- The call adds one record.
one_record : length (run (owner_ports Acceptance.accepted) new requests tt).1 ≡ 1
unfolding run added call
one_record = refl

run-reconstruct_example :
    reconstruct
      (head_of (run (owner_ports Acceptance.accepted) new requests tt).0)
      (run (owner_ports Acceptance.accepted) new requests tt).1
    ≡ some (ok (unfenced (run (owner_ports Acceptance.accepted) new requests tt).0))
unfolding Reconstruct.try_new State.try_new
run-reconstruct_example =
    run-reconstruct (owner_ports Acceptance.accepted) identity new requests tt refl

indeterminate-IsFenced_example : IsFenced new (record new { fenced = true })
unfolding call
indeterminate-IsFenced_example =
    indeterminate-IsFenced (owner_ports Acceptance.indeterminate) new (record new { fenced = true })
      initiate_request tt tt refl

accepted-IsSettled_example :
    IsSettled
      (owner_ports Acceptance.accepted)
      (run (owner_ports Acceptance.accepted) (call Acceptance.accepted).1 [] tt).0
      initiate_request
      tt
      initiated_result
unfolding call
accepted-IsSettled_example =
    accepted-IsSettled (owner_ports Acceptance.accepted) (owner_ports Acceptance.accepted) new
      initiate_request initiate_request tt tt tt initiated_result [] refl refl

run-Reach_example : Reach created (run (owner_ports Acceptance.accepted) new requests tt).0.state
run-Reach_example = run-Reach (owner_ports Acceptance.accepted) new requests tt

retained_bytes_kept_example :
    KeepsBytes
      (run (owner_ports Acceptance.accepted) new requests tt).0.state
      (run
        (owner_ports Acceptance.accepted)
        (run (owner_ports Acceptance.accepted) new requests tt).0
        requests
        tt).0.state
unfolding Reconstruct.try_new State.try_new
retained_bytes_kept_example =
    retained_bytes_kept (owner_ports Acceptance.accepted) (owner_ports Acceptance.accepted) identity
      new requests requests tt tt refl

execute_returns_example :
    (execute (owner_ports Acceptance.accepted) new initiate_request tt).0.0 ≢ none
execute_returns_example = execute_returns (owner_ports Acceptance.accepted) new initiate_request tt

abbrev budget : ReadBudget
budget = record { remaining = default_limits; callbacks = 16 }

abbrev reservations : List Reservation
reservations = Reservation.work 640 ∷ Reservation.callback ∷ Reservation.work 64 ∷ []

abbrev budget_left : ReadBudget
budget_left = record {
  remaining = record default_limits { work_units = 2147482944 };
  callbacks = 15;
}

reserve_all-Balances_example : Balances budget budget_left (total reservations)
unfolding reserve_all reserve debit
reserve_all-Balances_example = reserve_all-Balances budget budget_left reservations refl
