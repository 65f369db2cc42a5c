-- ===== src/Kernel/Rules/Transition/Acting.antt =====
-- `Command::Admit`, `Command::Dispatch` and `Command::Reconcile` of `State::transition`.
use changekernel.Base.{List, [], ◌++◌, ◌||◌, not, Result, ok, reject_if, ok_or, ◌>>=◌, ◌>>◌}
use changekernel.Base.Order.{◌==◌, ◌!=◌}
use changekernel.Base.BTreeSet.{contains}
use changekernel.Base.BTreeMap.{get, insert, contains_key}
use changekernel.Kernel.Ids.{ActionId, Error, id_eq, id_ord}
use changekernel.Kernel.Keys.{GrantUse}
use changekernel.Kernel.Model.Terms.{Evidence, Dependency}
use changekernel.Kernel.Model.Grants.{GrantAction, grant_action_ord}
use changekernel.Kernel.Model.Actions.{ActionRequest, Action, ActionPhase, ActionOutcome, phase_eq}
use changekernel.Kernel.Model.Commands.{Effect}
use changekernel.Kernel.State.{State, Validation}
use changekernel.Kernel.Rules.Lookup.{grant, nonempty}
use changekernel.Kernel.Rules.Dependencies.{agreement_dependencies, dependencies_valid}
use changekernel.Kernel.Rules.Origins.{covers_content_items}
use changekernel.Kernel.Rules.Permission.{native_grant, reconciles}

abbrev pub admitted_action : ActionRequest → Validation → List Dependency → Action
admitted_action a v deps = record {
  request = a;
  actor = v.authority.actor;
  phase = ActionPhase.admitted;
  admission_dependencies = deps;
  evidence = [];
  outcome = ActionOutcome.undetermined;
}

unfoldable pub admit : State → ActionRequest → Validation → Result Error (Effect × State)
admit s a v = do
  reject_if (contains_key s.actions a.id) Error.conflict
  native_grant s a GrantAction.admit v
  deps ← agreement_dependencies s a.agreement
  ok (Effect.admitted a.id, record s { actions = insert a.id (admitted_action a v deps) s.actions })

unfoldable pub dispatch : State → ActionId → Validation → Result Error (Effect × State)
dispatch s id v = do
  a ← ok_or (get s.actions id) Error.invalid
  reject_if (a.phase != ActionPhase.admitted || a.actor != v.authority.actor) Error.conflict
  native_grant s a.request GrantAction.dispatch v
  dependencies_valid a.admission_dependencies v.grounds
  a' ← ok_or (get s.actions id) Error.invalid
  ok (
    Effect.dispatched id,
    record s { actions = insert id (record a' { phase = ActionPhase.dispatched }) s.actions },
  )

-- The phase after a report: an unknown outcome leaves the action dispatched.
abbrev pub reported_phase : ActionOutcome → ActionPhase
reported_phase ActionOutcome.undetermined = ActionPhase.dispatched
reported_phase _ = ActionPhase.reconciled

unfoldable pub reconcile :
    State
    → ActionId
    → GrantUse
    → List Evidence
    → ActionOutcome
    → Validation
    → Result Error (Effect × State)
reconcile s action used evidence outcome v = do
  g ← grant s used v.authority
  reject_if
      (not (contains g.spec.actions GrantAction.reconcile)
        || (not (reconciles g.spec.target action) || not (covers_content_items s g v)))
      Error.denied
  nonempty evidence
  a ← ok_or (get s.actions action) Error.invalid
  reject_if (a.phase == ActionPhase.admitted) Error.conflict
  let a' = record a {
    evidence = a.evidence ++ evidence;
    outcome = outcome;
    phase = reported_phase outcome;
  }
  ok (Effect.reconciled action, record s { actions = insert action a' s.actions })
