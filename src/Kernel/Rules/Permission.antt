-- ===== src/Kernel/Rules/Permission.antt =====
-- Access by ownership or by a grant: `record_access`, `native_grant`, `read_access` and
-- `read_action_access` (rules.rs).
use changekernel.Base.{
  Option, none, some, Bool, true, false, ◌&&◌, ◌||◌, not, Result, reject_if, ok_or, ◌>>=◌, ◌>>◌,
}
use changekernel.Base.Order.{◌==◌, ◌!=◌, list_eq}
use changekernel.Base.Lists.{is_empty}
use changekernel.Base.BTreeSet.{contains, is_subset}
use changekernel.Kernel.Ids.{AgreementId, ActionId, Error, id_eq, id_ord}
use changekernel.Kernel.Keys.{ContentKey, GrantTarget, grant_target_eq}
use changekernel.Kernel.Model.Grants.{Access, Grant, GrantAction, grant_action_ord}
use changekernel.Kernel.Model.Actions.{ActionRequest}
use changekernel.Kernel.State.{State, Validation}
use changekernel.Kernel.Rules.Lookup.{owner, grant, nonempty, is_settled}
use changekernel.Kernel.Rules.Dependencies.{current_grounds, dependencies_valid}
use changekernel.Kernel.Rules.Origins.{covers_content_items, discloses_content}

-- The `match` of `record_access` on the target, the agreement and the action.
unfoldable pub target_admits : State → GrantTarget → Option AgreementId → GrantAction → Bool
target_admits s (GrantTarget.draft_creation change) none GrantAction.create_draft =
    change == s.identity.change && not s.initiated
target_admits s (GrantTarget.draft change) none _ = change == s.identity.change
target_admits s (GrantTarget.pursuit target) (some current) _ = target == current
target_admits _ _ _ _ = false

unfoldable pub record_access :
    State → Access → GrantAction → Option AgreementId → Validation → Result Error (Unit {0})
record_access s Access.owner action agreement v = owner s v.authority
record_access s (Access.grant used) action agreement v = do
  g ← grant s used v.authority
  reject_if (not (contains g.spec.actions action) || not (covers_content_items s g v)) Error.denied
  reject_if (not (target_admits s g.spec.target agreement action)) Error.denied

unfoldable pub native_grant :
    State → ActionRequest → GrantAction → Validation → Result Error (Unit {0})
native_grant s a kind v = do
  g ← grant s a.grant v.authority
  reject_if
      (g.spec.target != GrantTarget.pursuit a.agreement
        || (not (contains g.spec.actions kind)
            || (not (contains g.spec.native_actions a.native_action)
                || (is_empty a.scope
                    || (not (is_subset a.scope g.spec.native_scope)
                        || (is_empty a.limits || a.limits != g.spec.limits))))))
      Error.denied
  nonempty a.conditions
  native ← ok_or v.native Error.unavailable
  reject_if (native.action != a.id || is_empty native.evidence) Error.unavailable
  current_grounds s a.agreement v
  dependencies_valid a.dependencies v.grounds

abbrev pub is_reconciliation : GrantTarget → Bool
is_reconciliation (GrantTarget.reconciliation _) = true
is_reconciliation _ = false

-- `matches!(target, GrantTarget::Reconciliation(ids) if ids.contains(action))`
abbrev pub reconciles : GrantTarget → ActionId → Bool
reconciles (GrantTarget.reconciliation ids) action = contains ids action
reconciles _ action = false

-- `content.is_none_or(|id| !self.discloses_content(g, id))`
abbrev pub undisclosed : State → Grant → Option ContentKey → Bool
undisclosed s g none = true
undisclosed s g (some id) = not (discloses_content s g id)

unfoldable pub read_access :
    State → Access → Option ContentKey → Validation → Result Error (Unit {0})
read_access s Access.owner content v = owner s v.authority
read_access s (Access.grant used) content v = do
  g ← grant s used v.authority
  reject_if (is_settled s && not (is_reconciliation g.spec.target)) Error.terminal
  reject_if (undisclosed s g content) Error.denied

unfoldable pub read_action_access : State → Access → ActionId → Validation → Result Error (Unit {0})
read_action_access s Access.owner action v = owner s v.authority
read_action_access s (Access.grant used) action v = do
  g ← grant s used v.authority
  reject_if (not (reconciles g.spec.target action)) Error.denied
