-- ===== src/Application/Change.antt =====
-- src/application/change.rs, the part that asks no port: the rules over declared checks, and what an
-- accepted operation leaves in the state.
pub mod Seal
pub mod Gather
pub mod Execute
pub mod Reads
pub mod Admitted
pub mod Answered
pub mod Planned
pub mod Validated
pub mod Reconstruct
use changekernel.Base.{
  ℕ, List, [], ◌∷◌, Option, none, some, Bool, true, false, ◌||◌, ◌&&◌, not, Result, ok, err,
  reject_if, ok_or, ◌>>=◌, ◌>>◌, is_some, if◌then◌else◌,
}
use changekernel.Base.Order.{◌==◌, ◌!=◌, option_eq, list_eq, nat_eq}
use changekernel.Base.Lists.{any, flat_map}
use changekernel.Base.BTreeSet.{BTreeSet, collect, contains, is_subset}
use changekernel.Base.BTreeSet
use changekernel.Base.BTreeMap.{BTreeMap, contains_key, get, insert, keys}
use changekernel.Base.BTreeMap
use changekernel.Kernel.Ids.{OperationId, GroundId, Error, id_eq, id_ord}
use changekernel.Kernel.Keys.{
  ContentKey, ContentReference, GrantUse, change_key, change_key_eq, content_key_eq,
  content_key_ord, identity_eq,
}
use changekernel.Kernel.Content.{FreshContent, IntakeCase, IntakeSnapshot, ContentEstablishment}
use changekernel.Kernel.Model.Terms.{Evidence}
use changekernel.Kernel.Model.Grants.{Access, Grant}
use changekernel.Kernel.Model.Actions.{ActionRequest, Adaptation}
use changekernel.Kernel.Model.Commands.{Command, Effect, Operation}
use changekernel.Kernel.State.{State, ScopeJudgment, NativeConditions, Validation}
use changekernel.Kernel.Rules.Lookup.{action_request}
use changekernel.Kernel.Rules.Creation.{prepare_creation}
use changekernel.Kernel.Rules.Requirements.{requirements}
use changekernel.Kernel.Rules.Roles.{references}
use changekernel.Kernel.Rules.Transition.{transition}
use changekernel.Application.Equality.{
  creation_eq, adaptation_eq, action_request_eq, intake_case_eq,
}
use changekernel.Application.Checks.{ReadScope, Checks, read_scope_eq, read_scope_ord}
use changekernel.Application.Records.{StoredOperation}
use changekernel.Application.Intake.{check_intake}

pub record Change : Type 0 where
  pub state : State
  pub records : BTreeMap OperationId StoredOperation
  pub fenced : Bool

-- `evidence_ids`
unfoldable pub evidence_ids : List Evidence → BTreeSet ContentKey → BTreeSet ContentKey
evidence_ids [] out = out
evidence_ids (e ∷ es) out = evidence_ids es (BTreeSet.extend out (e.content ∷ e.limitations ∷ []))

-- `operation.fresh.iter().flat_map(|p| &p.derived_from)`
abbrev pub derived_references : List FreshContent → List ContentReference
derived_references ps = flat_map (λ (p : FreshContent). p.derived_from) ps

abbrev pub reference_contents : List ContentReference → List ContentKey
reference_contents [] = []
reference_contents (r ∷ rs) = r.content ∷ reference_contents rs

-- The loop of `derivation_references`.
unfoldable pub check_derivations :
    Change → Operation → Checks → List ContentReference → Result Error (Unit {0})
check_derivations c o checks [] = ok tt
check_derivations c o checks (r ∷ rs) = do
  reject_if (r.identity != c.state.identity || r.operation == o.id) Error.invalid
  reject_if (r.content.establishing != change_key c.state.identity) Error.unavailable
  original ← ok_or (get c.records r.operation) Error.invalid
  reject_if
      (not (contains_key original.checks.content_items r.content)
        || get original.checks.content_items r.content != get checks.content_items r.content)
      Error.conflict
  check_derivations c o checks rs

unfoldable pub derivation_references : Change → Operation → Checks → Result Error (Unit {0})
derivation_references c o checks = check_derivations c o checks (derived_references o.fresh)

-- The contents that a reference of a proposal is looked up in.
unfoldable pub bindings_of :
    Change → Operation → Checks → OperationId → Result Error (BTreeMap ContentKey (List ℕ))
bindings_of c o checks id =
    if id == o.id
    then ok checks.content_items
    else do original ← ok_or (get c.records id) Error.invalid; ok original.checks.content_items

-- The loop of `proposal_references`.
unfoldable pub check_references :
    Change → Operation → Checks → List ContentReference → Result Error (Unit {0})
check_references c o checks [] = ok tt
check_references c o checks (r ∷ rs) = do
  reject_if (r.identity != c.state.identity) Error.invalid
  bindings ← bindings_of c o checks r.operation
  original ← ok_or (get bindings r.content) Error.invalid
  reject_if (get checks.content_items r.content != some original) Error.conflict
  check_references c o checks rs

abbrev pub proposed_references : Command → List ContentReference
proposed_references (Command.propose p _) = references p.terms
proposed_references _ = []

unfoldable pub proposal_references : Change → Operation → Checks → Result Error (Unit {0})
proposal_references c o checks = check_references c o checks (proposed_references o.command)

abbrev pub judged_scope : Option (Adaptation × ScopeJudgment) → Option ScopeJudgment
judged_scope none = none
judged_scope (some (_, judgment)) = some judgment

abbrev pub judged_native : Option (ActionRequest × NativeConditions) → Option NativeConditions
judged_native none = none
judged_native (some (_, conditions)) = some conditions

-- `Change::validation`
unfoldable pub validation : Checks → Validation
validation checks = record {
  authority = checks.context.authority;
  content_items = collect (keys checks.content_items);
  fresh = elim checks.creation [ none ↦ [] | some c ↦ collect (keys c.content_items) ];
  grounds = checks.grounds;
  scope = judged_scope checks.adaptation;
  native = judged_native checks.native;
}

-- The `match` of `validate_current` on the command and the adaptation.
unfoldable pub adaptation_items :
    Command
    → Option (Adaptation × ScopeJudgment)
    → BTreeSet ContentKey
    → Result Error (BTreeSet ContentKey)
adaptation_items (Command.adapt a _) none items = err Error.invalid
adaptation_items (Command.adapt a _) (some (original, judgment)) items =
    if a == original
    then ok (elim judgment [
      | ScopeJudgment.within_discretion e ↦ evidence_ids (e ∷ []) items
      | _ ↦ items
    ])
    else err Error.invalid
adaptation_items _ none items = ok items
adaptation_items _ (some _) items = err Error.invalid

-- The action that a command of the native layer asks for.
unfoldable pub requested_action : State → Command → Result Error (Option ActionRequest)
requested_action s (Command.admit a) = ok (some a)
requested_action s (Command.dispatch id) = do r ← action_request s id; ok (some r)
requested_action s _ = ok none

-- The `match` of `validate_current` on that action and the native conditions.
unfoldable pub native_items :
    Option ActionRequest
    → Option (ActionRequest × NativeConditions)
    → BTreeSet ContentKey
    → Result Error (BTreeSet ContentKey)
native_items none none items = ok items
native_items (some request) (some (original, conditions)) items =
    if request == original && conditions.action == request.id
    then ok (evidence_ids conditions.evidence items)
    else err Error.invalid
native_items _ _ items = err Error.invalid

-- `for payload in &operation.fresh { content_items.extend(..) }`
unfoldable pub derived_items : List FreshContent → BTreeSet ContentKey → BTreeSet ContentKey
derived_items [] items = items
derived_items (p ∷ ps) items =
    derived_items ps (BTreeSet.extend items (reference_contents p.derived_from))

unfoldable pub brings : Operation → ContentKey → Bool
brings o key = any (λ (p : FreshContent). p.key == key) o.fresh

unfoldable pub expected_case : Operation → ContentKey → IntakeCase
unfolding brings
expected_case o key =
    if brings o key
    then IntakeCase.fresh
    else if contains o.first_retention key
    then IntakeCase.first_retention
    else IntakeCase.known_reuse

-- The loop of `validate_current` over the contents.
unfoldable pub check_items :
    Change → Operation → Checks → BTreeMap ContentKey (List ℕ) → Result Error (Unit {0})
check_items c o checks [] = ok tt
check_items c o checks ((key, bytes) ∷ rest) = do
  snapshot ← ok_or (get checks.intakes key) Error.invalid
  reject_if (snapshot.case != expected_case o key) Error.invalid
  check_intake c.state (some o) key bytes snapshot
  check_items c o checks rest

-- The context of the checks fits the Change and the operation.
unfoldable pub check_context : Change → Operation → Checks → Result Error (Unit {0})
check_context c o checks =
    reject_if
      (checks.identity != c.state.identity
        || (checks.expected_operation != c.state.last_operation
            || (checks.context.authority.represented_owner != c.state.identity.owner
                || (checks.disclosure != ReadScope.operation o.id
                    || (is_some checks.disclosure_origin
                        || (not (contains checks.context.disclosure checks.disclosure)
                              && not (
                                  contains checks.context.disclosure
                                    (ReadScope.change c.state.identity.change))
                            || contains_key c.records o.id))))))
      Error.invalid

-- The contents and the grounds of the checks are those that the operation needs.
unfoldable pub check_coverage :
    Operation → Checks → BTreeSet ContentKey → BTreeSet GroundId → Result Error (Unit {0})
check_coverage o checks items grounds =
    reject_if
      (collect (keys checks.content_items) != items
        || (collect (keys checks.grounds) != grounds
            || (collect (keys checks.intakes) != items
                || (not (is_subset o.first_retention items)
                    || (any (brings o) o.first_retention
                        || any (λ (p : FreshContent). not (contains items p.key)) o.fresh)))))
      Error.invalid

unfoldable pub validate_current : Change → Operation → Checks → Result Error (Unit {0})
unfolding check_context check_coverage
validate_current c o checks = do
  check_context c o checks
  creation ← prepare_creation c.state o checks.context.authority
  reject_if (checks.creation != creation) Error.invalid
  needs ← requirements c.state o.command
  adapted ← adaptation_items o.command checks.adaptation needs.content_items
  request ← requested_action c.state o.command
  native ← native_items request checks.native adapted
  check_coverage o checks (derived_items o.fresh native) needs.grounds
  check_items c o checks checks.content_items
  derivation_references c o checks
  proposal_references c o checks

abbrev pub effect_and_state : Result Error Effect × State → Result Error (State × Effect)
effect_and_state (ok e, s) = ok (s, e)
effect_and_state (err x, s) = err x

-- `Change::candidate_current`: the transition runs on a copy.
unfoldable pub candidate_current : Change → Operation → Checks → Result Error (State × Effect)
candidate_current c o checks = do
  validate_current c o checks
  effect_and_state (transition c.state o.command (validation checks))

abbrev pub access_use : Access → Option GrantUse
access_use Access.owner = none
access_use (Access.grant g) = some g

-- `used_grant`
unfoldable pub used_grant : Command → State → Option GrantUse
used_grant (Command.initiate _ access) s = access_use access
used_grant (Command.propose _ access) s = access_use access
used_grant (Command.assess _ access) s = access_use access
used_grant (Command.finding _ access) s = access_use access
used_grant (Command.adapt _ access) s = access_use access
used_grant (Command.progress _ access) s = access_use access
used_grant (Command.reconcile _ g _ _) s = some g
used_grant (Command.admit a) s = some a.grant
used_grant (Command.dispatch id) s = elim (get s.actions id) [
  | none ↦ none
  | some a ↦ some a.request.grant
]
used_grant _ s = none

unfoldable pub snapshot_of : State → Option GrantUse → Option Grant
snapshot_of s none = none
snapshot_of s (some g) = get s.grants g.id

-- The entry of `retain` for one established content.
abbrev pub establishment : StoredOperation → ContentKey → IntakeSnapshot → ContentEstablishment
establishment r key intake = record {
  binding = record { identity = r.checks.identity; operation = r.operation.id; content = key };
  original = intake;
  recorder = r.accepted.actor;
  represented_owner = r.accepted.represented_owner;
  grant = r.used_grant;
  target = elim r.grant_snapshot [ none ↦ none | some g ↦ some g.spec.target ];
}

-- The loop of `retain`. `record.checks.intakes[key]` panics on a missing key, which is `none` here.
unfoldable pub establish :
    StoredOperation
    → List ContentKey
    → BTreeMap ContentKey ContentEstablishment
    → Option (BTreeMap ContentKey ContentEstablishment)
establish r [] m = some m
establish r (key ∷ ks) m = elim (get r.checks.intakes key) [
  | none ↦ none
  | some intake ↦ establish r ks (insert key (establishment r key intake) m)
]

-- `Change::retain`
unfoldable pub retain : State → StoredOperation → Option State
retain s r = elim (establish r r.establishments s.established) [
  | none ↦ none
  | some established ↦ some (record s {
    established = established;
    content_items = BTreeMap.extend s.content_items r.checks.content_items;
    created = elim r.checks.creation [
      | none ↦ s.created
      | some c ↦ BTreeMap.extend s.created c.content_items
    ];
    history = insert r.operation.id (r.operation, r.accepted) s.history;
    last_operation = some r.operation.id;
  })
]
