-- ===== src/Application/Change/Gather.antt =====
-- What `Change::execute` of src/application/change.rs asks the ports before the acceptance.
use changekernel.Base.{
  List, [], ◌∷◌, Option, none, some, Bool, false, ◌&&◌, not, Result, ok, err, reject_if,
  if◌then◌else◌,
}
use changekernel.Base.Order.{◌!=◌, option_eq}
use changekernel.Base.Lists.{any}
use changekernel.Base.BTreeSet.{contains}
use changekernel.Base.BTreeMap.{contains_key, get, insert}
use changekernel.Kernel.Ids.{GroundId, Error, id_eq, id_ord}
use changekernel.Kernel.Keys.{
  ContentKey, ContentReference, change_key, change_key_eq, content_key_eq, content_key_ord,
  identity_eq,
}
use changekernel.Kernel.Content.{IntakeCase, IntakeSnapshot, OriginScope, scope}
use changekernel.Kernel.Model.Terms.{Evidence}
use changekernel.Kernel.Model.Actions.{ActionRequest}
use changekernel.Kernel.Model.Commands.{Command, Operation}
use changekernel.Kernel.State.{State, ScopeJudgment}
use changekernel.Application.Requests.{request_eq}
use changekernel.Application.Checks.{ReadScope, Context, Checks, IntakeRequest, read_scope_ord}
use changekernel.Application.Ports.{Ports, Asks, ◌>>=◌, ◌>>◌, pure, done}
use changekernel.Application.Intake.{check_intake, payload_of, retains_first}
use changekernel.Application.Change.{Change, proposed_references}

-- The origin of a content that is read, where it was created here.
abbrev pub disclosure_origin : State → ReadScope → Option OriginScope
disclosure_origin s (ReadScope.content key) = elim (get s.created key) [
  | none ↦ none
  | some r ↦ some (scope r.origin)
]
disclosure_origin s _ = none

abbrev pub discloses_origin : Context → Option OriginScope → Bool
discloses_origin x none = false
discloses_origin x (some o) = contains x.disclosure (ReadScope.origin o)

-- What the port asks for a content: a payload of the operation, a first retention, or a known one.
unfoldable pub intake_request : Change → Option Operation → ContentKey → Result Error IntakeRequest
intake_request c o key = elim (payload_of o key) [
  | some payload ↦ ok (IntakeRequest.fresh payload)
  | none ↦
      if retains_first o key
      then ok (IntakeRequest.first_retention key)
      else if not (contains_key c.state.established key)
      then err Error.invalid
      else ok (IntakeRequest.known_reuse key)
]

abbrev pub intake_case : IntakeRequest → IntakeCase
intake_case (IntakeRequest.fresh _) = IntakeCase.fresh
intake_case (IntakeRequest.first_retention _) = IntakeCase.first_retention
intake_case (IntakeRequest.known_reuse _) = IntakeCase.known_reuse

abbrev pub foreign : Change → Command → Bool
foreign c command =
    any (λ (r : ContentReference). r.identity != c.state.identity) (proposed_references command)

module _ {P : Type 0} (ports : Ports P) (c : Change) where
  -- `Change::context`
  unfoldable pub context : ReadScope → Asks P Checks
  context disclosure = do
    x ← ports.context
    pure (reject_if (x.authority.represented_owner != c.state.identity.owner) Error.denied)
    let origin = disclosure_origin c.state disclosure
    pure (
        reject_if
          (not (contains x.disclosure (ReadScope.change c.state.identity.change))
            && (not (contains x.disclosure disclosure) && not (discloses_origin x origin)))
          Error.denied)
    done (record {
      identity = c.state.identity;
      expected_operation = c.state.last_operation;
      context = x;
      disclosure = disclosure;
      disclosure_origin = origin;
      creation = none;
      content_items = [];
      intakes = [];
      grounds = [];
      adaptation = none;
      native = none;
    })

  -- The part of `Change::content` for a content that is not yet resolved.
  unfoldable pub resolve : Checks → Option Operation → ContentKey → Asks P Checks
  unfolding intake_request
  resolve checks o key = do
    pure (reject_if (key.establishing != change_key c.state.identity) Error.unavailable)
    request ← pure (intake_request c o key)
    observation ← ports.resolve_content checks request
    let snapshot : IntakeSnapshot = record {
      case = intake_case request;
      source_claim = observation.source_claim;
      prior_establishment = elim (get c.state.established key) [
        | none ↦ none
        | some e ↦ some e.binding
      ];
    }
    pure (check_intake c.state o key observation.bytes snapshot)
    done (record checks {
      content_items = insert key observation.bytes checks.content_items;
      intakes = insert key snapshot checks.intakes;
    })

  -- `Change::content`
  unfoldable pub content : Checks → Option Operation → ContentKey → Asks P Checks
  content checks o key =
      if contains_key checks.content_items key then done checks else resolve checks o key

  -- A loop over contents.
  unfoldable pub contents : Checks → Option Operation → List ContentKey → Asks P Checks
  contents checks o [] = done checks
  contents checks o (key ∷ rest) = do checks' ← content checks o key; contents checks' o rest

  -- `Change::evidence`
  unfoldable pub evidence : Checks → List Evidence → Operation → Asks P Checks
  evidence checks [] o = done checks
  evidence checks (e ∷ es) o = do
    checks' ← content checks (some o) e.content
    checks'' ← content checks' (some o) e.limitations
    evidence checks'' es o

  unfoldable pub grounds : Checks → List GroundId → Asks P Checks
  grounds checks [] = done checks
  grounds checks (id ∷ rest) = do
    version ← ports.ground id
    grounds (record checks { grounds = insert id version checks.grounds }) rest

  unfoldable pub judge : Checks → Operation → ScopeJudgment → Asks P Checks
  judge checks o (ScopeJudgment.within_discretion e) = evidence checks (e ∷ []) o
  judge checks o _ = done checks

  -- `if let Command::Adapt { .. }`
  unfoldable pub adaptation : Checks → Operation → Command → Asks P Checks
  adaptation checks o (Command.adapt a _) = do
    judgment ← ports.discretion a
    checks' ← judge checks o judgment
    done (record checks' { adaptation = some (a, judgment) })
  adaptation checks o _ = done checks

  -- `if let Some(action)`
  unfoldable pub native : Checks → Operation → Option ActionRequest → Asks P Checks
  native checks o none = done checks
  native checks o (some action) = do
    conditions ← ports.native_conditions action
    checks' ← evidence checks conditions.evidence o
    done (record checks' { native = some (action, conditions) })
