-- ===== src/Application/Records.antt =====
-- src/application/records.rs: what is stored of an accepted operation, and what is derived for it.
use changekernel.Base.{
  ℕ, ◌≡◌, List, [], ◌∷◌, ◌++◌, Option, not, ◌||◌, ◌&&◌, arith, Result, ok, reject_if, ◌>>◌,
  if◌then◌else◌, map,
}
use changekernel.Base.Order.{PartialEq, Ord, eq_by_codes, ord_by_codes, ◌==◌, ◌!=◌}
use changekernel.Base.Lists.{any, flat_map, filter}
use changekernel.Base.BTreeSet.{BTreeSet, collect, contains, insert}
use changekernel.Base.BTreeMap.{contains_key, keys, values}
use changekernel.Kernel.Ids.{
  ActionId, AgreementId, AssessmentId, CriterionId, DecisionId, GrantId, OperationId, ProposalId,
  Error, id_eq, id_ord,
}
use changekernel.Kernel.Keys.{ContentKey, GrantUse, Identity, change_key, content_key_ord}
use changekernel.Kernel.Content.{FreshContent}
use changekernel.Kernel.Model.Terms.{Criterion}
use changekernel.Kernel.Model.Grants.{Grant}
use changekernel.Kernel.Model.Commands.{Command, Operation, Accepted}
use changekernel.Kernel.State.{State}
use changekernel.Application.Requests.{OperationRequestProfile, OperationRequest}
use changekernel.Application.Checks.{Checks}

pub data CreatedIdentity : Type 0 where
  operation : OperationId → CreatedIdentity
  proposal : ProposalId → CreatedIdentity
  agreement : AgreementId → CreatedIdentity
  assessment : AssessmentId → CreatedIdentity
  decision : DecisionId → CreatedIdentity
  grant : GrantId → CreatedIdentity
  action : ActionId → CreatedIdentity
  criterion : CriterionId → CreatedIdentity

abbrev pub created_codes : CreatedIdentity → List ℕ
created_codes (CreatedIdentity.operation a) = 0 ∷ a.value ∷ []
created_codes (CreatedIdentity.proposal a) = 1 ∷ a.value ∷ []
created_codes (CreatedIdentity.agreement a) = 2 ∷ a.value ∷ []
created_codes (CreatedIdentity.assessment a) = 3 ∷ a.value ∷ []
created_codes (CreatedIdentity.decision a) = 4 ∷ a.value ∷ []
created_codes (CreatedIdentity.grant a) = 5 ∷ a.value ∷ []
created_codes (CreatedIdentity.action a) = 6 ∷ a.value ∷ []
created_codes (CreatedIdentity.criterion a) = 7 ∷ a.value ∷ []

pub created_codes_inj : (a b : CreatedIdentity) → created_codes a ≡ created_codes b → a ≡ b
created_codes_inj a b h = ground arith

instance abbrev pub created_eq : PartialEq CreatedIdentity
created_eq = eq_by_codes created_codes created_codes_inj

instance abbrev pub created_ord : Ord CreatedIdentity
created_ord = ord_by_codes created_codes created_codes_inj

pub record StoredOperation : Type 0 where
  pub profile : OperationRequestProfile
  pub sequence : ℕ  -- u64
  pub operation : Operation
  pub accepted : Accepted
  pub checks : Checks
  pub used_grant : Option GrantUse
  pub grant_snapshot : Option Grant
  pub creations : BTreeSet CreatedIdentity
  pub establishments : BTreeSet ContentKey
  pub retained_content_items : BTreeSet ContentKey

pub record HistoryHead : Type 0 where
  pub profile : OperationRequestProfile
  pub identity : Identity
  pub accepted_operations : ℕ  -- u64
  pub last_operation : Option OperationId

-- `StoredOperation::operation_request`
unfoldable pub operation_request : StoredOperation → Result Error OperationRequest
operation_request r = do
  let authority = r.checks.context.authority
  reject_if
      (r.accepted.operation != r.operation.id
        || (r.accepted.actor != authority.actor
            || (r.accepted.represented_owner != authority.represented_owner
                || authority.represented_owner != r.checks.identity.owner)))
      Error.invalid
  ok (record {
    profile = r.profile;
    target = change_key r.checks.identity;
    actor = r.accepted.actor;
    represented_owner = r.accepted.represented_owner;
    operation = r.operation;
  })

-- The loop of `creation_claims` over the criteria of a proposal.
unfoldable pub criterion_claims :
    State → List Criterion → BTreeSet CreatedIdentity → BTreeSet CreatedIdentity
criterion_claims s [] out = out
criterion_claims s (c ∷ cs) out = criterion_claims s cs (
    if any (λ (old : Criterion). old.id == c.id)
      (flat_map (λ p. p.terms.criteria) (values s.proposals))
    then out
    else insert (CreatedIdentity.criterion c.id) out)

-- The `match` of `creation_claims` on the command.
unfoldable pub command_claims :
    State → Command → BTreeSet CreatedIdentity → BTreeSet CreatedIdentity
command_claims s (Command.propose p _) out =
    criterion_claims s p.terms.criteria
      (insert (CreatedIdentity.agreement p.agreement) (insert (CreatedIdentity.proposal p.id) out))
command_claims s (Command.assess a _) out = insert (CreatedIdentity.assessment a.id) out
command_claims s (Command.decide d) out = insert (CreatedIdentity.decision d.id) out
command_claims s (Command.set_grant id _ _) out =
    if not (contains_key s.grants id) then insert (CreatedIdentity.grant id) out else out
command_claims s (Command.admit a) out = insert (CreatedIdentity.action a.id) out
command_claims s _ out = out

-- `State::creation_claims`
unfoldable pub creation_claims : State → Operation → BTreeSet CreatedIdentity
creation_claims s o = command_claims s o.command (CreatedIdentity.operation o.id ∷ [])

abbrev pub payload_keys : List FreshContent → List ContentKey
payload_keys ps = map (λ (p : FreshContent). p.key) ps

-- `State::establishment_claims`
unfoldable pub establishment_claims : Operation → BTreeSet ContentKey
establishment_claims o = collect (payload_keys o.fresh ++ o.first_retention)

-- `State::retained_bindings`
unfoldable pub retained_bindings : State → Operation → Checks → BTreeSet ContentKey
retained_bindings s o checks =
    let fresh = collect (payload_keys o.fresh) in
    collect (
      filter (λ id. not (contains_key s.content_items id) && not (contains fresh id))
        (keys checks.content_items))
