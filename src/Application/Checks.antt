-- ===== src/Application/Checks.antt =====
-- The data of src/application/ports.rs: what a port reports and what an operation was checked against.
use changekernel.Base.{ℕ, ◌≡◌, List, [], ◌∷◌, ◌++◌, Option, arith}
use changekernel.Base.Order.{PartialEq, Ord, eq_by_codes, ord_by_codes}
use changekernel.Base.BTreeSet.{BTreeSet}
use changekernel.Base.BTreeMap.{BTreeMap}
use changekernel.Kernel.Ids.{
  ChangeId, OperationId, ActionId, ContextVersion, GroundId, GroundVersion, Error,
}
use changekernel.Kernel.Keys.{
  ContentKey, Identity, content_key_codes, content_key_codes_inj, identity_codes,
  identity_codes_inj, grant_target_codes, grant_target_codes_inj,
}
use changekernel.Kernel.Content.{FreshContent, IntakeSnapshot, OriginScope, SourceClaim}
use changekernel.Kernel.Model.Grants.{ContentCreation}
use changekernel.Kernel.Model.Actions.{Action, ActionRequest, Adaptation}
use changekernel.Kernel.Model.Commands.{Accepted, Status}
use changekernel.Kernel.State.{Authority, ScopeJudgment, NativeConditions}

pub data ReadScope : Type 0 where
  change : ChangeId → ReadScope
  operation : OperationId → ReadScope
  origin : OriginScope → ReadScope
  content : ContentKey → ReadScope
  action : ActionId → ReadScope

abbrev pub origin_scope_codes : OriginScope → List ℕ
origin_scope_codes o =
    identity_codes o.identity ++ o.grant.id.value ∷ o.grant.generation ∷ grant_target_codes o.target

-- The derived order: that of the declaration, then that of the fields.
abbrev pub read_scope_codes : ReadScope → List ℕ
read_scope_codes (ReadScope.change c) = 0 ∷ c.value ∷ []
read_scope_codes (ReadScope.operation o) = 1 ∷ o.value ∷ []
read_scope_codes (ReadScope.origin o) = 2 ∷ origin_scope_codes o
read_scope_codes (ReadScope.content k) = 3 ∷ content_key_codes k
read_scope_codes (ReadScope.action a) = 4 ∷ a.value ∷ []

origin_scope_codes_inj : (a b : OriginScope) → origin_scope_codes a ≡ origin_scope_codes b → a ≡ b
origin_scope_codes_inj a b h =
    ground
      (arith, identity_codes_inj a.identity b.identity, grant_target_codes_inj a.target b.target)

pub read_scope_codes_inj : (a b : ReadScope) → read_scope_codes a ≡ read_scope_codes b → a ≡ b
read_scope_codes_inj (ReadScope.origin a) (ReadScope.origin b) h =
    ground (arith, origin_scope_codes_inj a b)
read_scope_codes_inj (ReadScope.content a) (ReadScope.content b) h =
    ground (arith, content_key_codes_inj a b)
read_scope_codes_inj a b h = ground arith

instance abbrev pub read_scope_eq : PartialEq ReadScope
read_scope_eq = eq_by_codes read_scope_codes read_scope_codes_inj

instance abbrev pub read_scope_ord : Ord ReadScope
read_scope_ord = ord_by_codes read_scope_codes read_scope_codes_inj

pub record Context : Type 0 where
  pub version : ContextVersion
  pub authority : Authority
  pub disclosure : BTreeSet ReadScope

pub record Checks : Type 0 where
  pub identity : Identity
  pub expected_operation : Option OperationId
  pub context : Context
  pub disclosure : ReadScope
  pub disclosure_origin : Option OriginScope
  pub creation : Option ContentCreation
  pub content_items : BTreeMap ContentKey (List ℕ)
  pub intakes : BTreeMap ContentKey IntakeSnapshot
  pub grounds : BTreeMap GroundId GroundVersion
  pub adaptation : Option (Adaptation × ScopeJudgment)
  pub native : Option (ActionRequest × NativeConditions)

pub data Acceptance : Type 0 where
  accepted : Acceptance
  refused : Error → Acceptance
  not_accepted : Error → Acceptance
  indeterminate : Acceptance

pub data Query : Type 0 where
  status : Query
  operation : OperationId → Query
  content : ContentKey → Query
  action : ActionId → Query

pub data Read : Type 0 where
  status : Status → Read
  operation : Option Accepted → Read
  content : List ℕ → Read
  action : Action → Read

pub data IntakeRequest : Type 0 where
  fresh : FreshContent → IntakeRequest
  first_retention : ContentKey → IntakeRequest
  known_reuse : ContentKey → IntakeRequest

pub record ContentObservation : Type 0 where
  pub bytes : List ℕ
  pub source_claim : SourceClaim
