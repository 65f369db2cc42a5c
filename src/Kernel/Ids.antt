-- ===== src/Kernel/Ids.antt =====
-- The identity types of src/kernel/change/model.rs and its `Error`. The macro `identities!` declares
-- one type for each name; here the name is an index, so that the types stay apart.
pub mod Bytes
pub use Bytes.{byte_value, byte_digits, IsBytes, digits-value, value-digits, length-digits}
use changekernel.Base.{
  ℕ, ◌≡◌, refl, ap, List, [], ◌∷◌, map, arith, Result, ok, err, Bool, true, false, ◌&&◌, eqb,
  if◌then◌else◌,
}
use changekernel.Base.Order.{PartialEq, Ord, eq_by_codes, ord_by_codes}
use changekernel.Base.Lists.{all}

pub data IdKind : Type 0 where
  actor owner ledger change proposal agreement assessment decision grant action : IdKind
  operation content ground_fact ground_version criterion scope limit native_action : IdKind
  context_version : IdKind

-- The sixteen bytes of `$name([u8; 16])`, read as one big-endian number: the order of byte arrays is
-- the order of these numbers.
pub record Identifier (k : IdKind) : Type 0 where
  pub value : ℕ

abbrev pub ActorId : Type 0
ActorId = Identifier IdKind.actor

abbrev pub OwnerId : Type 0
OwnerId = Identifier IdKind.owner

abbrev pub LedgerId : Type 0
LedgerId = Identifier IdKind.ledger

abbrev pub ChangeId : Type 0
ChangeId = Identifier IdKind.change

abbrev pub ProposalId : Type 0
ProposalId = Identifier IdKind.proposal

abbrev pub AgreementId : Type 0
AgreementId = Identifier IdKind.agreement

abbrev pub AssessmentId : Type 0
AssessmentId = Identifier IdKind.assessment

abbrev pub DecisionId : Type 0
DecisionId = Identifier IdKind.decision

abbrev pub GrantId : Type 0
GrantId = Identifier IdKind.grant

abbrev pub ActionId : Type 0
ActionId = Identifier IdKind.action

abbrev pub OperationId : Type 0
OperationId = Identifier IdKind.operation

abbrev pub ContentId : Type 0
ContentId = Identifier IdKind.content

abbrev pub GroundId : Type 0
GroundId = Identifier IdKind.ground_fact

abbrev pub GroundVersion : Type 0
GroundVersion = Identifier IdKind.ground_version

abbrev pub CriterionId : Type 0
CriterionId = Identifier IdKind.criterion

abbrev pub ScopeId : Type 0
ScopeId = Identifier IdKind.scope

abbrev pub LimitId : Type 0
LimitId = Identifier IdKind.limit

abbrev pub NativeActionId : Type 0
NativeActionId = Identifier IdKind.native_action

abbrev pub ContextVersion : Type 0
ContextVersion = Identifier IdKind.context_version

pub data Error : Type 0 where
  invalid conflict denied stale unavailable terminal needs_revision : Error

-- `Error`'s `Display` is left out: no rule reads it.

module _ {k : IdKind} where
  abbrev pub id_codes : Identifier k → List ℕ
  id_codes a = a.value ∷ []

  pub id_codes_inj : (a b : Identifier k) → id_codes a ≡ id_codes b → a ≡ b
  id_codes_inj a b h = ground arith

  instance abbrev pub id_eq : PartialEq (Identifier k)
  id_eq = eq_by_codes id_codes id_codes_inj

  instance abbrev pub id_ord : Ord (Identifier k)
  id_ord = ord_by_codes id_codes id_codes_inj

-- `bytes == [0; 16]`
abbrev pub is_zero_array : List ℕ → Bool
is_zero_array bytes = all (λ b. eqb b 0) bytes

unfoldable pub from_bytes : (k : IdKind) → List ℕ → Result Error (Identifier k)
from_bytes k bytes =
    if is_zero_array bytes then err Error.invalid else ok (record { value = byte_value bytes })

unfoldable pub as_bytes : {k : IdKind} → Identifier k → List ℕ
as_bytes a = byte_digits 16 a.value
