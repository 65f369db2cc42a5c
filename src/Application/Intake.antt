-- ===== src/Application/Intake.antt =====
-- `Change::check_intake` of src/application/change.rs, with the equality of what it compares.
pub mod Provenance
use changekernel.Base.{
  ℕ, ◌≡◌, List, [], ◌∷◌, Option, none, some, Bool, false, ◌||◌, not, Result, ok, err, reject_if,
  ok_or, ◌>>=◌, ◌>>◌, is_some, arith,
}
use changekernel.Base.Order.{◌==◌, ◌!=◌, PartialEq, eq_by_codes, option_eq, list_eq, nat_eq}
use changekernel.Base.Lists.{find}
use changekernel.Base.BTreeSet.{contains}
use changekernel.Base.BTreeMap.{get, contains_key}
use changekernel.Kernel.Ids.{Error}
use changekernel.Kernel.Keys.{
  ContentKey, ContentReference, change_key, change_key_eq, content_key_codes, content_key_codes_inj,
  content_key_eq, content_key_ord, content_reference_eq,
}
use changekernel.Kernel.Content.{
  FreshContent, InputKind, BindingKnowledge, Attribution, SourceClaim, IntakeCase, IntakeSnapshot,
  attribution_eq, same_stable_facts,
}
use changekernel.Kernel.Model.Commands.{Operation}
use changekernel.Kernel.State.{State}

abbrev pub input_kind_codes : InputKind → List ℕ
input_kind_codes InputKind.new_contribution = 0 ∷ []
input_kind_codes InputKind.pre_existing = 1 ∷ []

pub input_kind_codes_inj : (a b : InputKind) → input_kind_codes a ≡ input_kind_codes b → a ≡ b
input_kind_codes_inj a b h = ground arith

instance abbrev pub input_kind_eq : PartialEq InputKind
input_kind_eq = eq_by_codes input_kind_codes input_kind_codes_inj

abbrev pub knowledge_codes : BindingKnowledge → List ℕ
knowledge_codes BindingKnowledge.no_known_binding = 0 ∷ []
knowledge_codes (BindingKnowledge.known k) = 1 ∷ content_key_codes k

pub knowledge_codes_inj : (a b : BindingKnowledge) → knowledge_codes a ≡ knowledge_codes b → a ≡ b
knowledge_codes_inj (BindingKnowledge.known k) (BindingKnowledge.known l) h =
    ground (arith, content_key_codes_inj k l)
knowledge_codes_inj a b h = ground arith

instance abbrev pub knowledge_eq : PartialEq BindingKnowledge
knowledge_eq = eq_by_codes knowledge_codes knowledge_codes_inj

-- `operation.and_then(|op| op.fresh.iter().find(|p| &p.key == key))`
unfoldable pub payload_of : Option Operation → ContentKey → Option FreshContent
payload_of none key = none
payload_of (some op) key = find (λ p. p.key == key) op.fresh

-- `operation.is_some_and(|op| op.first_retention.contains(key))`
unfoldable pub retains_first : Option Operation → ContentKey → Bool
retains_first none key = false
retains_first (some op) key = contains op.first_retention key

-- The `match` on the case of the snapshot.
unfoldable pub check_case :
    State
    → Option Operation
    → ContentKey
    → List ℕ
    → IntakeCase
    → SourceClaim
    → Option ContentReference
    → Result Error (Unit {0})
check_case s o key bytes IntakeCase.fresh source prior = do
  payload ← ok_or (payload_of o key) Error.invalid
  reject_if (contains_key s.established key) Error.conflict
  reject_if (source.binding_knowledge != BindingKnowledge.no_known_binding) Error.conflict
  reject_if (source.input_kind != InputKind.new_contribution || bytes != payload.bytes)
      Error.conflict
  reject_if (is_some prior) Error.invalid
  reject_if (source.attribution != Attribution.actor payload.attributed_source) Error.denied
check_case s o key bytes IntakeCase.first_retention source prior = do
  reject_if (not (retains_first o key)) Error.invalid
  reject_if (contains_key s.established key) Error.conflict
  reject_if (source.binding_knowledge != BindingKnowledge.no_known_binding) Error.conflict
  reject_if (is_some prior || source.input_kind != InputKind.pre_existing) Error.invalid
check_case s o key bytes IntakeCase.known_reuse source prior = do
  established ← ok_or (get s.established key) Error.unavailable
  reject_if
      (prior != some established.binding
        || (source.binding_knowledge != BindingKnowledge.known key
            || (source.input_kind != InputKind.pre_existing
                || (get s.content_items key != some bytes
                    || not (same_stable_facts source established.original.source_claim)))))
      Error.conflict

unfoldable pub check_intake :
    State → Option Operation → ContentKey → List ℕ → IntakeSnapshot → Result Error (Unit {0})
check_intake s o key bytes snapshot = do
  reject_if (key.establishing != change_key s.identity) Error.unavailable
  check_case s o key bytes snapshot.case snapshot.source_claim snapshot.prior_establishment
