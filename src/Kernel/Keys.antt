-- ===== src/Kernel/Keys.antt =====
-- The compound keys of src/kernel/change/model.rs, with the order that their maps and sets use.
use changekernel.Base.{ℕ, ◌≡◌, List, [], ◌∷◌, ◌++◌, arith}
use changekernel.Base.Order.{PartialEq, Ord, eq_by_codes, ord_by_codes}
use changekernel.Base.BTreeSet.{BTreeSet}
use changekernel.Kernel.Ids.{
  ActorId, OwnerId, LedgerId, ChangeId, ContentId, OperationId, GrantId, AgreementId, ActionId,
}

-- `ChangeKey`: the entity namespace.
pub record ChangeKey : Type 0 where
  pub owner : OwnerId
  pub ledger : LedgerId
  pub change : ChangeId

abbrev pub change_key_codes : ChangeKey → List ℕ
change_key_codes a = a.owner.value ∷ a.ledger.value ∷ a.change.value ∷ []

pub change_key_codes_inj : (a b : ChangeKey) → change_key_codes a ≡ change_key_codes b → a ≡ b
change_key_codes_inj a b h = ground arith

instance abbrev pub change_key_eq : PartialEq ChangeKey
change_key_eq = eq_by_codes change_key_codes change_key_codes_inj

pub record ContentKey : Type 0 where
  pub establishing : ChangeKey
  pub id : ContentId

abbrev pub content_key_codes : ContentKey → List ℕ
content_key_codes a =
    a.establishing.owner.value ∷ a.establishing.ledger.value ∷ a.establishing.change.value
    ∷ a.id.value ∷ []

pub content_key_codes_inj : (a b : ContentKey) → content_key_codes a ≡ content_key_codes b → a ≡ b
content_key_codes_inj a b h = ground arith

instance abbrev pub content_key_eq : PartialEq ContentKey
content_key_eq = eq_by_codes content_key_codes content_key_codes_inj

instance abbrev pub content_key_ord : Ord ContentKey
content_key_ord = ord_by_codes content_key_codes content_key_codes_inj

pub record Identity : Type 0 where
  pub owner : OwnerId
  pub owner_actor : ActorId
  pub ledger : LedgerId
  pub change : ChangeId
  pub agent : ActorId

abbrev pub identity_codes : Identity → List ℕ
identity_codes a =
    a.owner.value ∷ a.owner_actor.value ∷ a.ledger.value ∷ a.change.value ∷ a.agent.value ∷ []

pub identity_codes_inj : (a b : Identity) → identity_codes a ≡ identity_codes b → a ≡ b
identity_codes_inj a b h = ground arith

instance abbrev pub identity_eq : PartialEq Identity
identity_eq = eq_by_codes identity_codes identity_codes_inj

-- `Identity::change_key`
unfoldable pub change_key : Identity → ChangeKey
change_key i = record { owner = i.owner; ledger = i.ledger; change = i.change }

-- Membership of a content in one accepted operation.
pub record ContentReference : Type 0 where
  pub identity : Identity
  pub operation : OperationId
  pub content : ContentKey

abbrev pub content_reference_codes : ContentReference → List ℕ
content_reference_codes a =
    identity_codes a.identity ++ a.operation.value ∷ content_key_codes a.content

pub content_reference_codes_inj :
    (a b : ContentReference) → content_reference_codes a ≡ content_reference_codes b → a ≡ b
content_reference_codes_inj a b h = ground arith

instance abbrev pub content_reference_eq : PartialEq ContentReference
content_reference_eq = eq_by_codes content_reference_codes content_reference_codes_inj

instance abbrev pub content_reference_ord : Ord ContentReference
content_reference_ord = ord_by_codes content_reference_codes content_reference_codes_inj

pub record GrantUse : Type 0 where
  pub id : GrantId
  pub generation : ℕ

pub data GrantTarget : Type 0 where
  draft_creation : ChangeId → GrantTarget
  draft : ChangeId → GrantTarget
  pursuit : AgreementId → GrantTarget
  reconciliation : BTreeSet ActionId → GrantTarget

abbrev pub action_codes : List ActionId → List ℕ
action_codes [] = []
action_codes (a ∷ as') = a.value ∷ action_codes as'

abbrev pub grant_target_codes : GrantTarget → List ℕ
grant_target_codes (GrantTarget.draft_creation c) = 0 ∷ c.value ∷ []
grant_target_codes (GrantTarget.draft c) = 1 ∷ c.value ∷ []
grant_target_codes (GrantTarget.pursuit a) = 2 ∷ a.value ∷ []
grant_target_codes (GrantTarget.reconciliation actions) = 3 ∷ action_codes actions

action_codes_inj : (xs ys : List ActionId) → action_codes xs ≡ action_codes ys → xs ≡ ys
action_codes_inj [] [] h = ground arith
action_codes_inj [] (y ∷ ys) h = ground arith
action_codes_inj (x ∷ xs) [] h = ground arith
action_codes_inj (x ∷ xs) (y ∷ ys) h = ground (arith, action_codes_inj xs ys)

pub grant_target_codes_inj :
    (a b : GrantTarget) → grant_target_codes a ≡ grant_target_codes b → a ≡ b
grant_target_codes_inj (GrantTarget.reconciliation xs) (GrantTarget.reconciliation ys) h =
    ground (arith, action_codes_inj xs ys)
grant_target_codes_inj a b h = ground arith

instance abbrev pub grant_target_eq : PartialEq GrantTarget
grant_target_eq = eq_by_codes grant_target_codes grant_target_codes_inj
