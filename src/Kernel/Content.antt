-- ===== src/Kernel/Content.antt =====
-- src/kernel/change/content.rs: the payloads of a Change, their origin and their intake.
use changekernel.Base.{ℕ, ◌≡◌, List, [], ◌∷◌, ◌++◌, arith, Option, Bool, ◌&&◌}
use changekernel.Base.Order.{list_eq, nat_eq, PartialEq, eq_by_codes, ◌==◌}
use changekernel.Base.BTreeSet.{BTreeSet}
use changekernel.Kernel.Ids.{ActorId, OwnerId}
use changekernel.Kernel.Keys.{
  ContentKey, ContentReference, Identity, GrantUse, GrantTarget, content_reference_codes,
  content_reference_codes_inj, grant_target_codes, grant_target_codes_inj, identity_eq,
}

pub record FreshContent : Type 0 where
  pub key : ContentKey
  pub derived_from : BTreeSet ContentReference
  pub bytes : List ℕ
  pub attributed_source : ActorId

pub record ContentLimits : Type 0 where
  pub items : ℕ  -- u64
  pub payload_bytes : ℕ  -- u64

pub record ContentUsage : Type 0 where
  pub items : ℕ  -- u64
  pub payload_bytes : ℕ  -- u64

pub record OriginScope : Type 0 where
  pub identity : Identity
  pub grant : GrantUse
  pub target : GrantTarget

pub record ContentOrigin : Type 0 where
  pub binding : ContentReference
  pub recorder : ActorId
  pub represented_owner : OwnerId
  pub grant : GrantUse
  pub target : GrantTarget

-- `ContentOrigin::scope`
unfoldable pub scope : ContentOrigin → OriginScope
scope o = record { identity = o.binding.identity; grant = o.grant; target = o.target }

-- The target comes last, so that the numbers of an origin determine it.
abbrev pub content_origin_codes : ContentOrigin → List ℕ
content_origin_codes o =
    content_reference_codes o.binding
    ++ o.recorder.value
      ∷ o.represented_owner.value
      ∷ o.grant.id.value
      ∷ o.grant.generation
      ∷ grant_target_codes o.target

pub content_origin_codes_inj :
    (a b : ContentOrigin) → content_origin_codes a ≡ content_origin_codes b → a ≡ b
content_origin_codes_inj a b h = ground (
  arith,
  content_reference_codes_inj a.binding b.binding,
  grant_target_codes_inj a.target b.target,
)

instance abbrev pub content_origin_eq : PartialEq ContentOrigin
content_origin_eq = eq_by_codes content_origin_codes content_origin_codes_inj

pub data OriginSelector : Type 0 where
  current_grant : OriginSelector
  historical : ContentOrigin → OriginSelector

pub record RecordedContent : Type 0 where
  pub payload : FreshContent
  pub origin : ContentOrigin

-- `ContentCreation`, whose grant is of the model's `Grant`, stands with it in `Model.Grants`.

pub data InputKind : Type 0 where
  new_contribution pre_existing : InputKind

pub data BindingKnowledge : Type 0 where
  no_known_binding : BindingKnowledge
  known : ContentKey → BindingKnowledge

pub data Attribution : Type 0 where
  anonymous : Attribution
  actor : ActorId → Attribution

pub record SourceClaim : Type 0 where
  pub input_kind : InputKind
  pub binding_knowledge : BindingKnowledge
  pub attribution : Attribution
  pub limitations : List ℕ

pub data IntakeCase : Type 0 where
  fresh first_retention known_reuse : IntakeCase

pub record IntakeSnapshot : Type 0 where
  pub case : IntakeCase
  pub source_claim : SourceClaim
  pub prior_establishment : Option ContentReference

pub record ContentEstablishment : Type 0 where
  pub binding : ContentReference
  pub original : IntakeSnapshot
  pub recorder : ActorId
  pub represented_owner : OwnerId
  pub grant : Option GrantUse
  pub target : Option GrantTarget

abbrev pub attribution_codes : Attribution → List ℕ
attribution_codes Attribution.anonymous = 0 ∷ []
attribution_codes (Attribution.actor a) = 1 ∷ a.value ∷ []

pub attribution_codes_inj : (a b : Attribution) → attribution_codes a ≡ attribution_codes b → a ≡ b
attribution_codes_inj (Attribution.actor a) b h = ground arith
attribution_codes_inj a b h = ground arith

instance abbrev pub attribution_eq : PartialEq Attribution
attribution_eq = eq_by_codes attribution_codes attribution_codes_inj

-- `SourceClaim::same_stable_facts`
unfoldable pub same_stable_facts : SourceClaim → SourceClaim → Bool
same_stable_facts a b = a.attribution == b.attribution && a.limitations == b.limitations
