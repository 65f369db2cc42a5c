-- ===== src/Kernel/Model/Grants.antt =====
-- Grants: delegated access to the commands of a Change.
use changekernel.Base.{ℕ, List, [], ◌∷◌, Option, Bool, arith, ◌≡◌}
use changekernel.Base.Order.{PartialEq, Ord, eq_by_codes, ord_by_codes}
use changekernel.Base.BTreeSet.{BTreeSet}
use changekernel.Base.BTreeMap.{BTreeMap}
use changekernel.Kernel.Ids.{ActorId, GrantId, NativeActionId, ScopeId, LimitId}
use changekernel.Kernel.Keys.{ContentKey, GrantUse, GrantTarget}
use changekernel.Kernel.Content.{ContentLimits, ContentUsage, OriginSelector, RecordedContent}

pub data Access : Type 0 where
  owner : Access
  grant : GrantUse → Access

pub data GrantAction : Type 0 where
  create_draft propose assess finding adapt progress admit dispatch reconcile : GrantAction

-- The derived order: that of the declaration.
abbrev pub grant_action_codes : GrantAction → List ℕ
grant_action_codes GrantAction.create_draft = 0 ∷ []
grant_action_codes GrantAction.propose = 1 ∷ []
grant_action_codes GrantAction.assess = 2 ∷ []
grant_action_codes GrantAction.finding = 3 ∷ []
grant_action_codes GrantAction.adapt = 4 ∷ []
grant_action_codes GrantAction.progress = 5 ∷ []
grant_action_codes GrantAction.admit = 6 ∷ []
grant_action_codes GrantAction.dispatch = 7 ∷ []
grant_action_codes GrantAction.reconcile = 8 ∷ []

pub grant_action_codes_inj :
    (a b : GrantAction) → grant_action_codes a ≡ grant_action_codes b → a ≡ b
grant_action_codes_inj a b h = ground arith

instance abbrev pub grant_action_eq : PartialEq GrantAction
grant_action_eq = eq_by_codes grant_action_codes grant_action_codes_inj

instance abbrev pub grant_action_ord : Ord GrantAction
grant_action_ord = ord_by_codes grant_action_codes grant_action_codes_inj

pub record GrantSpec : Type 0 where
  pub recipient : ActorId
  pub target : GrantTarget
  pub actions : BTreeSet GrantAction
  pub content_items : BTreeSet ContentKey
  pub disclosure : BTreeSet ContentKey
  pub creation : Option ContentLimits
  pub content_origins : BTreeSet OriginSelector
  pub disclosure_origins : BTreeSet OriginSelector
  pub native_actions : BTreeSet NativeActionId
  pub native_scope : BTreeSet ScopeId
  pub limits : BTreeSet LimitId

pub record Grant : Type 0 where
  pub id : GrantId
  pub generation : ℕ  -- u64
  pub spec : GrantSpec
  pub revoked : Bool

-- `ContentCreation` of content.rs
pub record ContentCreation : Type 0 where
  pub grant : Grant
  pub content_items : BTreeMap ContentKey RecordedContent
  pub usage : ContentUsage
