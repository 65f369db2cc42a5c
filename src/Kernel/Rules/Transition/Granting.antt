-- ===== src/Kernel/Rules/Transition/Granting.antt =====
-- `Command::SetGrant` and `Command::RevokeGrant` of `State::transition`.
use changekernel.Base.{
  ℕ, [], ◌∷◌, Option, none, some, Bool, true, false, ◌||◌, ◌&&◌, not, Result, ok, err, reject_if,
  ok_or, ◌>>=◌, ◌>>◌, if◌then◌else◌, is_none,
}
use changekernel.Base.Order.{◌==◌, ◌!=◌, option_eq, list_eq, nat_eq}
use changekernel.Base.Lists.{all, is_empty}
use changekernel.Base.BTreeSet.{is_subset}
use changekernel.Base.BTreeMap.{get, insert, contains_key}
use changekernel.Kernel.Ids.{GrantId, Error, id_eq, id_ord}
use changekernel.Kernel.Keys.{GrantTarget}
use changekernel.Kernel.Model.Grants.{
  Grant, GrantSpec, GrantAction, grant_action_eq, grant_action_ord,
}
use changekernel.Kernel.Model.Commands.{Effect}
use changekernel.Kernel.State.{State, Validation}
use changekernel.Kernel.Rules.Lookup.{owner, is_settled, checked_add}
use changekernel.Kernel.Rules.Origins.{validate_origin_selectors}

abbrev pub is_drafting : GrantAction → Bool
is_drafting GrantAction.propose = true
is_drafting GrantAction.assess = true
is_drafting GrantAction.finding = true
is_drafting _ = false

abbrev pub no_native : GrantSpec → Bool
no_native spec = is_empty spec.native_actions && is_empty spec.native_scope

-- The `match` on the target: what a grant may allow there.
unfoldable pub target_allows : State → GrantSpec → GrantTarget → Bool
target_allows s spec (GrantTarget.draft_creation change) =
    change == s.identity.change
    && (not s.initiated && (spec.actions == GrantAction.create_draft ∷ [] && no_native spec))
target_allows s spec (GrantTarget.draft change) =
    change == s.identity.change && (all is_drafting spec.actions && no_native spec)
target_allows s spec (GrantTarget.pursuit a) = s.current == some a && not (is_settled s)
target_allows s spec (GrantTarget.reconciliation actions) =
    not (is_empty actions)
    && (all (λ id. contains_key s.actions id) actions
        && (is_subset spec.actions (GrantAction.reconcile ∷ []) && no_native spec))

-- The `match` on the grant that the identity names.
unfoldable pub next_generation : Option Grant → Option ℕ → Result Error ℕ
next_generation none expected = if is_none expected then ok 1 else err Error.conflict
next_generation (some old) expected =
    if not old.revoked && expected == some old.generation
    then ok_or (checked_add old.generation 1) Error.invalid
    else err Error.conflict

abbrev pub granted : GrantId → ℕ → GrantSpec → Grant
granted id generation spec = record {
  id = id;
  generation = generation;
  spec = spec;
  revoked = false;
}

unfoldable pub set_grant :
    State → GrantId → Option ℕ → GrantSpec → Validation → Result Error (Effect × State)
unfolding next_generation
set_grant s id expected spec v = do
  owner s v.authority
  validate_origin_selectors s spec
  reject_if
      (is_empty spec.actions && (is_empty spec.disclosure && is_empty spec.disclosure_origins))
      Error.invalid
  reject_if
      (is_empty spec.actions
        && (not (is_empty spec.native_actions) || not (is_empty spec.native_scope)))
      Error.invalid
  reject_if (not (target_allows s spec spec.target)) Error.denied
  generation ← next_generation (get s.grants id) expected
  ok (
    Effect.grant (record { id = id; generation = generation }),
    record s { grants = insert id (granted id generation spec) s.grants },
  )

unfoldable pub revoke_grant : State → GrantId → ℕ → Validation → Result Error (Effect × State)
revoke_grant s id expected v = do
  owner s v.authority
  old ← ok_or (get s.grants id) Error.conflict
  reject_if (old.revoked || old.generation != expected) Error.conflict
  generation ← ok_or (checked_add old.generation 1) Error.invalid
  ok (
    Effect.revoked (record { id = id; generation = generation }),
    record s {
      grants = insert id (record old { generation = generation; revoked = true }) s.grants;
    },
  )
