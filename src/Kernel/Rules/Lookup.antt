-- ===== src/Kernel/Rules/Lookup.antt =====
-- The lookups of `State` and the checks of the two parties and of a grant (rules.rs).
use changekernel.Base.{
  ℕ, ◌+◌, ◌-◌, ◌^◌, List, Option, none, some, Bool, true, false, ◌||◌, Result, ok, reject_if, ok_or,
  ◌>>=◌, ◌>>◌, if◌then◌else◌, leb,
}
use changekernel.Base.Order.{◌!=◌, option_eq, nat_eq}
use changekernel.Base.Lists.{is_empty}
use changekernel.Base.BTreeMap.{get}
use changekernel.Kernel.Ids.{
  ProposalId, AgreementId, AssessmentId, DecisionId, ActionId, Error, id_eq, id_ord,
}
use changekernel.Kernel.Keys.{GrantUse, identity_eq}
use changekernel.Kernel.Model.Terms.{Proposal, Assessment, DecisionKind}
use changekernel.Kernel.Model.Grants.{Grant}
use changekernel.Kernel.Model.Actions.{ActionRequest}
use changekernel.Kernel.State.{State, Authority, EffectiveDecision, Agreement}

abbrev pub u64_max : ℕ
u64_max = 2 ^ 64 - 1

-- `u64::checked_add`
abbrev pub checked_add : ℕ → ℕ → Option ℕ
checked_add a b = if leb (a + b) u64_max then some (a + b) else none

-- `nonempty`
unfoldable pub nonempty {ℓ} : {A : Type ℓ} → List A → Result Error (Unit {0})
nonempty items = reject_if (is_empty items) Error.invalid

unfoldable pub proposal : State → ProposalId → Result Error Proposal
proposal s id = ok_or (get s.proposals id) Error.invalid

unfoldable pub assessment : State → AssessmentId → Result Error Assessment
assessment s id = ok_or (get s.assessments id) Error.invalid

unfoldable pub decision : State → DecisionId → Result Error EffectiveDecision
decision s id = ok_or (get s.decisions id) Error.invalid

unfoldable pub agreement : State → AgreementId → Result Error Agreement
agreement s id = ok_or (get s.agreements id) Error.invalid

abbrev pub is_settled : State → Bool
is_settled s = elim s.settlement [ none ↦ false | some _ ↦ true ]

unfoldable pub current_agreement : State → AgreementId → Result Error Agreement
unfolding agreement
current_agreement s id = do
  reject_if (is_settled s) Error.terminal
  reject_if (s.current != some id) Error.stale
  agreement s id

-- `State::owner`
unfoldable pub owner : State → Authority → Result Error (Unit {0})
owner s a =
    reject_if
      (a.actor != s.identity.owner_actor
        || (a.represented_owner != s.identity.owner || a.owner_control != some s.identity))
      Error.denied

-- `State::agent`
unfoldable pub agent : State → Authority → Result Error (Unit {0})
agent s a =
    reject_if
      (a.actor != s.identity.agent
        || (a.represented_owner != s.identity.owner || a.agent_role != some s.identity))
      Error.denied

unfoldable pub party : State → DecisionKind → Authority → Result Error (Unit {0})
unfolding owner agent
party s DecisionKind.adopt a = owner s a
party s (DecisionKind.undertake _) a = agent s a

-- `State::grant`
unfoldable pub grant : State → GrantUse → Authority → Result Error Grant
grant s used authority = do
  g ← ok_or (get s.grants used.id) Error.denied
  reject_if
      (g.revoked
        || (g.generation != used.generation
            || (g.spec.recipient != authority.actor
                || authority.represented_owner != s.identity.owner)))
      Error.denied
  ok g

unfoldable pub action_request : State → ActionId → Result Error ActionRequest
action_request s id = do a ← ok_or (get s.actions id) Error.invalid; ok a.request
