-- ===== src/Application/Equality.antt =====
-- The derived equality (`#[derive(PartialEq)]`) of the records that the application compares. A record
-- of lists and enumerations has it by decision of its parts.
use changekernel.Base.{◌≡◌, ◌↔◌, refl, Bool, true, false}
use native.Mathlib.Decide.{ℕ_discrete}
use mathlib.Core.HLevel.{Discrete}
use changekernel.Base.Order.{PartialEq}
use changekernel.Kernel.Keys.{GrantUse}
use changekernel.Kernel.Content.{IntakeCase}
use changekernel.Kernel.Model.Grants.{Grant, ContentCreation}
use changekernel.Kernel.Model.Actions.{ActionRequest, Adaptation}
use changekernel.Kernel.Model.Commands.{Operation, Accepted}

module _ {A : Type 0} (d : Discrete A) where
  unfoldable pub decided : A → A → Bool
  decided a b = elim (d a b) [ yes _ ↦ true | no _ ↦ false ]

  pub decided_iff : (a b : A) → (decided a b ≡ true) ↔ (a ≡ b)
  unfolding decided
  decided_iff a b =
      elim (d a b) as (λ x. (elim x [ yes _ ↦ true | no _ ↦ false ] ≡ true) ↔ (a ≡ b)) [
        | yes e ↦ (λ _. e, λ _. refl)
        | no n ↦ (λ h. absurd (cc), λ e. absurd (n e))
      ]

  abbrev pub eq_by_decision : PartialEq A
  eq_by_decision = record { same = decided; same_iff = decided_iff }

unfoldable pub operation_discrete : Discrete Operation
operation_discrete = hlevel ℕ_discrete

unfoldable pub accepted_discrete : Discrete Accepted
accepted_discrete = hlevel ℕ_discrete

unfoldable pub grant_discrete : Discrete Grant
grant_discrete = hlevel ℕ_discrete

unfoldable pub grant_use_discrete : Discrete GrantUse
grant_use_discrete = hlevel ℕ_discrete

unfoldable pub creation_discrete : Discrete ContentCreation
creation_discrete = hlevel ℕ_discrete

unfoldable pub adaptation_discrete : Discrete Adaptation
adaptation_discrete = hlevel ℕ_discrete

unfoldable pub action_request_discrete : Discrete ActionRequest
action_request_discrete = hlevel ℕ_discrete

unfoldable pub intake_case_discrete : Discrete IntakeCase
intake_case_discrete = hlevel

instance abbrev pub operation_eq : PartialEq Operation
operation_eq = eq_by_decision operation_discrete

instance abbrev pub accepted_eq : PartialEq Accepted
accepted_eq = eq_by_decision accepted_discrete

instance abbrev pub grant_eq : PartialEq Grant
grant_eq = eq_by_decision grant_discrete

instance abbrev pub grant_use_eq : PartialEq GrantUse
grant_use_eq = eq_by_decision grant_use_discrete

instance abbrev pub creation_eq : PartialEq ContentCreation
creation_eq = eq_by_decision creation_discrete

instance abbrev pub adaptation_eq : PartialEq Adaptation
adaptation_eq = eq_by_decision adaptation_discrete

instance abbrev pub action_request_eq : PartialEq ActionRequest
action_request_eq = eq_by_decision action_request_discrete

instance abbrev pub intake_case_eq : PartialEq IntakeCase
intake_case_eq = eq_by_decision intake_case_discrete
