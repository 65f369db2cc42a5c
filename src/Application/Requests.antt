-- ===== src/Application/Requests.antt =====
-- src/application/operation_request.rs: the declaration that a caller retains.
use changekernel.Base.{ℕ, ◌≡◌, List, [], ◌∷◌, Bool, arith}
use native.Mathlib.Decide.{ℕ_discrete}
use mathlib.Core.HLevel.{Discrete}
use changekernel.Base.Order.{PartialEq, eq_by_codes, ◌==◌}
use changekernel.Kernel.Ids.{ActorId, OwnerId}
use changekernel.Kernel.Keys.{ChangeKey}
use changekernel.Kernel.Model.Commands.{Operation}
use changekernel.Application.Equality.{eq_by_decision}

pub record OperationRequestProfile : Type 0 where
  pub codec : ℕ  -- u32
  pub schema : ℕ  -- u32
  pub semantic : ℕ  -- u32

abbrev pub profile_codes : OperationRequestProfile → List ℕ
profile_codes p = p.codec ∷ p.schema ∷ p.semantic ∷ []

pub profile_codes_inj : (a b : OperationRequestProfile) → profile_codes a ≡ profile_codes b → a ≡ b
profile_codes_inj a b h = ground arith

instance abbrev pub profile_eq : PartialEq OperationRequestProfile
profile_eq = eq_by_codes profile_codes profile_codes_inj

-- `HISTORY_VERSION` of src/application/records.rs
abbrev pub history_version : ℕ
history_version = 3

abbrev pub current_profile : OperationRequestProfile
current_profile = record { codec = 3; schema = 3; semantic = history_version }

unfoldable pub is_current : OperationRequestProfile → Bool
is_current p = p == current_profile

pub record OperationRequest : Type 0 where
  pub profile : OperationRequestProfile
  pub target : ChangeKey
  pub actor : ActorId
  pub represented_owner : OwnerId
  pub operation : Operation

unfoldable pub request_discrete : Discrete OperationRequest
request_discrete = hlevel ℕ_discrete

instance abbrev pub request_eq : PartialEq OperationRequest
request_eq = eq_by_decision request_discrete
