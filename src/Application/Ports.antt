-- ===== src/Application/Ports.antt =====
-- The trait `Ports` of src/application/ports.rs. An implementation keeps a state of its own, of any
-- type `P`; a call returns a result and that state, also where it fails.
use changekernel.Base.{Result, ok, err}
use changekernel.Kernel.Ids.{GroundId, GroundVersion, Error}
use changekernel.Kernel.Model.Actions.{ActionRequest, Adaptation}
use changekernel.Kernel.Model.Commands.{Operation}
use changekernel.Kernel.State.{ScopeJudgment, NativeConditions}
use changekernel.Application.Checks.{Context, Checks, Acceptance, IntakeRequest, ContentObservation}
use changekernel.Application.Records.{StoredOperation}

-- Code that may ask the ports.
abbrev pub Asks : Type 0 → Type 0 → Type 0
Asks P A = P → Result Error A × P

pub record Ports (P : Type 0) : Type 0 where
  pub context : Asks P Context
  pub resolve_content : Checks → IntakeRequest → Asks P ContentObservation
  pub authorize_intake : Checks → Operation → Asks P (Unit {0})
  pub ground : GroundId → Asks P GroundVersion
  pub discretion : Adaptation → Asks P ScopeJudgment
  pub native_conditions : ActionRequest → Asks P NativeConditions
  pub accept : StoredOperation → P → Acceptance × P
  pub disclose : Checks → Asks P (Unit {0})

unfoldable pub continue :
    {P A B : Type 0} → Result Error A × P → (A → Asks P B) → Result Error B × P
continue (ok a, p) next = next a p
continue (err e, p) next = (err e, p)

-- `?` after a call that may ask the ports.
infixl 5 ◌>>=◌ ◌>>◌
abbrev pub ◌>>=◌ : {P A B : Type 0} → Asks P A → (A → Asks P B) → Asks P B
◌>>=◌ m next = λ p. continue (m p) next

abbrev pub ◌>>◌ : {P A B : Type 0} → Asks P A → Asks P B → Asks P B
m >> k = m >>= λ _. k

-- A computation that asks no port.
abbrev pub pure : {P A : Type 0} → Result Error A → Asks P A
pure r = λ p. (r, p)

abbrev pub done : {P A : Type 0} → A → Asks P A
done a = λ p. (ok a, p)
