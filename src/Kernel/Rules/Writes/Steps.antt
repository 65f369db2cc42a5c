-- ===== src/Kernel/Rules/Writes/Steps.antt =====
-- Inversion of an accepted transition, and the states that accepted operations lead to.
use changekernel.Base.{ℕ, ◌≡◌, Option, Result, ok, err, arith, List, inl, inr, Result-cases}
use changekernel.Base.BTreeMap.{BTreeMap}
use changekernel.Kernel.Ids.{Error, OperationId}
use changekernel.Kernel.Keys.{ContentKey}
use changekernel.Kernel.Content.{RecordedContent, ContentEstablishment}
use changekernel.Kernel.Model.Commands.{Command, Effect, Operation, Accepted}
use changekernel.Kernel.State.{State, Validation}
use changekernel.Kernel.Rules.Activation.{commit}
use changekernel.Kernel.Rules.Transition.{entry, perform, transition}

pub commit_ok :
    {A : Type 0} (s : State) (r : Result Error (A × State)) {a : A} {t : State}
    → commit s r ≡ (ok a, t)
    → r ≡ ok (a, t)
commit_ok s (ok (a, t)) h = ground arith
commit_ok s (err e) h = absurd (cc)

pub commit_err :
    {A : Type 0} (s : State) (r : Result Error (A × State)) {e : Error} {t : State}
    → commit s r ≡ (err e, t)
    → t ≡ s
commit_err s (ok (a, t)) h = absurd (cc)
commit_err s (err e) h = ground arith

module _ (s : State) (c : Command) (v : Validation) {e : Effect} {t : State} where
  pub transition_ok :
      transition s c v ≡ (ok e, t) → (entry s c v ≡ ok tt) × (perform s c v ≡ (ok e, t))
  unfolding transition
  transition_ok h = elim (Result-cases (entry s c v)) [
    | inl (u, p) ↦ (ground arith, ground arith)
    | inr (x, p) ↦ absurd (ground arith)
  ]

-- The fields that the application writes when it retains an accepted operation (`Change::retain`).
pub record Retention : Type 0 where
  pub history : BTreeMap OperationId (Operation × Accepted)
  pub last_operation : Option OperationId
  pub content_items : BTreeMap ContentKey (List ℕ)
  pub created : BTreeMap ContentKey RecordedContent
  pub established : BTreeMap ContentKey ContentEstablishment

abbrev pub retain : Retention → State → State
retain r s = record s {
  history = r.history;
  last_operation = r.last_operation;
  content_items = r.content_items;
  created = r.created;
  established = r.established;
}

-- The states that accepted transitions lead to, whatever is retained between them.
pub data Reach (s : State) : State → Type 0 where
  here : Reach s s
  next :
      {t u : State} {e : Effect} (c : Command) (v : Validation) (r : Retention)
      → Reach s t
      → transition t c v ≡ (ok e, u)
      → Reach s (retain r u)

-- A property that accepted transitions and retention keep holds of all these states.
module _ (P : State → Type 0)
    (step : (t u : State) (e : Effect) (c : Command) (v : Validation)
      → transition t c v ≡ (ok e, u)
      → P t
      → P u)
    (keep : (r : Retention) (t : State) → P t → P (retain r t)) where
  pub Reach-induction : (s : State) {t : State} → P s → Reach s t → P t
  Reach-induction s h here = h
  Reach-induction s h (next {t} {u} {e} c v r path accepted) =
      keep r u (step t u e c v accepted (Reach-induction s h path))
