-- ===== src/Guarantees/Actions.antt =====
-- Native actions over time: what is kept of an action, and that it is dispatched at most once.
use changekernel.Base.{
  ◌≡◌, ◌≢◌, refl, ◌++◌, List, [], ◌∷◌, Option, some, ok, arith, inl, inr, Bool-cases, ap, ◌∙◌,
}
use changekernel.Base.Order.{eq_of_beq}
use changekernel.Base.BTreeMap.{get, insert, get-insert, get-insert_self}
use changekernel.Kernel.Ids.{ActionId, id_eq, id_ord}
use changekernel.Kernel.Model.Terms.{Evidence}
use changekernel.Kernel.Model.Actions.{Action, ActionPhase}
use changekernel.Kernel.Model.Commands.{Command, Effect}
use changekernel.Kernel.State.{State, Validation}
use changekernel.Kernel.Rules.Transition.{perform, transition}
use changekernel.Kernel.Rules.Writes.{dispatch_writes}
use changekernel.Kernel.Rules.Writes.Steps.{
  commit_ok, transition_ok, Retention, retain, Reach, Reach-induction,
}
use changekernel.Kernel.Rules.Writes.Kinds.{ActionStep, Wrote, perform_wrote}

-- What a later state keeps of an action.
pub record Continues (a b : Action) : Type 0 where
  pub request : b.request ≡ a.request
  pub actor : b.actor ≡ a.actor
  pub admission_dependencies : b.admission_dependencies ≡ a.admission_dependencies
  pub added : List Evidence
  pub evidence : b.evidence ≡ a.evidence ++ added
  pub phase : a.phase ≢ ActionPhase.admitted → b.phase ≢ ActionPhase.admitted

append_nil : (xs : List Evidence) → xs ++ [] ≡ xs
append_nil [] = refl
append_nil (x ∷ xs) = ap (λ (r : List Evidence). x ∷ r) (append_nil xs)

append_assoc : (xs ys zs : List Evidence) → (xs ++ ys) ++ zs ≡ xs ++ (ys ++ zs)
append_assoc [] ys zs = refl
append_assoc (x ∷ xs) ys zs = ap (λ (r : List Evidence). x ∷ r) (append_assoc xs ys zs)

Continues-refl : (a : Action) → Continues a a
Continues-refl a = record {
  request = refl;
  actor = refl;
  admission_dependencies = refl;
  added = [];
  evidence = ground (arith, append_nil a.evidence);
  phase = λ h. h;
}

Continues-trans : {a b c : Action} → Continues a b → Continues b c → Continues a c
Continues-trans {a} p q = record {
  request = q.request ∙ p.request;
  actor = q.actor ∙ p.actor;
  admission_dependencies = q.admission_dependencies ∙ p.admission_dependencies;
  added = p.added ++ q.added;
  evidence = cc (p.evidence, q.evidence, append_assoc a.evidence p.added q.added);
  phase = λ h. q.phase (p.phase h);
}

ActionStep-Continues :
    (o : Option Action) (a b : Action) → o ≡ some a → ActionStep o b → Continues a b
ActionStep-Continues o a b e (ActionStep.admits p q) = absurd (cc)
ActionStep-Continues o a b e (ActionStep.dispatches old p q w) = record {
  request = ground arith;
  actor = ground arith;
  admission_dependencies = ground arith;
  added = [];
  evidence = ground (arith, append_nil a.evidence);
  phase = λ h. ground arith;
}
ActionStep-Continues o a b e (ActionStep.reports old evidence outcome p q w) = record {
  request = ground arith;
  actor = ground arith;
  admission_dependencies = ground arith;
  added = evidence;
  evidence = ground arith;
  phase = λ h. ground arith;
}

-- Every action of `s` is still there in `t`, and continues.
pub record KeepsActions (s t : State) : Type 0 where
  pub later :
      (id : ActionId) (a : Action)
      → get s.actions id ≡ some a
      → (b : Action) × (get t.actions id ≡ some b) × Continues a b

KeepsActions-same : (s t : State) → t.actions ≡ s.actions → KeepsActions s t
KeepsActions-same s t e = record { later = λ id a h. (a, rw e h, Continues-refl a) }

KeepsActions-insert :
    (s t : State) (id : ActionId) (new : Action)
    → t.actions ≡ insert id new s.actions
    → ActionStep (get s.actions id) new
    → KeepsActions s t
KeepsActions-insert s t id new e step = record {
  later = λ j a h. elim (Bool-cases (id_eq.same j id)) [
    | inl same ↦ (
      new,
      rw e (ground (arith, get-insert id j new s.actions)),
      ActionStep-Continues (get s.actions id) a new (rw (eq_of_beq j id same) at h) step,
    )
    | inr other ↦ (a, rw e (ground (arith, get-insert id j new s.actions)), Continues-refl a)
  ];
}

Wrote-KeepsActions : (s t : State) → Wrote s t → KeepsActions s t
Wrote-KeepsActions s t (Wrote.acting id new w step) =
    KeepsActions-insert s t id new (ground arith) step
Wrote-KeepsActions s t (Wrote.decided k _ _) = KeepsActions-same s t k.actions
Wrote-KeepsActions s t (Wrote.nothing w) = KeepsActions-same s t (ground arith)
Wrote-KeepsActions s t (Wrote.initiation w) = KeepsActions-same s t (ground arith)
Wrote-KeepsActions s t (Wrote.proposed p w n) = KeepsActions-same s t (ground arith)
Wrote-KeepsActions s t (Wrote.assessed a w n) = KeepsActions-same s t (ground arith)
Wrote-KeepsActions s t (Wrote.granting id new w k) = KeepsActions-same s t (ground arith)
Wrote-KeepsActions s t (Wrote.settling x w) = KeepsActions-same s t (ground arith)

KeepsActions-trans : {s t u : State} → KeepsActions s t → KeepsActions t u → KeepsActions s u
KeepsActions-trans p q = record {
  later = λ id a h.
      let (b, h', k) = p.later id a h in
      let (c, h'', k') = q.later id b h' in (c, h'', Continues-trans k k');
}

-- Over every history of accepted operations an action is never lost: its request, its actor and the
-- dependencies of its admission stay, its evidence is only appended to, and once it has left the
-- admitted phase it never returns to it.
pub Reach-KeepsActions : {s t : State} → Reach s t → KeepsActions s t
Reach-KeepsActions {s} =
    Reach-induction (KeepsActions s)
      (λ t u e c v h k.
        KeepsActions-trans k
          (Wrote-KeepsActions t u (perform_wrote t u e c v (transition_ok t c v h).1)))
      (λ r t k. record { later = k.later }) s (KeepsActions-same s s refl)

-- After an accepted dispatch of an action, no history of accepted operations leads to a state in
-- which a dispatch of that action is accepted again, whoever asks and whatever was validated.
pub dispatched_once :
    (s t u w : State) (id : ActionId) (v v' : Validation) (e e' : Effect) (r : Retention)
    → transition s (Command.dispatch id) v ≡ (ok e, t)
    → Reach (retain r t) u
    → transition u (Command.dispatch id) v' ≢ (ok e', w)
unfolding perform
dispatched_once s t u w id v v' e e' r h path again =
    let done = (transition_ok s (Command.dispatch id) v h).1 in
    let (a, p, q, written, _, _) = dispatch_writes s v id (commit_ok s _ done) in
    let redone = (transition_ok u (Command.dispatch id) v' again).1 in
    let (b, p', q', _, _, _) = dispatch_writes u v' id (commit_ok u _ redone) in
    let new : Action = record a { phase = ActionPhase.dispatched } in
    let (c, h', k) =
      (Reach-KeepsActions path).later id new
        (rw (ap (λ (x : State). x.actions) written) (get-insert_self id new s.actions)) in
    k.phase (λ (x : new.phase ≡ ActionPhase.admitted). cc) (ground arith)
