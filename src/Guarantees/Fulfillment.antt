-- ===== src/Guarantees/Fulfillment.antt =====
-- What the owner's acceptance of a fulfilment requires.
use changekernel.Base.{
  Bool-cases, Option-cases, ◌&&◌, ◌≡◌, ◌≢◌, refl, some, Bool, true, false, ok, arith, inl, inr,
  List, [], ◌∷◌, not, ap, sym, subst, ◌∙◌,
}
use changekernel.Base.Order.{◌==◌, eq_of_not_bne, list_eq, option_eq}
use changekernel.Base.Lists.{Member, here, there, any, is_empty, any-Member, any_of_Member}
use changekernel.Base.BTreeSet.{
  contains, collect, contains-collect, contains-Member, Member-contains,
}
use changekernel.Base.BTreeMap.{get, values, Member-get}
use changekernel.Kernel.Ids.{ActionId, AgreementId, CriterionId, id_eq, id_ord}
use changekernel.Kernel.Keys.{ContentKey, content_key_eq}
use changekernel.Kernel.Model.Terms.{Criterion, Proposal}
use changekernel.Kernel.Model.Actions.{
  Action, ActionPhase, CriterionEvidence, Fulfillment, Resolution, phase_eq,
}
use changekernel.Kernel.Model.Commands.{Command, Effect}
use changekernel.Kernel.State.{Agreement, State, Validation}
use changekernel.Kernel.Rules.Lookup.{agreement, current_agreement, proposal}
use changekernel.Kernel.Rules.Dependencies.{current_grounds}
use changekernel.Kernel.Rules.Transition.{perform, transition}
use changekernel.Kernel.Rules.Transition.Reporting.{criterion_ids}
use changekernel.Kernel.Rules.Transition.Settling.{fulfill, in_flight, provided_ids, resolved}
use changekernel.Kernel.Rules.Writes.Steps.{commit_ok, transition_ok}

pub record IsComplete (s : State) (f : Fulfillment) : Type 0 where
  pub g : Agreement
  pub p : Proposal
  pub now : s.current ≡ some f.agreement
  pub agreement_found : get s.agreements f.agreement ≡ some g
  pub proposal_found : get s.proposals g.proposal ≡ some p
  -- each blocker of the agreement has a resolution with evidence
  pub resolutions :
      (b : ContentKey)
      → Member b g.blockers
      → (r : Resolution) × Member r f.resolutions × (r.blocker ≡ b) × (is_empty r.evidence ≡ false)
  -- no action of the Change is in flight
  pub quiet :
      (id : ActionId) (x : Action) → get s.actions id ≡ some x → x.phase ≢ ActionPhase.dispatched
  -- there is a criterion, each has evidence, and no evidence is for anything else
  pub some_criterion : is_empty f.criteria ≡ false
  pub evidence : (e : CriterionEvidence) → Member e f.criteria → is_empty e.evidence ≡ false
  pub every_criterion :
      (c : Criterion)
      → Member c p.terms.criteria
      → (e : CriterionEvidence) × Member e f.criteria × (e.criterion ≡ c.id)
  pub only_criteria :
      (e : CriterionEvidence)
      → Member e f.criteria
      → (c : Criterion) × Member c p.terms.criteria × (c.id ≡ e.criterion)

ids_of_criteria :
    (cs : List Criterion) (c : Criterion) → Member c cs → Member c.id (criterion_ids cs)
ids_of_criteria [] c m = elim m [ ]
ids_of_criteria (x ∷ cs) c (here e) = here (ap (λ (y : Criterion). y.id) e)
ids_of_criteria (x ∷ cs) c (there m) = there (ids_of_criteria cs c m)

criteria_of_ids :
    (cs : List Criterion) (i : CriterionId)
    → Member i (criterion_ids cs)
    → (c : Criterion) × Member c cs × (c.id ≡ i)
criteria_of_ids [] i m = elim m [ ]
criteria_of_ids (x ∷ cs) i (here e) = (x, here refl, e)
criteria_of_ids (x ∷ cs) i (there m) = let (c, n, e) = criteria_of_ids cs i m in (c, there n, e)

ids_of_provided :
    (cs : List CriterionEvidence) (c : CriterionEvidence)
    → Member c cs
    → Member c.criterion (provided_ids cs)
ids_of_provided [] c m = elim m [ ]
ids_of_provided (x ∷ cs) c (here e) = here (ap (λ (y : CriterionEvidence). y.criterion) e)
ids_of_provided (x ∷ cs) c (there m) = there (ids_of_provided cs c m)

provided_of_ids :
    (cs : List CriterionEvidence) (i : CriterionId)
    → Member i (provided_ids cs)
    → (c : CriterionEvidence) × Member c cs × (c.criterion ≡ i)
provided_of_ids [] i m = elim m [ ]
provided_of_ids (x ∷ cs) i (here e) = (x, here refl, e)
provided_of_ids (x ∷ cs) i (there m) = let (c, n, e) = provided_of_ids cs i m in (c, there n, e)

-- Two lists with one set of elements have the same members.
same_members :
    (xs ys : List CriterionId) (i : CriterionId)
    → collect xs ≡ collect ys
    → Member i xs
    → Member i ys
same_members xs ys i e m = Member-contains ys i (
    sym (contains-collect ys i)
    ∙ ap (λ z. contains z i) (sym e)
    ∙ contains-collect xs i
    ∙ contains-Member xs i m)

resolved_by :
    (rs : List Resolution) (b : ContentKey)
    → resolved rs b ≡ true
    → (r : Resolution) × Member r rs × (r.blocker ≡ b) × (is_empty r.evidence ≡ false)
resolved_by rs b h =
    let (r, m, k) =
      any-Member (λ (r : Resolution). r.blocker == b && not (is_empty r.evidence)) rs h in
    (r, m, ground (arith, content_key_eq.same_iff r.blocker b), ground arith)

-- What no element passes fails at each.
none_of :
    {A : Type 0} (p : A → Bool) (a : A) (xs : List A) → any p xs ≡ false → Member a xs → p a ≡ false
none_of p a xs h m = elim (Bool-cases (p a)) [
  | inl e ↦ absurd (ground (arith, any_of_Member p a xs m e))
  | inr e ↦ e
]

nonempty_provided :
    (cs : List CriterionEvidence)
    → is_empty (collect (provided_ids cs)) ≡ false
    → is_empty cs ≡ false
unfolding collect
nonempty_provided [] h = absurd (cc)
nonempty_provided (c ∷ cs) h = refl

current-eq :
    (s : State) (a : AgreementId) (v : Validation)
    → current_grounds s a v ≡ ok tt
    → s.current ≡ some a
unfolding current_grounds current_agreement
current-eq s a v h = eq_of_not_bne s.current (some a) (ground arith)

fulfill-IsComplete :
    (s t : State) (f : Fulfillment) (v : Validation) (e : Effect)
    → fulfill s f v ≡ ok (e, t)
    → IsComplete s f
unfolding fulfill agreement proposal
fulfill-IsComplete s t f v e h = elim (Option-cases (get s.agreements f.agreement)) [
  | inl x ↦ absurd (ground arith)
  | inr (g, x) ↦ elim (Option-cases (get s.proposals g.proposal)) [
    | inl y ↦ absurd (ground arith)
    | inr (p, y) ↦
        let cs : List CriterionId = criterion_ids p.terms.criteria in
        let es : List CriterionId = provided_ids f.criteria in
        let ids : collect cs ≡ collect es =
          eq_of_not_bne (collect cs) (collect es) (ground arith) in
        let filled : is_empty (collect cs) ≡ false = ground arith in
        let given : any (λ (c : CriterionEvidence). is_empty c.evidence) f.criteria ≡ false =
          ground arith in
        let open_blockers : any (λ (b : ContentKey). not (resolved f.resolutions b)) g.blockers
            ≡ false =
          ground arith in
        let landed : in_flight (values s.actions) ≡ false = ground arith in
        record {
          g = g;
          p = p;
          now = current-eq s f.agreement v (ground arith);
          agreement_found = x;
          proposal_found = y;
          resolutions = λ b m. resolved_by f.resolutions b (
              ground (
                arith,
                none_of (λ (c : ContentKey). not (resolved f.resolutions c)) b g.blockers
                    open_blockers m,
              ));
          quiet = λ id a q w. ground (
            arith,
            none_of (λ (z : Action). z.phase == ActionPhase.dispatched) a (values s.actions) landed
                (Member-get id a s.actions q),
          );
          some_criterion =
              nonempty_provided f.criteria (subst (λ x. is_empty x ≡ false) ids filled);
          evidence =
              λ c m. none_of (λ (z : CriterionEvidence). is_empty z.evidence) c f.criteria given m;
          every_criterion = λ c m.
              provided_of_ids f.criteria c.id
                (same_members cs es c.id ids (ids_of_criteria p.terms.criteria c m));
          only_criteria = λ c m.
              criteria_of_ids p.terms.criteria c.criterion
                (same_members es cs c.criterion (sym ids) (ids_of_provided f.criteria c m));
        }
  ]
]

-- An accepted fulfilment is of the current agreement, resolves with evidence every blocker of it, has
-- evidence for every criterion of its proposal and for nothing else, and no action is in flight.
pub fulfilled-IsComplete :
    (s t : State) (f : Fulfillment) (v : Validation) (e : Effect)
    → transition s (Command.fulfill f) v ≡ (ok e, t)
    → IsComplete s f
unfolding perform
fulfilled-IsComplete s t f v e h =
    fulfill-IsComplete s t f v e (commit_ok s _ (transition_ok s (Command.fulfill f) v h).1)
