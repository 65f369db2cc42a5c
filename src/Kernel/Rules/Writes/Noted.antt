-- ===== src/Kernel/Rules/Writes/Noted.antt =====
-- What the loop of `State::activate` notes, and where it comes from.
use changekernel.Base.{
  ◌≡◌, Option, none, some, Bool, true, false, ok, arith, List, [], ◌∷◌, ◌⊎◌, inl, inr, Result-cases,
  Bool-cases,
}
use changekernel.Base.Order.{eq_of_beq, option_eq}
use changekernel.Base.Lists.{Member, here, there}
use changekernel.Kernel.Ids.{DecisionId, ProposalId, id_eq, id_ord}
use changekernel.Kernel.Keys.{content_key_ord}
use changekernel.Kernel.Model.Terms.{DecisionKind, Dependency}
use changekernel.Kernel.State.{State, Validation, EffectiveDecision}
use changekernel.Kernel.Rules.Dependencies.{decision_dependencies, dependencies_valid}
use changekernel.Kernel.Rules.Activation.{Candidates, candidates, consider, note}

-- A decision that `activate` may match: not retracted, about the proposal, and its dependencies hold.
pub record IsEligible (s : State) (id : ProposalId) (v : Validation) (d : EffectiveDecision)
    : Type 0 where
  pub live : d.retracted ≡ false
  pub about : d.decision.proposal ≡ id
  pub deps : List Dependency
  pub computed : decision_dependencies s d.decision ≡ ok deps
  pub holds : dependencies_valid deps v.grounds ≡ ok tt

module _ (s : State) (id : ProposalId) (v : Validation) where
  -- One round keeps the candidates, or notes an eligible decision.
  pub consider_cases :
      (key : DecisionId) (d : EffectiveDecision) (c c' : Candidates)
      → consider s id v key d c ≡ ok c'
      → (c' ≡ c) ⊎ (IsEligible s id v d × (c' ≡ note d.decision.kind key c))
  unfolding consider
  consider_cases key d c c' h = elim (Result-cases (decision_dependencies s d.decision)) [
    | inl (deps, p) ↦ elim (Result-cases (dependencies_valid deps v.grounds)) [
      | inl (u, q) ↦ elim (Bool-cases d.retracted) [
        | inl r ↦ inl (ground arith)
        | inr r ↦ elim (Bool-cases (id_eq.same d.decision.proposal id)) [
          | inl e ↦ inr (
            record {
              live = r;
              about = eq_of_beq d.decision.proposal id e;
              deps = deps;
              computed = p;
              holds = ground arith;
            },
            ground arith,
          )
          | inr ne ↦ inl (ground arith)
        ]
      ]
      | inr (x, q) ↦ inl (ground arith)
    ]
    | inr (x, p) ↦ inl (ground arith)
  ]

  -- Where a noted adoption comes from.
  abbrev pub FromEntries :
      (DecisionKind → Bool) → List (DecisionId × EffectiveDecision) → DecisionId → Type 0
  FromEntries is_kind entries key =
      (d : EffectiveDecision) × Member {A = DecisionId × EffectiveDecision} (key, d) entries
      × IsEligible s id v d
      × (is_kind d.decision.kind ≡ true)

abbrev pub is_adopt : DecisionKind → Bool
is_adopt DecisionKind.adopt = true
is_adopt (DecisionKind.undertake _) = false

abbrev pub is_undertake : DecisionKind → Bool
is_undertake DecisionKind.adopt = false
is_undertake (DecisionKind.undertake _) = true

note_adopt :
    (k : DecisionKind) (key : DecisionId) (c : Candidates) (a : DecisionId)
    → (note k key c).adopt ≡ some a
    → (c.adopt ≡ some a) ⊎ ((is_adopt k ≡ true) × (key ≡ a))
note_adopt DecisionKind.adopt key c a h = inr (ground arith)
note_adopt (DecisionKind.undertake _) key c a h = inl h

note_undertake :
    (k : DecisionKind) (key : DecisionId) (c : Candidates) (a : DecisionId)
    → (note k key c).undertake ≡ some a
    → (c.undertake ≡ some a) ⊎ ((is_undertake k ≡ true) × (key ≡ a))
note_undertake DecisionKind.adopt key c a h = inl h
note_undertake (DecisionKind.undertake _) key c a h = inr (ground arith)

-- What the loop has noted was noted before, or comes from an eligible decision of its kind.
module _ (s : State) (id : ProposalId) (v : Validation) (pick : Candidates → Option DecisionId)
    (is_kind : DecisionKind → Bool)
    (note_pick : (k : DecisionKind) (key : DecisionId) (c : Candidates) (a : DecisionId)
      → pick (note k key c) ≡ some a
      → (pick c ≡ some a) ⊎ ((is_kind k ≡ true) × (key ≡ a))) where
  candidates_pick :
      (entries : List (DecisionId × EffectiveDecision)) (c c' : Candidates) {a : DecisionId}
      → candidates s id v entries c ≡ ok c'
      → pick c' ≡ some a
      → (pick c ≡ some a) ⊎ FromEntries s id v is_kind entries a
  unfolding candidates
  candidates_pick [] c c' h e = inl (cc)
  candidates_pick ((key, d) ∷ rest) c c' {a} h e = elim (Result-cases (consider s id v key d c)) [
    | inl (m, p) ↦ elim (candidates_pick rest m c' (ground arith) e) [
      | inr (f, i, j, k) ↦ inr (f, there i, j, k)
      | inl q ↦ elim (consider_cases s id v key d c m p) [
        | inl r ↦ inl (cc)
        | inr (ready, r) ↦ elim (note_pick d.decision.kind key c a (cc)) [
          | inl x ↦ inl x
          | inr (k, x) ↦ inr (d, here (ground arith), ready, k)
        ]
      ]
    ]
    | inr (x, p) ↦ absurd (ground arith)
  ]

abbrev pub no_candidates : Candidates
no_candidates = record { adopt = none; undertake = none }

only_new : {A : Type 0} {x : DecisionId} → (◌≡◌ {A = Option DecisionId} none (some x)) ⊎ A → A
only_new (inl q) = absurd (cc)
only_new (inr a) = a

-- What the whole loop has noted comes from eligible entries.
module _ (s : State) (id : ProposalId) (v : Validation) (c : Candidates) {a : DecisionId} where
  pub adopt_found :
      candidates s id v s.decisions no_candidates ≡ ok c
      → c.adopt ≡ some a
      → FromEntries s id v is_adopt s.decisions a
  adopt_found h e =
      only_new
        (candidates_pick s id v (λ x. x.adopt) is_adopt note_adopt s.decisions no_candidates c h e)

  pub undertake_found :
      candidates s id v s.decisions no_candidates ≡ ok c
      → c.undertake ≡ some a
      → FromEntries s id v is_undertake s.decisions a
  undertake_found h e = only_new (
      candidates_pick s id v (λ x. x.undertake) is_undertake note_undertake s.decisions
        no_candidates c h e)
