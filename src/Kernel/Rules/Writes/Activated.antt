-- ===== src/Kernel/Rules/Writes/Activated.antt =====
-- The outcomes of an accepted `State::activate`.
use changekernel.Base.{
  ◌≡◌, Option, none, some, true, false, ok, arith, ◌⊎◌, inl, inr, Result-cases, Option-cases,
  Bool-cases,
}
use changekernel.Base.Order.{eq_of_beq, eq_of_not_bne, option_eq}
use changekernel.Base.BTreeSet.{BTreeSet, extend}
use changekernel.Base.BTreeMap.{get, insert}
use changekernel.Kernel.Ids.{AgreementId, DecisionId, ProposalId, id_eq, id_ord}
use changekernel.Kernel.Keys.{ContentKey, content_key_ord}
use changekernel.Kernel.Model.Terms.{Proposal}
use changekernel.Kernel.State.{State, Validation, EffectiveDecision, Agreement}
use changekernel.Kernel.Rules.Lookup.{proposal, agreement, decision, is_settled}
use changekernel.Kernel.Rules.Activation.{
  Candidates, activate, refresh, activate_new, conclude, mark_matched, search_candidates,
  candidates, gather_blockers, agreed, commit,
}
use changekernel.Kernel.Rules.Writes.Noted.{
  FromEntries, is_adopt, is_undertake, no_candidates, adopt_found, undertake_found,
}

abbrev pub refreshed : State → Proposal → Agreement → EffectiveDecision → State
refreshed s p a u = record s {
  agreements =
      insert p.agreement (record a { blockers = extend a.blockers u.blockers }) s.agreements;
}

-- The proposal is the current agreement, and takes up the blockers of its undertaking.
pub record IsRefreshed (s : State) (id : ProposalId) (o : Option AgreementId) (t : State)
    : Type 0 where
  pub p : Proposal
  pub a : Agreement
  pub u : EffectiveDecision
  pub found : proposal s id ≡ ok p
  pub is_current : s.current ≡ some p.agreement
  pub agreement_found : get s.agreements p.agreement ≡ some a
  pub written : t ≡ refreshed s p a u
  pub returned : o ≡ none

abbrev pub concluded :
    State
    → Proposal
    → DecisionId
    → DecisionId
    → EffectiveDecision
    → EffectiveDecision
    → BTreeSet ContentKey
    → State
concluded s p adoption undertaking d u blockers = record s {
  decisions =
      insert undertaking (record u { matched = true })
        (insert adoption (record d { matched = true }) s.decisions);
  agreements = insert p.agreement (agreed p adoption undertaking blockers) s.agreements;
  current = some p.agreement;
}

-- Both decisions were found, and the proposal becomes the current agreement.
pub record IsConcluded (s : State) (id : ProposalId) (v : Validation) (o : Option AgreementId)
    (t : State) : Type 0 where
  pub p : Proposal
  pub adoption : DecisionId
  pub undertaking : DecisionId
  pub d : EffectiveDecision
  pub u : EffectiveDecision
  pub blockers : BTreeSet ContentKey
  pub found : proposal s id ≡ ok p
  pub expected : p.expected_agreement ≡ s.current
  pub unsettled : is_settled s ≡ false
  pub adopted : FromEntries s id v is_adopt s.decisions adoption
  pub undertaken : FromEntries s id v is_undertake s.decisions undertaking
  pub first : get s.decisions adoption ≡ some d
  pub second : get (insert adoption (record d { matched = true }) s.decisions) undertaking ≡ some u
  pub gathered : gather_blockers s undertaking ≡ ok blockers
  pub written : t ≡ concluded s p adoption undertaking d u blockers
  pub returned : o ≡ some p.agreement

module _ (s : State) (id : ProposalId) (v : Validation) (o : Option AgreementId) (t : State) where
  refresh_cases :
      (p : Proposal)
      → proposal s id ≡ ok p
      → s.current ≡ some p.agreement
      → commit s (refresh s p) ≡ (ok o, t)
      → IsRefreshed s id o t
  unfolding refresh agreement decision
  refresh_cases p f c h = elim (Option-cases (get s.agreements p.agreement)) [
    | inl e ↦ absurd (ground arith)
    | inr (a, e) ↦ elim (Option-cases (get s.decisions a.undertaking)) [
      | inl g ↦ absurd (ground arith)
      | inr (u, g) ↦ record {
        p = p;
        a = a;
        u = u;
        found = f;
        is_current = c;
        agreement_found = e;
        written = ground arith;
        returned = ground arith;
      }
    ]
  ]

  conclude_cases :
      (p : Proposal) (adoption undertaking : DecisionId) (b : BTreeSet ContentKey)
      → conclude s p adoption undertaking b ≡ (ok o, t)
      → (d u : EffectiveDecision) × (get s.decisions adoption ≡ some d)
        × (get (insert adoption (record d { matched = true }) s.decisions) undertaking ≡ some u)
        × (t ≡ concluded s p adoption undertaking d u b)
        × (o ≡ some p.agreement)
  unfolding conclude mark_matched
  conclude_cases p adoption undertaking b h = elim (Option-cases (get s.decisions adoption)) [
    | inl e ↦ absurd (ground arith)
    | inr (d, e) ↦
        elim (Option-cases
          (get (insert adoption (record d { matched = true }) s.decisions) undertaking)) [
            | inl f ↦ absurd (ground arith)
            | inr (u, f) ↦ (d, u, e, f, ground arith, ground arith)
          ]
  ]

  new_cases :
      (p : Proposal) (c : Candidates)
      → proposal s id ≡ ok p
      → search_candidates s id p v ≡ ok c
      → activate_new s p c ≡ (ok o, t)
      → ((t ≡ s) × (o ≡ none)) ⊎ IsConcluded s id v o t
  unfolding activate_new search_candidates
  new_cases p c f q h = elim (Option-cases c.adopt) [
    | inl e ↦ inl (ground arith, ground arith)
    | inr (adoption, e) ↦ elim (Option-cases c.undertake) [
      | inl g ↦ inl (ground arith, ground arith)
      | inr (undertaking, g) ↦ elim (Result-cases (gather_blockers s undertaking)) [
        | inr (x, b) ↦ absurd (ground arith)
        | inl (blockers, b) ↦
            let loop : candidates s id v s.decisions no_candidates ≡ ok c = ground arith in
            let (d, u, k, l, w, r) =
              conclude_cases p adoption undertaking blockers (ground arith) in
            inr (record {
              p = p;
              adoption = adoption;
              undertaking = undertaking;
              d = d;
              u = u;
              blockers = blockers;
              found = f;
              expected = eq_of_not_bne p.expected_agreement s.current (ground arith);
              unsettled = ground arith;
              adopted = adopt_found s id v c loop e;
              undertaken = undertake_found s id v c loop g;
              first = k;
              second = l;
              gathered = b;
              written = w;
              returned = r;
            })
      ]
    ]
  ]

  pub activate_cases :
      activate s id v ≡ (ok o, t)
      → ((t ≡ s) × (o ≡ none)) ⊎ (IsRefreshed s id o t ⊎ IsConcluded s id v o t)
  unfolding activate
  activate_cases h = elim (Result-cases (proposal s id)) [
    | inr (x, f) ↦ absurd (ground arith)
    | inl (p, f) ↦ elim (Bool-cases (option_eq.same s.current (some p.agreement))) [
      | inl c ↦
          inr (inl (refresh_cases p f (eq_of_beq s.current (some p.agreement) c) (ground arith)))
      | inr c ↦ elim (Result-cases (search_candidates s id p v)) [
        | inr (x, q) ↦ absurd (ground arith)
        | inl (k, q) ↦ elim (new_cases p k f q (ground arith)) [
          | inl y ↦ inl y
          | inr y ↦ inr (inr y)
        ]
      ]
    ]
  ]
