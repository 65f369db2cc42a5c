-- ===== src/Guarantees/Rejections/Activation.antt =====
-- `State::activate` does not fail where the consent and the dependencies of the decisions hold.
use changekernel.Base.{
  ◌≡◌, refl, Option, none, some, Bool, true, false, ok, arith, List, [], ◌∷◌, ◌⊎◌, inl, inr,
  Result-cases, Option-cases, Bool-cases,
}
use changekernel.Base.Order.{eq_of_beq, option_eq}
use changekernel.Base.Lists.{Member, here, there}
use changekernel.Base.BTreeSet.{BTreeSet, extend}
use changekernel.Base.BTreeMap.{get, insert, get-insert}
use changekernel.Base.BTreeMap.Sorted.{get_of_Member}
use changekernel.Kernel.Ids.{AgreementId, DecisionId, ProposalId, id_eq, id_ord}
use changekernel.Kernel.Keys.{ContentKey, content_key_ord}
use changekernel.Kernel.Model.Terms.{Proposal, DecisionKind}
use changekernel.Kernel.State.{State, Validation, EffectiveDecision}
use changekernel.Kernel.Rules.Lookup.{proposal, agreement, decision, is_settled}
use changekernel.Kernel.Rules.Activation.{
  Candidates, activate, refresh, activate_new, conclude, mark_matched, search_candidates,
  candidates, consider, gather_blockers, inherited, commit,
}
use changekernel.Kernel.Rules.Writes.Noted.{
  is_adopt, is_undertake, no_candidates, adopt_found, undertake_found, FromEntries,
}
use changekernel.Kernel.Rules.Writes.Computed.{IsComputable, IsComputed}
use changekernel.Guarantees.Consent.{IsConsented}

-- The call returns a result, not an error.
abbrev pub Activates : State → ProposalId → Validation → Type 0
Activates s id v = (o : Option AgreementId) × (t : State) × (activate s id v ≡ (ok o, t))

module _ (s : State) (id : ProposalId) (v : Validation) where
  consider_returns :
      (key : DecisionId) (d : EffectiveDecision) (c : Candidates)
      → IsComputable s d.decision
      → (c' : Candidates) × (consider s id v key d c ≡ ok c')
  unfolding consider
  consider_returns key d c (deps, h) = elim (Result-cases (consider s id v key d c)) [
    | inl (c', e) ↦ (c', e)
    | inr (x, e) ↦ absurd (ground arith)
  ]

  candidates_returns :
      (entries : List (DecisionId × EffectiveDecision)) (c : Candidates)
      → ((key : DecisionId) (d : EffectiveDecision)
          → Member {A = DecisionId × EffectiveDecision} (key, d) entries
          → IsComputable s d.decision)
      → (c' : Candidates) × (candidates s id v entries c ≡ ok c')
  unfolding candidates
  candidates_returns [] c h = (c, refl)
  candidates_returns ((key, d) ∷ rest) c h =
      let (m, e) = consider_returns key d c (h key d (here refl)) in
      let (c', f) = candidates_returns rest m (λ k x i. h k x (there i)) in (c', ground arith)

module _ (s : State) (consented : IsConsented s) where
  gather_blockers_returns :
      (u : DecisionId) (d : EffectiveDecision)
      → get s.decisions u ≡ some d
      → (b : BTreeSet ContentKey) × (gather_blockers s u ≡ ok b)
  unfolding gather_blockers inherited agreement decision
  gather_blockers_returns u d e = elim (Option-cases s.current) [
    | inl n ↦ (d.blockers, ground arith)
    | inr (a, n) ↦ let (g, f) = consented.active a n in (extend d.blockers g.blockers, ground arith)
  ]

  refresh_returns :
      (p : Proposal)
      → s.current ≡ some p.agreement
      → (o : Option AgreementId) × (t : State) × (commit s (refresh s p) ≡ (ok o, t))
  unfolding refresh agreement decision
  refresh_returns p n =
      let (g, f) = consented.active p.agreement n in
      let u = (consented.backed p.agreement g f).undertaking in
      elim (Result-cases (refresh s p)) [
        | inl ((o, t), e) ↦ (o, t, ground arith)
        | inr (x, e) ↦ absurd (ground (arith, f, u.found))
      ]

conclude_returns :
    (s : State) (p : Proposal) (a u : DecisionId) (b : BTreeSet ContentKey)
    (da du : EffectiveDecision)
    → get s.decisions a ≡ some da
    → get s.decisions u ≡ some du
    → (o : Option AgreementId) × (t : State) × (conclude s p a u b ≡ (ok o, t))
unfolding conclude mark_matched
conclude_returns s p a u b da du e f =
    elim (Option-cases (get (insert a (record da { matched = true }) s.decisions) u)) [
      | inl g ↦ absurd (ground (arith, get-insert a u (record da { matched = true }) s.decisions))
      | inr (d, g) ↦ elim (Result-cases (conclude s p a u b).0) [
        | inl (o, k) ↦ (o, (conclude s p a u b).1, ground arith)
        | inr (x, k) ↦ absurd (ground arith)
      ]
    ]

-- Where the proposal is found and is current, or expects the current agreement.
module _ (s : State) (consented : IsConsented s) (computed : IsComputed s) (id : ProposalId)
    (v : Validation) where
  noted :
      (is_kind : DecisionKind → Bool) (key : DecisionId)
      → FromEntries s id v is_kind s.decisions key
      → (d : EffectiveDecision) × (get s.decisions key ≡ some d)
  noted is_kind key (d, m, _, _) = (d, get_of_Member key d s.decisions consented.decisions_sorted m)

  activate_new_returns :
      (p : Proposal) (c : Candidates)
      → candidates s id v s.decisions no_candidates ≡ ok c
      → (o : Option AgreementId) × (t : State) × (activate_new s p c ≡ (ok o, t))
  unfolding activate_new
  activate_new_returns p c h = elim (Option-cases c.adopt) [
    | inl e ↦ (none, s, ground arith)
    | inr (a, e) ↦ elim (Option-cases c.undertake) [
      | inl f ↦ (none, s, ground arith)
      | inr (u, f) ↦
          let (da, fa) = noted is_adopt a (adopt_found s id v c h e) in
          let (du, fu) = noted is_undertake u (undertake_found s id v c h f) in
          let (b, g) = gather_blockers_returns s consented u du fu in
          let (o, t, k) = conclude_returns s p a u b da du fa fu in (o, t, ground arith)
    ]
  ]

  pub activate_returns :
      (p : Proposal)
      → proposal s id ≡ ok p
      → (s.current ≡ some p.agreement) ⊎ (p.expected_agreement ≡ s.current)
      → is_settled s ≡ false
      → Activates s id v
  unfolding activate search_candidates
  activate_returns p found expected open_change =
      elim (Bool-cases (option_eq.same s.current (some p.agreement))) [
        | inl e ↦
            let (o, t, k) =
              refresh_returns s consented p (eq_of_beq s.current (some p.agreement) e) in
            (o, t, ground arith)
        | inr e ↦
            let (c, loop) = candidates_returns s id v s.decisions no_candidates (λ key d m.
              computed.each key d (get_of_Member key d s.decisions consented.decisions_sorted m)) in
            let (o, t, k) = activate_new_returns p c loop in
            let fresh : option_eq.same p.expected_agreement s.current ≡ true =
              expects p expected e in
            (o, t, ground arith)
      ]
    where
      expects :
          (p : Proposal)
          → (s.current ≡ some p.agreement) ⊎ (p.expected_agreement ≡ s.current)
          → option_eq.same s.current (some p.agreement) ≡ false
          → option_eq.same p.expected_agreement s.current ≡ true
      expects p (inl x) e = absurd (ground (arith, option_eq.same_iff s.current (some p.agreement)))
      expects p (inr x) e = ground (arith, option_eq.same_iff p.expected_agreement s.current)
