-- ===== src/Guarantees/Blockers.antt =====
-- The blockers of the current agreement over time.
use changekernel.Base.{◌≡◌, refl, Option, some, true, ok, arith, inl, inr, Option-cases}
use changekernel.Base.BTreeSet.{BTreeSet, contains, extend, contains-extend}
use changekernel.Base.BTreeMap.{get, get-insert_self}
use changekernel.Kernel.Ids.{AgreementId, DecisionId, ProposalId, id_eq, id_ord}
use changekernel.Kernel.Keys.{ContentKey, content_key_ord}
use changekernel.Kernel.State.{State, Validation, Agreement}
use changekernel.Kernel.Rules.Lookup.{agreement, decision}
use changekernel.Kernel.Rules.Activation.{gather_blockers, inherited, agreed}
use changekernel.Kernel.Rules.Writes.Activated.{IsRefreshed, IsConcluded, activate_cases}
use changekernel.Kernel.Rules.Writes.Steps.{transition_ok, retain, Reach, Reach-induction}
use changekernel.Kernel.Rules.Writes.Kinds.{Decides, Wrote, perform_wrote}

-- The current agreement is recorded, and the content is one of its blockers.
pub record IsBlocked (s : State) (b : ContentKey) : Type 0 where
  pub a : AgreementId
  pub g : Agreement
  pub is_current : s.current ≡ some a
  pub found : get s.agreements a ≡ some g
  pub held : contains g.blockers b ≡ true

IsBlocked-same :
    (s t : State) (b : ContentKey)
    → t.agreements ≡ s.agreements
    → t.current ≡ s.current
    → IsBlocked s b
    → IsBlocked t b
IsBlocked-same s t b e f h = record {
  a = h.a;
  g = h.g;
  is_current = ground arith;
  found = ground arith;
  held = h.held;
}

-- What an agreement holds, the one that follows it takes over.
gather_blockers_held :
    (s : State) (u : DecisionId) (blockers : BTreeSet ContentKey) (b : ContentKey)
    → gather_blockers s u ≡ ok blockers
    → IsBlocked s b
    → contains blockers b ≡ true
unfolding gather_blockers inherited agreement decision
gather_blockers_held s u blockers b q h = elim (Option-cases (get s.decisions u)) [
  | inl e ↦ absurd (ground arith)
  | inr (d, e) ↦
      let w : blockers ≡ extend d.blockers h.g.blockers = ground (arith, h.is_current, h.found) in
      ground (arith, w, h.held, contains-extend d.blockers h.g.blockers b)
]

refreshed-IsBlocked :
    (s t : State) (id : ProposalId) (o : Option AgreementId) (b : ContentKey)
    → IsRefreshed s id o t
    → IsBlocked s b
    → IsBlocked t b
refreshed-IsBlocked s t id o b r h =
    let same : r.p.agreement ≡ h.a = cc (r.is_current, h.is_current) in
    record {
      a = r.p.agreement;
      g = record r.a { blockers = extend r.a.blockers r.u.blockers };
      is_current = ground arith;
      found = ground (
        arith,
        r.written,
        get-insert_self r.p.agreement (record r.a { blockers = extend r.a.blockers r.u.blockers })
            s.agreements,
      );
      held = ground (
        arith,
        same,
        r.agreement_found,
        h.found,
        h.held,
        contains-extend r.a.blockers r.u.blockers b,
      );
    }

concluded-IsBlocked :
    (s t : State) (id : ProposalId) (v : Validation) (o : Option AgreementId) (b : ContentKey)
    → IsConcluded s id v o t
    → IsBlocked s b
    → IsBlocked t b
concluded-IsBlocked s t id v o b r h = record {
  a = r.p.agreement;
  g = agreed r.p r.adoption r.undertaking r.blockers;
  is_current = ground (arith, r.written);
  found = ground (
    arith,
    r.written,
    get-insert_self r.p.agreement (agreed r.p r.adoption r.undertaking r.blockers) s.agreements,
  );
  held = gather_blockers_held s r.undertaking r.blockers b r.gathered h;
}

Decides-IsBlocked : (s t : State) (b : ContentKey) → Decides s t → IsBlocked s b → IsBlocked t b
Decides-IsBlocked s t b (Decides.quiet e f) h = IsBlocked-same s t b e f h
Decides-IsBlocked s t b (Decides.activating s' id v o e f q) h =
    let k : IsBlocked s' b = IsBlocked-same s s' b e f h in
    elim (activate_cases s' id v o t q) [
      | inl (w, _) ↦ rw w k
      | inr (inl r) ↦ refreshed-IsBlocked s' t id o b r k
      | inr (inr r) ↦ concluded-IsBlocked s' t id v o b r k
    ]

Wrote-IsBlocked : (s t : State) (b : ContentKey) → Wrote s t → IsBlocked s b → IsBlocked t b
Wrote-IsBlocked s t b (Wrote.decided _ d _) h = Decides-IsBlocked s t b d h
Wrote-IsBlocked s t b (Wrote.acting id new w step) h =
    IsBlocked-same s t b (ground arith) (ground arith) h
Wrote-IsBlocked s t b (Wrote.nothing w) h = rw w h
Wrote-IsBlocked s t b (Wrote.initiation w) h = IsBlocked-same s t b (ground arith) (ground arith) h
Wrote-IsBlocked s t b (Wrote.proposed p w n) h =
    IsBlocked-same s t b (ground arith) (ground arith) h
Wrote-IsBlocked s t b (Wrote.assessed a w n) h =
    IsBlocked-same s t b (ground arith) (ground arith) h
Wrote-IsBlocked s t b (Wrote.granting id new w k) h =
    IsBlocked-same s t b (ground arith) (ground arith) h
Wrote-IsBlocked s t b (Wrote.settling x w) h = IsBlocked-same s t b (ground arith) (ground arith) h

-- A blocker of the current agreement is never lost: after every history of accepted operations there
-- is a current agreement, whichever it is, and the content is among its blockers.
pub Reach-IsBlocked : {s t : State} (b : ContentKey) → IsBlocked s b → Reach s t → IsBlocked t b
Reach-IsBlocked {s} {t} b =
    Reach-induction (λ x. IsBlocked x b)
      (λ x y e c v q h. Wrote-IsBlocked x y b (perform_wrote x y e c v (transition_ok x c v q).1) h)
      (λ r x h. IsBlocked-same x (retain r x) b refl refl h) s
