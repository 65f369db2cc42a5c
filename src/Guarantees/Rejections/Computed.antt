-- ===== src/Guarantees/Rejections/Computed.antt =====
-- Over every history, each recorded decision still has its dependencies.
use changekernel.Base.{◌≡◌, refl, none, ok, arith}
use changekernel.Base.BTreeMap.{get, insert, get-insert}
use changekernel.Kernel.Ids.{id_eq, id_ord}
use changekernel.Kernel.Keys.{Identity}
use changekernel.Kernel.Model.Terms.{Assessment, Proposal}
use changekernel.Kernel.State.{State, try_new, empty_state}
use changekernel.Kernel.Rules.Writes.Computed.{
  IsComputed, IsComputed-frame, KeepsDrafts, KeepsDrafts-same,
}
use changekernel.Kernel.Rules.Writes.Steps.{transition_ok, Reach, Reach-induction, retain}
use changekernel.Kernel.Rules.Writes.Kinds.{Wrote, perform_wrote}

same-IsComputed :
    (s t : State)
    → t.proposals ≡ s.proposals
    → t.assessments ≡ s.assessments
    → t.decisions ≡ s.decisions
    → IsComputed s
    → IsComputed t
same-IsComputed s t p a d h = IsComputed-frame s t (KeepsDrafts-same s t p a) d h

proposed-KeepsDrafts :
    (s : State) (p : Proposal)
    → get s.proposals p.id ≡ none
    → KeepsDrafts s (record s { proposals = insert p.id p s.proposals })
proposed-KeepsDrafts s p n = record {
  proposals = λ id q e. ground (arith, get-insert p.id id p s.proposals, id_eq.same_iff id p.id);
  assessments = λ _ _ e. e;
}

assessed-KeepsDrafts :
    (s : State) (a : Assessment)
    → get s.assessments a.id ≡ none
    → KeepsDrafts s (record s { assessments = insert a.id a s.assessments })
assessed-KeepsDrafts s a n = record {
  proposals = λ _ _ e. e;
  assessments =
      λ id b e. ground (arith, get-insert a.id id a s.assessments, id_eq.same_iff id a.id);
}

Wrote-IsComputed : (s t : State) → Wrote s t → IsComputed s → IsComputed t
Wrote-IsComputed s t (Wrote.decided _ _ k) h = k h
Wrote-IsComputed s t (Wrote.proposed p w n) h =
    rw w (IsComputed-frame s _ (proposed-KeepsDrafts s p n) refl h)
Wrote-IsComputed s t (Wrote.assessed a w n) h =
    rw w (IsComputed-frame s _ (assessed-KeepsDrafts s a n) refl h)
Wrote-IsComputed s t (Wrote.nothing w) h = rw w h
Wrote-IsComputed s t (Wrote.initiation w) h =
    same-IsComputed s t (ground arith) (ground arith) (ground arith) h
Wrote-IsComputed s t (Wrote.acting id new w step) h =
    same-IsComputed s t (ground arith) (ground arith) (ground arith) h
Wrote-IsComputed s t (Wrote.granting id new w k) h =
    same-IsComputed s t (ground arith) (ground arith) (ground arith) h
Wrote-IsComputed s t (Wrote.settling x w) h =
    same-IsComputed s t (ground arith) (ground arith) (ground arith) h

new-IsComputed : (i : Identity) (s : State) → try_new i ≡ ok s → IsComputed s
unfolding try_new get
new-IsComputed i s h =
    let fresh : s ≡ empty_state i = ground arith in
    rw fresh (record { each = λ id d e. absurd (cc) })

pub history-IsComputed : (i : Identity) (s t : State) → try_new i ≡ ok s → Reach s t → IsComputed t
history-IsComputed i s t h =
    Reach-induction IsComputed
      (λ x y e c v q k. Wrote-IsComputed x y (perform_wrote x y e c v (transition_ok x c v q).1) k)
      (λ r x k. same-IsComputed x (retain r x) refl refl refl k) s (new-IsComputed i s h)
