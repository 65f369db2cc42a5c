-- ===== src/Guarantees/Grants.antt =====
-- Delegated access over time: what becomes of a grant in the states that a history leads to.
use changekernel.Base.{ℕ, ◌+◌, ◌<◌, ◌≡◌, refl, some, true, ok, err, arith, inl, inr, Bool-cases, ap}
use changekernel.Base.Order.{eq_of_beq}
use changekernel.Base.BTreeMap.{get, insert, get-insert, get-insert_self}
use changekernel.Kernel.Ids.{GrantId, Error, id_eq, id_ord}
use changekernel.Kernel.Keys.{GrantUse}
use changekernel.Kernel.Model.Grants.{Grant}
use changekernel.Kernel.Model.Commands.{Command, Effect}
use changekernel.Kernel.State.{State, Validation, Authority}
use changekernel.Kernel.Rules.Lookup.{grant}
use changekernel.Kernel.Rules.Transition.{perform, transition}
use changekernel.Kernel.Rules.Writes.{revoke_grant_writes}
use changekernel.Kernel.Rules.Writes.Steps.{
  commit_ok, transition_ok, Retention, retain, Reach, Reach-induction,
}
use changekernel.Kernel.Rules.Writes.Kinds.{IsLater, Wrote, perform_wrote}

-- Every grant of `s` is still there in `t`, the same or later.
pub record KeepsGrants (s t : State) : Type 0 where
  pub later :
      (id : GrantId) (g : Grant)
      → get s.grants id ≡ some g
      → (g' : Grant) × (get t.grants id ≡ some g') × IsLater g g'

KeepsGrants-same : (s t : State) → t.grants ≡ s.grants → KeepsGrants s t
KeepsGrants-same s t e = record { later = λ id g h. (g, rw e h, inl refl) }

KeepsGrants-insert :
    (s t : State) (id : GrantId) (new : Grant)
    → t.grants ≡ insert id new s.grants
    → ((g : Grant) → get s.grants id ≡ some g → IsLater g new)
    → KeepsGrants s t
KeepsGrants-insert s t id new e replaces = record {
  later = λ j g h. elim (Bool-cases (id_eq.same j id)) [
    | inl same ↦ (
      new,
      rw e (ground (arith, get-insert id j new s.grants)),
      replaces g (rw (eq_of_beq j id same) at h),
    )
    | inr other ↦ (g, rw e (ground (arith, get-insert id j new s.grants)), inl refl)
  ];
}

Wrote-KeepsGrants : (s t : State) → Wrote s t → KeepsGrants s t
Wrote-KeepsGrants s t (Wrote.nothing w) = KeepsGrants-same s t (ground arith)
Wrote-KeepsGrants s t (Wrote.decided k _ _) = KeepsGrants-same s t k.grants
Wrote-KeepsGrants s t (Wrote.granting id new w replaces) =
    KeepsGrants-insert s t id new (ground arith) replaces
Wrote-KeepsGrants s t (Wrote.initiation w) = KeepsGrants-same s t (ground arith)
Wrote-KeepsGrants s t (Wrote.proposed p w n) = KeepsGrants-same s t (ground arith)
Wrote-KeepsGrants s t (Wrote.assessed a w n) = KeepsGrants-same s t (ground arith)
Wrote-KeepsGrants s t (Wrote.acting id new w k) = KeepsGrants-same s t (ground arith)
Wrote-KeepsGrants s t (Wrote.settling x w) = KeepsGrants-same s t (ground arith)

IsLater-trans : (f g h : Grant) → IsLater f g → IsLater g h → IsLater f h
IsLater-trans f g h a b = ground arith

KeepsGrants-trans : {s t u : State} → KeepsGrants s t → KeepsGrants t u → KeepsGrants s u
KeepsGrants-trans a b = record {
  later = λ id g h.
      let (g', h', l) = a.later id g h in
      let (g'', h'', l') = b.later id g' h' in (g'', h'', IsLater-trans g g' g'' l l');
}

Reach-KeepsGrants : {s t : State} → Reach s t → KeepsGrants s t
Reach-KeepsGrants {s} =
    Reach-induction (KeepsGrants s)
      (λ t u e c v h k.
        KeepsGrants-trans k
          (Wrote-KeepsGrants t u (perform_wrote t u e c v (transition_ok t c v h).1)))
      (λ r t k. record { later = k.later }) s (KeepsGrants-same s s refl)

-- A use that names a generation below the grant's own is denied, to every caller.
below_denied :
    (s : State) (used : GrantUse) (g : Grant) (a : Authority)
    → get s.grants used.id ≡ some g
    → used.generation < g.generation
    → grant s used a ≡ err Error.denied
unfolding grant
below_denied s used g a h l = ground arith

revoked_denied :
    (s : State) (used : GrantUse) (g : Grant) (a : Authority)
    → get s.grants used.id ≡ some g
    → g.revoked ≡ true
    → grant s used a ≡ err Error.denied
unfolding grant
revoked_denied s used g a h l = ground arith

-- A use of a grant at a generation below the one that the grant has is denied to every caller, and
-- stays denied after every history of accepted operations.
pub superseded_use-denied :
    (s t : State) (used : GrantUse) (g : Grant) (a : Authority)
    → get s.grants used.id ≡ some g
    → used.generation < g.generation
    → Reach s t
    → grant t used a ≡ err Error.denied
superseded_use-denied s t used g a h l path =
    let (g', h', k) = (Reach-KeepsGrants path).later used.id g h in
    below_denied t used g' a h' (ground arith)

-- After an accepted revocation every use of that grant, at any generation and by any caller, is
-- denied in every state that a further history of accepted operations leads to.
pub revoked_use-denied :
    (s t u : State) (id : GrantId) (expected : ℕ) (v : Validation) (e : Effect) (r : Retention)
    (generation : ℕ) (a : Authority)
    → transition s (Command.revoke_grant id expected) v ≡ (ok e, t)
    → Reach (retain r t) u
    → grant u (record { id = id; generation = generation }) a ≡ err Error.denied
unfolding perform
revoked_use-denied s t u id expected v e r generation a h path =
    let done = (transition_ok s (Command.revoke_grant id expected) v h).1 in
    let (g, p, q, w) = revoke_grant_writes s v id expected (commit_ok s _ done) in
    let new : Grant = record g { generation = g.generation + 1; revoked = true } in
    let (g', h', k) =
      (Reach-KeepsGrants path).later id new
        (rw (ap (λ (x : State). x.grants) w) (get-insert_self id new s.grants)) in
    revoked_denied u (record { id = id; generation = generation }) g' a h' (ground arith)
