-- ===== src/Application/Runs/Restored.antt =====
-- `Change::reconstruct` of src/application/change.rs over what a run has added.
use changekernel.Base.{
  ℕ, ◌+◌, ◌≤◌, ◌≡◌, refl, sym, ap, ◌∙◌, subst, List, [], ◌∷◌, ◌++◌, none, some, true, false, ok,
  err, arith, leb,
}
use changekernel.Base.Order.{eq_of_beq, bne_refl, option_eq, nat_eq}
use changekernel.Base.Lists.{length}
use changekernel.Base.BTreeMap.{get, insert, get-insert_self, length-insert}
use changekernel.Kernel.Ids.{id_ord, id_eq}
use changekernel.Kernel.Keys.{ChangeKey, Identity, change_key}
use changekernel.Kernel.State
use changekernel.Kernel.State.{State, empty_state}
use changekernel.Kernel.Model.Commands.{Accepted, Operation}
use changekernel.Kernel.Rules.Lookup.{u64_max}
use changekernel.Application.Requests.{
  OperationRequest, OperationRequestProfile, current_profile, is_current, profile_eq,
}
use changekernel.Application.Records.{StoredOperation, HistoryHead}
use changekernel.Application.Ports.{Ports}
use changekernel.Application.Change.{Change}
use changekernel.Application.Change.Execute.{Called, execute}
use changekernel.Application.Change.Planned.{IsPlanned}
use changekernel.Application.Change.Reconstruct.{
  Restored, and_then, replay, replay_record, reconstruct, check_head, try_new,
}
use changekernel.Application.Runs.{added, run}
use changekernel.Application.Runs.Calls.{Effects, execute-Effects, published}
use changekernel.Application.Runs.Recovery.{replay_record-planned}
use changekernel.Application.Runs.Kernel.{planned-IsStep, step_identity}

abbrev pub unfenced : Change → Change
unfenced c = record c { fenced = false }

Restored-cases :
    (x : Restored) (next : Change → Restored) {d : Change}
    → and_then x next ≡ some (ok d)
    → (c : Change) × (x ≡ some (ok c)) × (next c ≡ some (ok d))
Restored-cases none next h = absurd (cc)
Restored-cases (some (err e)) next h = absurd (cc)
Restored-cases (some (ok c)) next h = (c, refl, h)

replay-append :
    (p : OperationRequestProfile) (k : ChangeKey) (total : ℕ) (c d : Change)
    (rs qs : List StoredOperation)
    → replay p k total c rs ≡ some (ok d)
    → replay p k total c (rs ++ qs) ≡ replay p k total d qs
unfolding replay
replay-append p k total c d [] qs h = ap (λ x. replay p k total x qs) (ground arith)
replay-append p k total c d (r ∷ rs) qs h =
    let (c', e, f) =
      Restored-cases (replay_record p k total c r) (λ c'. replay p k total c' rs) h in
    rw e (replay-append p k total c' d rs qs f)

-- From `d`, the records lead to `c`.
pub record Carries (d c : Change) (rs : List StoredOperation) : Type 0 where
  pub identity : c.state.identity ≡ d.state.identity
  pub grows : length d.records ≤ length c.records
  pub bound : length d.records ≤ u64_max → length c.records ≤ u64_max
  pub replays :
      (total : ℕ)
      → length c.records ≤ total
      → replay current_profile (change_key d.state.identity) total (unfenced d) rs
        ≡ some (ok (unfenced c))

Carries-trans :
    {b c d : Change} (rs qs : List StoredOperation)
    → Carries b c rs
    → Carries c d qs
    → Carries b d (rs ++ qs)
Carries-trans {b} {c} {d} rs qs h k = record {
  identity = k.identity ∙ h.identity;
  grows = omega (arith, h.grows, k.grows);
  bound = λ n. k.bound (h.bound n);
  replays = λ total n.
      let first = h.replays total (omega (arith, k.grows, n)) in
      let second =
        subst
          (λ i.
            replay current_profile (change_key i) total (unfenced c) qs ≡ some (ok (unfenced d)))
          h.identity (k.replays total n) in
      replay-append current_profile (change_key b.state.identity) total (unfenced b) (unfenced c) rs
        qs first
      ∙ second;
}

same-Carries : (d c : Change) → c.state ≡ d.state → c.records ≡ d.records → Carries d c []
unfolding replay
same-Carries d c e f = record {
  identity = ap (λ s. s.identity) e;
  grows = ground (arith, f);
  bound = λ n. ground (arith, f);
  replays = λ total n. ground arith;
}

profile_current : (p : OperationRequestProfile) → is_current p ≡ true → p ≡ current_profile
unfolding is_current
profile_current p h = eq_of_beq p current_profile h

published-Carries :
    (c : Change) (request : OperationRequest) (r : StoredOperation) (s : State)
    → c.fenced ≡ false
    → IsPlanned c request r s
    → Carries c (published c r s) (r ∷ [])
unfolding replay
published-Carries c request r s f h =
    let op : r.operation ≡ request.operation =
      ap (λ (x : StoredOperation). x.operation) h.is_sealed.same in
    let new : get c.records r.operation.id ≡ none =
      subst (λ (o : Operation). get c.records o.id ≡ none) (sym op) h.absent in
    let size : length (insert r.operation.id r c.records) ≡ length c.records + 1 =
      omega (arith, length-insert r.operation.id r c.records new) in
    let same : unfenced c ≡ c = ground arith in
    record {
      identity = step_identity c.state s (planned-IsStep c request r s h);
      grows = omega (arith, size);
      bound = λ n. omega (arith, size, h.is_sealed.bound);
      replays = λ total n.
          let step = replay_record-planned c request r s h total (omega (arith, size, n)) in
          let keyed =
            subst (λ k. replay_record request.profile k total c r ≡ some (ok (published c r s)))
              h.target step in
          let current =
            subst
              (λ p.
                replay_record p (change_key c.state.identity) total c r
                ≡ some (ok (published c r s)))
              (profile_current request.profile h.current) keyed in
          rw (same, current) (ground arith);
    }

pub added_same :
    (c c' : Change) (request : OperationRequest) → c'.records ≡ c.records → added c request c' ≡ []
unfolding added
added_same c c' request e = ground arith

pub added_published :
    (c : Change) (request : OperationRequest) (r : StoredOperation) (s : State)
    → IsPlanned c request r s
    → added c request (published c r s) ≡ r ∷ []
unfolding added
added_published c request r s h =
    let op : r.operation ≡ request.operation =
      ap (λ (x : StoredOperation). x.operation) h.is_sealed.same in
    let now : get (insert r.operation.id r c.records) request.operation.id ≡ some r =
      subst (λ (o : Operation). get (insert r.operation.id r c.records) o.id ≡ some r) op
        (get-insert_self r.operation.id r c.records) in
    ground (arith, h.absent)

module _ {P : Type 0} (ports : Ports P) where
  call-Carries :
      (c : Change) (request : OperationRequest) (p : P)
      → Carries c (execute ports c request p).0.1 (added c request (execute ports c request p).0.1)
  call-Carries c request p = by_effects _ (execute-Effects ports c request p)
    where
      by_effects : (x : Called Accepted) → Effects c request x → Carries c x.1 (added c request x.1)
      by_effects x (Effects.recovers r _ e) =
          subst (λ (y : Called Accepted). Carries c y.1 (added c request y.1)) (sym e)
            (subst (λ rs. Carries c c rs) (sym (added_same c c request refl))
              (same-Carries c c refl refl))
      by_effects x (Effects.refuses e _ _) =
          subst (λ rs. Carries c x.1 rs)
            (sym (added_same c x.1 request (ap (λ (y : Change). y.records) e)))
            (same-Carries c x.1 (ap (λ (y : Change). y.state) e) (ap (λ (y : Change). y.records) e))
      by_effects x (Effects.fences _ _ _ e) =
          subst (λ (y : Called Accepted). Carries c y.1 (added c request y.1)) (sym e)
            (subst (λ rs. Carries c (record c { fenced = true }) rs)
              (sym (added_same c (record c { fenced = true }) request refl))
              (same-Carries c (record c { fenced = true }) refl refl))
      by_effects x (Effects.publishes r s f h e) =
          subst (λ (y : Called Accepted). Carries c y.1 (added c request y.1)) (sym e)
            (subst (λ rs. Carries c (published c r s) rs) (sym (added_published c request r s h))
              (published-Carries c request r s f h))

  run-Carries :
      (c : Change) (requests : List OperationRequest) (p : P)
      → Carries c (run ports c requests p).0 (run ports c requests p).1
  unfolding run
  run-Carries c [] p = same-Carries c c refl refl
  run-Carries c (request ∷ rest) p =
      Carries-trans (added c request (execute ports c request p).0.1) _ (call-Carries c request p)
        (run-Carries (execute ports c request p).0.1 rest (execute ports c request p).1)

-- The head that a store keeps beside the records.
abbrev pub head_of : Change → HistoryHead
head_of c = record {
  profile = current_profile;
  identity = c.state.identity;
  accepted_operations = length c.records;
  last_operation = c.state.last_operation;
}

check_head_own :
    (c : Change)
    → length c.records ≤ u64_max
    → check_head (head_of c) (unfenced c) ≡ ok (unfenced c)
unfolding check_head
check_head_own c h =
    let count : leb (length c.records) u64_max ≡ true = ground arith in rw count (simp (bne_refl))

abbrev pub new_change : Identity → Change
new_change i = record { state = empty_state i; records = []; fenced = false }

pub try_new-eq : (i : Identity) (c : Change) → try_new i ≡ ok c → c ≡ new_change i
unfolding try_new State.try_new
try_new-eq i c h = ground arith

reconstruct_from :
    (c d : Change) (rs : List StoredOperation)
    → try_new d.state.identity ≡ ok c
    → replay current_profile (change_key d.state.identity) (length d.records) c rs
      ≡ some (ok (unfenced d))
    → length d.records ≤ u64_max
    → reconstruct (head_of d) rs ≡ some (ok (unfenced d))
unfolding reconstruct is_current
reconstruct_from c d rs h k bound = rw (h, k, check_head_own d bound) refl

-- Whatever the ports report, after any calls of `execute` on a new Change, reconstruction from the
-- records that these have added, in their order, gives the Change that is left, with its state and its
-- records, and with no fence.
pub run-reconstruct :
    {P : Type 0} (ports : Ports P) (i : Identity) (c : Change) (requests : List OperationRequest)
    (p : P)
    → try_new i ≡ ok c
    → reconstruct (head_of (run ports c requests p).0) (run ports c requests p).1
      ≡ some (ok (unfenced (run ports c requests p).0))
run-reconstruct ports i c requests p h =
    let d : Change = (run ports c requests p).0 in
    let rs : List StoredOperation = (run ports c requests p).1 in
    let k : Carries c d rs = run-Carries ports c requests p in
    let fresh : c ≡ new_change i = try_new-eq i c h in
    let start : c.state.identity ≡ i = ap (λ (x : Change). x.state.identity) fresh in
    let bound : length d.records ≤ u64_max = k.bound (ground (arith, fresh)) in
    let plain : unfenced c ≡ c = ground (arith, fresh) in
    let opened : try_new d.state.identity ≡ ok c =
      subst (λ x. try_new x ≡ ok c) (sym (k.identity ∙ start)) h in
    let replayed = k.replays (length d.records) (omega arith) in
    let from_c : replay current_profile (change_key c.state.identity) (length d.records) c rs
        ≡ some (ok (unfenced d)) =
      subst
        (λ x.
          replay current_profile (change_key c.state.identity) (length d.records) x rs
          ≡ some (ok (unfenced d)))
        plain replayed in
    reconstruct_from c d rs opened
      (subst
        (λ x.
          replay current_profile (change_key x) (length d.records) c rs ≡ some (ok (unfenced d)))
        (sym k.identity) from_c)
      bound
