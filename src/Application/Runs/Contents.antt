-- ===== src/Application/Runs/Contents.antt =====
-- What `Change::retain` of src/application/change.rs writes: it finds every intake, and the bytes of a
-- content never change.
use changekernel.Base.{
  ℕ, ◌≡◌, refl, sym, ap, ◌∙◌, subst, List, [], ◌∷◌, ◌++◌, none, some, true, arith, ◌⊎◌, inl, inr,
  Option-cases, is_some,
}
use changekernel.Base.Lists.{Member, here, there}
use changekernel.Base.BTreeSet.{
  contains, collect, contains-collect, Member-contains, contains-Member,
}
use changekernel.Base.BTreeMap
use changekernel.Base.BTreeMap.{BTreeMap, get, insert, get-insert, extend_cases}
use changekernel.Kernel.Ids.{id_ord}
use changekernel.Kernel.Keys.{ContentKey, content_key_eq, content_key_ord}
use changekernel.Kernel.Content.{FreshContent, IntakeSnapshot, ContentEstablishment}
use changekernel.Kernel.Model.Commands.{Operation}
use changekernel.Kernel.State.{State}
use changekernel.Application.Records.{StoredOperation, establishment_claims, payload_keys}
use changekernel.Application.Intake.Provenance.{Provenance, checked-Provenance}
use changekernel.Application.Change.{Change, establish, establishment, retain}
use changekernel.Application.Change.Validated.{
  IsCovering, IsValidated, checked_item, intake_of_fresh, intake_of_retention,
}

-- The map of establishments after the loop: it has every key of before, and every key of the loop.
pub record Establishes (keys : List ContentKey) (m n : BTreeMap ContentKey ContentEstablishment)
    : Type 0 where
  pub kept : (k : ContentKey) → is_some (get m k) ≡ true → is_some (get n k) ≡ true
  pub new : (k : ContentKey) → Member k keys → is_some (get n k) ≡ true

abbrev HasIntakes : StoredOperation → List ContentKey → Type 0
HasIntakes r keys =
    (k : ContentKey)
    → Member k keys
    → (snapshot : IntakeSnapshot) × (get r.checks.intakes k ≡ some snapshot)

establish_total :
    (r : StoredOperation) (keys : List ContentKey) (m : BTreeMap ContentKey ContentEstablishment)
    → HasIntakes r keys
    → (n : BTreeMap ContentKey ContentEstablishment) × (establish r keys m ≡ some n)
unfolding establish
establish_total r [] m h = (m, refl)
establish_total r (k ∷ ks) m h =
    let (snapshot, e) = h k (here refl) in
    let (n, f) =
      establish_total r ks (insert k (establishment r k snapshot) m) (λ j i. h j (there i)) in
    (n, ground arith)

establish-Establishes :
    (r : StoredOperation) (keys : List ContentKey) (m n : BTreeMap ContentKey ContentEstablishment)
    → establish r keys m ≡ some n
    → Establishes keys m n
unfolding establish
establish-Establishes r [] m n h = record { kept = λ k e. ground arith; new = λ k i. elim i [ ] }
establish-Establishes r (k ∷ ks) m n h = elim (Option-cases (get r.checks.intakes k)) [
  | inl e ↦ absurd (ground arith)
  | inr (snapshot, e) ↦
      let next : BTreeMap ContentKey ContentEstablishment =
        insert k (establishment r k snapshot) m in
      let later : Establishes ks next n = establish-Establishes r ks next n (ground arith) in
      let here_now : is_some (get n k) ≡ true = later.kept k (
        ground
          (arith, get-insert k k (establishment r k snapshot) m, content_key_eq.same_iff k k)) in
      record {
        kept = λ j f. later.kept j (ground (arith, get-insert k j (establishment r k snapshot) m));
        new = λ j i. elim i [
          | here same ↦ subst (λ x. is_some (get n x) ≡ true) same here_now
          | there i' ↦ later.new j i'
        ];
      }
]

append_cases :
    (xs ys : List ContentKey) (k : ContentKey) → Member k (xs ++ ys) → Member k xs ⊎ Member k ys
append_cases [] ys k m = inr m
append_cases (x ∷ xs) ys k (here e) = inl (here e)
append_cases (x ∷ xs) ys k (there m) = elim (append_cases xs ys k m) [
  | inl i ↦ inl (there i)
  | inr i ↦ inr i
]

append_left : (xs ys : List ContentKey) (k : ContentKey) → Member k xs → Member k (xs ++ ys)
append_left [] ys k m = elim m [ ]
append_left (x ∷ xs) ys k (here e) = here e
append_left (x ∷ xs) ys k (there m) = there (append_left xs ys k m)

append_right : (xs ys : List ContentKey) (k : ContentKey) → Member k ys → Member k (xs ++ ys)
append_right [] ys k m = m
append_right (x ∷ xs) ys k m = there (append_right xs ys k m)

payload_of_key :
    (ps : List FreshContent) (k : ContentKey)
    → Member k (payload_keys ps)
    → (p : FreshContent) × Member p ps × (p.key ≡ k)
payload_of_key [] k m = elim m [ ]
payload_of_key (p ∷ ps) k (here e) = (p, here refl, e)
payload_of_key (p ∷ ps) k (there m) = let (q, i, e) = payload_of_key ps k m in (q, there i, e)

key_of_payload :
    (ps : List FreshContent) (p : FreshContent) → Member p ps → Member p.key (payload_keys ps)
key_of_payload [] p m = elim m [ ]
key_of_payload (q ∷ ps) p (here e) = here (ap (λ (x : FreshContent). x.key) e)
key_of_payload (q ∷ ps) p (there m) = there (key_of_payload ps p m)

-- A claimed key is that of a payload or of a first retention, and the other way round.
claim_cases :
    (o : Operation) (k : ContentKey)
    → Member k (establishment_claims o)
    → ((p : FreshContent) × Member p o.fresh × (p.key ≡ k)) ⊎ Member k o.first_retention
unfolding establishment_claims
claim_cases o k m =
    let raw : Member k (payload_keys o.fresh ++ o.first_retention) =
      Member-contains (payload_keys o.fresh ++ o.first_retention) k (
        sym (contains-collect (payload_keys o.fresh ++ o.first_retention) k)
        ∙ contains-Member (collect (payload_keys o.fresh ++ o.first_retention)) k m) in
    elim (append_cases (payload_keys o.fresh) o.first_retention k raw) [
      | inl i ↦ inl (payload_of_key o.fresh k i)
      | inr i ↦ inr i
    ]

claim_of :
    (o : Operation) (k : ContentKey)
    → Member k (payload_keys o.fresh ++ o.first_retention)
    → Member k (establishment_claims o)
unfolding establishment_claims
claim_of o k m = Member-contains (collect (payload_keys o.fresh ++ o.first_retention)) k (
    contains-collect (payload_keys o.fresh ++ o.first_retention) k
    ∙ contains-Member (payload_keys o.fresh ++ o.first_retention) k m)

-- Where the checks cover the operation, `retain` finds the intake of each establishment: no panic.
pub retain_total :
    (s : State) (r : StoredOperation)
    → r.establishments ≡ establishment_claims r.operation
    → IsCovering r.operation r.checks
    → (t : State) × (retain s r ≡ some t)
unfolding retain
retain_total s r e h =
    let intakes : HasIntakes r (establishment_claims r.operation) = λ k m.
      elim (claim_cases r.operation k m) [
        | inl (p, i, same) ↦
            subst (λ x. (snapshot : IntakeSnapshot) × (get r.checks.intakes x ≡ some snapshot)) same
              (intake_of_fresh r.operation r.checks h p i)
        | inr i ↦ intake_of_retention r.operation r.checks h k i
      ] in
    let (n, f) =
      establish_total r r.establishments s.established (subst (HasIntakes r) (sym e) intakes) in
    elim (Option-cases (retain s r)) [ inl g ↦ absurd (ground arith) | inr (t, g) ↦ (t, g) ]

-- Whatever content a state holds is established.
pub record IsEstablished (s : State) : Type 0 where
  pub each :
      (k : ContentKey) (b : List ℕ)
      → get s.content_items k ≡ some b
      → is_some (get s.established k) ≡ true

-- The bytes of a content of `s` are those of `t`.
pub record KeepsBytes (s t : State) : Type 0 where
  pub bytes :
      (k : ContentKey) (b : List ℕ)
      → get s.content_items k ≡ some b
      → get t.content_items k ≡ some b

-- What `retain` writes to the two maps of contents.
retain_writes :
    (s t : State) (r : StoredOperation)
    → retain s r ≡ some t
    → (t.content_items ≡ BTreeMap.extend s.content_items r.checks.content_items)
      × Establishes r.establishments s.established t.established
unfolding retain
retain_writes s t r h = elim (Option-cases (establish r r.establishments s.established)) [
  | inl e ↦ absurd (ground arith)
  | inr (m, e) ↦ (
    ground arith,
    establish-Establishes r r.establishments s.established t.established (ground arith),
  )
]

module _ (c : Change) (s t : State) (r : StoredOperation)
    (contents : s.content_items ≡ c.state.content_items)
    (established : s.established ≡ c.state.established)
    (claims : r.establishments ≡ establishment_claims r.operation)
    (valid : IsValidated c r.operation r.checks) (written : retain s r ≡ some t) where
  -- A content of the checks is the one that is held, or is not held and is claimed.
  item_cases :
      (k : ContentKey) (b : List ℕ)
      → Member {A = ContentKey × List ℕ} (k, b) r.checks.content_items
      → ((get c.state.content_items k ≡ some b) × (is_some (get c.state.established k) ≡ true))
        ⊎ ((get c.state.established k ≡ none) × Member k r.establishments)
  item_cases k b m =
      let (snapshot, checked) =
        checked_item c r.operation r.checks r.checks.content_items k b valid.checked m in
      by_provenance snapshot (checked-Provenance c.state (some r.operation) k b snapshot checked).1
    where
      by_provenance :
          (snapshot : IntakeSnapshot)
          → Provenance c.state (some r.operation) k b snapshot
          → ((get c.state.content_items k ≡ some b) × (is_some (get c.state.established k) ≡ true))
            ⊎ ((get c.state.established k ≡ none) × Member k r.establishments)
      by_provenance snapshot (Provenance.reuse u) = inl (u.bytes_retained, ground (arith, u.found))
      by_provenance snapshot (Provenance.fresh op e absent f) =
          let same : r.operation ≡ op = ground arith in
          let listed : Member k (payload_keys r.operation.fresh) =
            subst (λ x. Member x (payload_keys r.operation.fresh)) f.keyed
              (key_of_payload r.operation.fresh f.p
                (subst (λ (x : Operation). Member f.p x.fresh) (sym same) f.payload)) in
          inr (
            absent,
            subst (λ x. Member k x) (sym claims)
                (claim_of r.operation k (
                  append_left (payload_keys r.operation.fresh) r.operation.first_retention k
                    listed)),
          )
      by_provenance snapshot (Provenance.first op e absent f) =
          let same : r.operation ≡ op = ground arith in
          let listed : Member k r.operation.first_retention =
            Member-contains r.operation.first_retention k
              (subst (λ (x : Operation). contains x.first_retention k ≡ true) (sym same) f) in
          inr (
            absent,
            subst (λ x. Member k x) (sym claims)
                (claim_of r.operation k (
                  append_right (payload_keys r.operation.fresh) r.operation.first_retention k
                    listed)),
          )

  pub retain-KeepsBytes : IsEstablished c.state → KeepsBytes c.state t
  retain-KeepsBytes h = record {
    bytes = λ k b e.
        let (w, _) = retain_writes s t r written in
        let before : get s.content_items k ≡ some b = ground arith in
        elim (extend_cases k s.content_items r.checks.content_items) [
          | inl same ↦ ground arith
          | inr (v, m, now) ↦ elim (item_cases k v m) [
            | inl (held, _) ↦ ground arith
            | inr (absent, _) ↦
                let known : is_some (get c.state.established k) ≡ true = h.each k b e in
                absurd (ground arith)
          ]
        ];
  }

  pub retain-IsEstablished : IsEstablished c.state → IsEstablished t
  retain-IsEstablished h = record {
    each = λ k b e.
        let (w, claimed) = retain_writes s t r written in
        elim (extend_cases k s.content_items r.checks.content_items) [
          | inl same ↦
              let before : get c.state.content_items k ≡ some b = ground arith in
              let known : is_some (get c.state.established k) ≡ true = h.each k b before in
              claimed.kept k (ground arith)
          | inr (v, m, now) ↦ elim (item_cases k v m) [
            | inl (_, known) ↦ claimed.kept k (ground arith)
            | inr (_, listed) ↦ claimed.new k listed
          ]
        ];
  }
