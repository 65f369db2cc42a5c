-- ===== src/Guarantees/Creation.antt =====
-- What `State::prepare_creation` of src/kernel/change/content.rs accepts, and what it records.
use changekernel.Base.{
  ℕ, ◌+◌, ◌≤◌, ◌≡◌, refl, sym, none, some, true, false, ok, arith, List, [], ◌∷◌, ◌⊎◌, inl, inr,
  Result-cases, Option-cases,
}
use changekernel.Base.Order.{eq_of_not_bne}
use changekernel.Base.Lists.{Member, here, there, length}
use changekernel.Base.BTreeMap.{BTreeMap, get, insert, get-insert, get-insert_self, length-insert}
use changekernel.Kernel.Ids.{id_eq, id_ord}
use changekernel.Kernel.Keys.{
  ContentKey, GrantUse, GrantTarget, change_key, change_key_eq, content_key_ord, content_key_eq,
}
use changekernel.Kernel.Content.{FreshContent, ContentLimits, ContentUsage, RecordedContent}
use changekernel.Kernel.Model.Grants.{ContentCreation}
use changekernel.Kernel.Model.Commands.{Operation}
use changekernel.Kernel.State.{State, Authority}
use changekernel.Kernel.Rules.Lookup.{grant}
use changekernel.Kernel.Rules.Creation.{
  measure, measure_from, within, creating_grant, recorded, record_payloads, create,
  prepare_creation,
}

-- The number of bytes of all payloads.
abbrev pub total_bytes : List FreshContent → ℕ
total_bytes [] = 0
total_bytes (p ∷ ps) = length p.bytes + total_bytes ps

measure_from-total :
    (u w : ContentUsage) (ps : List FreshContent)
    → measure_from u ps ≡ ok w
    → (w.items ≡ u.items + length ps) × (w.payload_bytes ≡ u.payload_bytes + total_bytes ps)
unfolding measure_from
measure_from-total u w [] h = (ground arith, ground arith)
measure_from-total u w (p ∷ ps) h =
    let (a, b) =
      measure_from-total
        (record { items = u.items + 1; payload_bytes = u.payload_bytes + length p.bytes }) w ps
        (ground arith) in
    (omega (arith, a), omega (arith, b))

module _ (s : State) (entry : FreshContent → RecordedContent) where
  -- The map that the loop returns: what was there, and one entry for each payload.
  record Records (ps : List FreshContent) (m n : BTreeMap ContentKey RecordedContent) : Type 0 where
    pub kept : (k : ContentKey) (x : RecordedContent) → get m k ≡ some x → get n k ≡ some x
    pub own : (p : FreshContent) → Member p ps → p.key.establishing ≡ change_key s.identity
    pub fresh : (p : FreshContent) → Member p ps → get s.content_items p.key ≡ none
    pub entered : (p : FreshContent) → Member p ps → get n p.key ≡ some (entry p)
    pub size : length n ≡ length m + length ps

  record_payloads-Records :
      (ps : List FreshContent) (m n : BTreeMap ContentKey RecordedContent)
      → record_payloads s entry ps m ≡ ok n
      → Records ps m n
  unfolding record_payloads
  record_payloads-Records [] m n h = record {
    kept = λ k x e. ground arith;
    own = λ p i. elim i [ ];
    fresh = λ p i. elim i [ ];
    entered = λ p i. elim i [ ];
    size = ground arith;
  }
  record_payloads-Records (q ∷ ps) m n h =
      let next : BTreeMap ContentKey RecordedContent = insert q.key (entry q) m in
      let new : get m q.key ≡ none = ground arith in
      let r : Records ps next n = record_payloads-Records ps next n (ground arith) in
      let mine : q.key.establishing ≡ change_key s.identity =
        eq_of_not_bne q.key.establishing (change_key s.identity) (ground arith) in
      let absent : get s.content_items q.key ≡ none = ground arith in
      let there_now : get n q.key ≡ some (entry q) =
        r.kept q.key (entry q) (get-insert_self q.key (entry q) m) in
      record {
        kept = λ k x e.
            r.kept k x
              (ground (arith, get-insert q.key k (entry q) m, content_key_eq.same_iff k q.key));
        own = λ p i. elim (first p ps i) [ inl e ↦ rw e mine | inr j ↦ r.own p j ];
        fresh = λ p i. elim (first p ps i) [ inl e ↦ rw e absent | inr j ↦ r.fresh p j ];
        entered = λ p i. elim (first p ps i) [ inl e ↦ rw e there_now | inr j ↦ r.entered p j ];
        size = omega (arith, r.size, length-insert q.key (entry q) m new);
      }
    where
      first :
          (p : FreshContent) (ps : List FreshContent) → Member p (q ∷ ps) → (p ≡ q) ⊎ Member p ps
      first p ps (here e) = inl (sym e)
      first p ps (there i) = inr i

-- The entry of one payload: it holds the payload, and its origin names this Change, the operation, the
-- content, the recorder and the owner it stands for, the grant as the command uses it, and the target.
pub record IsEntry (s : State) (o : Operation) (a : Authority) (used : GrantUse)
    (target : GrantTarget) (p : FreshContent) (r : RecordedContent) : Type 0 where
  pub payload : r.payload ≡ p
  pub identity : r.origin.binding.identity ≡ s.identity
  pub operation : r.origin.binding.operation ≡ o.id
  pub content : r.origin.binding.content ≡ p.key
  pub recorder : r.origin.recorder ≡ a.actor
  pub represented : r.origin.represented_owner ≡ a.represented_owner
  pub grant : r.origin.grant ≡ used
  pub target_is : r.origin.target ≡ target

-- The contents that are recorded are the payloads, each new, of this Change and under its own key.
pub record AreEntries (s : State) (o : Operation) (a : Authority) (used : GrantUse)
    (target : GrantTarget) (n : BTreeMap ContentKey RecordedContent) : Type 0 where
  pub own : (p : FreshContent) → Member p o.fresh → p.key.establishing ≡ change_key s.identity
  pub fresh : (p : FreshContent) → Member p o.fresh → get s.content_items p.key ≡ none
  pub entered :
      (p : FreshContent)
      → Member p o.fresh
      → (r : RecordedContent) × (get n p.key ≡ some r) × IsEntry s o a used target p r
  pub size : length n ≡ length o.fresh

recorded-AreEntries :
    (s : State) (o : Operation) (a : Authority) (used : GrantUse) (target : GrantTarget)
    (n : BTreeMap ContentKey RecordedContent)
    → record_payloads s (recorded s o.id a used target) o.fresh [] ≡ ok n
    → AreEntries s o a used target n
recorded-AreEntries s o a used target n h =
    let entry : FreshContent → RecordedContent = recorded s o.id a used target in
    let k = record_payloads-Records s entry o.fresh [] n h in
    record {
      own = k.own;
      fresh = k.fresh;
      entered = λ p i. (
        entry p,
        k.entered p i,
        record {
          payload = refl;
          identity = refl;
          operation = refl;
          content = refl;
          recorder = refl;
          represented = refl;
          grant = refl;
          target_is = refl;
        },
      );
      size = omega (arith, k.size);
    }

-- What `prepare_creation` returns for an operation with payloads.
pub record IsCreation (s : State) (o : Operation) (a : Authority) (c : ContentCreation)
    : Type 0 where
  pub used : GrantUse
  pub limits : ContentLimits
  -- the command names a grant, which is there, live, of that generation and for this actor
  pub uses : creating_grant o.command ≡ ok used
  pub found : get s.grants used.id ≡ some c.grant
  pub live : c.grant.revoked ≡ false
  pub generation : c.grant.generation ≡ used.generation
  pub recipient : c.grant.spec.recipient ≡ a.actor
  -- the usage is measured exactly and stays within what the grant allows to create
  pub allows : c.grant.spec.creation ≡ some limits
  pub items : c.usage.items ≡ length o.fresh
  pub payload_bytes : c.usage.payload_bytes ≡ total_bytes o.fresh
  pub items_bound : length o.fresh ≤ limits.items
  pub bytes_bound : total_bytes o.fresh ≤ limits.payload_bytes
  -- each payload is recorded under its own key, with its origin
  pub entries : AreEntries s o a used c.grant.spec.target c.content_items

within-bounds :
    (u : ContentUsage) (l : ContentLimits)
    → within u l ≡ true
    → (u.items ≤ l.items) × (u.payload_bytes ≤ l.payload_bytes)
unfolding within
within-bounds u l h = (ground arith, ground arith)

create-IsCreation :
    (s : State) (o : Operation) (a : Authority) (c : ContentCreation)
    → create s o a ≡ ok c
    → IsCreation s o a c
unfolding grant measure
create-IsCreation s o a c h = elim (Result-cases (creating_grant o.command)) [
  | inr (x, e) ↦ absurd (ground arith)
  | inl (used, e) ↦ elim (Option-cases (get s.grants used.id)) [
    | inl f ↦ absurd (ground arith)
    | inr (g, f) ↦ elim (Option-cases g.spec.creation) [
      | inl l ↦ absurd (ground arith)
      | inr (limits, l) ↦ elim (Result-cases (measure o.fresh)) [
        | inr (x, m) ↦ absurd (ground arith)
        | inl (usage, m) ↦
            let (i, b) =
              measure_from-total (record { items = 0; payload_bytes = 0 }) usage o.fresh m in
            let (p, q) = within-bounds usage limits (ground arith) in
            let same : c.grant ≡ g = ground arith in
            record {
              used = used;
              limits = limits;
              uses = e;
              found = ground arith;
              live = ground arith;
              generation = ground arith;
              recipient = rw same (eq_of_not_bne g.spec.recipient a.actor (ground arith));
              allows = ground arith;
              items = ground (arith, i);
              payload_bytes = ground (arith, b);
              items_bound = omega (arith, i, p);
              bytes_bound = omega (arith, b, q);
              entries =
                  recorded-AreEntries s o a used c.grant.spec.target c.content_items (ground arith);
            }
      ]
    ]
  ]
]

-- Content that an operation creates is covered by a live grant to the very actor that allows creation,
-- is measured exactly and stays within the grant's limits of items and bytes; each payload belongs to
-- this Change, was not there before, and gets its own entry, which names the operation, the recorder,
-- the grant and its target.
pub created-IsCreation :
    (s : State) (o : Operation) (a : Authority) (c : ContentCreation)
    → prepare_creation s o a ≡ ok (some c)
    → IsCreation s o a c
unfolding prepare_creation
created-IsCreation s o a c h = create-IsCreation s o a c (ground arith)
