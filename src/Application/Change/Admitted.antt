-- ===== src/Application/Change/Admitted.antt =====
-- Who may read what: the access and the disclosure that `Change::read` of src/application/change.rs
-- asks for.
use changekernel.Base.{
  ◌≡◌, refl, none, some, Bool, true, false, ◌||◌, ◌&&◌, not, ok, arith, ◌⊎◌, inl, inr, Result-cases,
  Option-cases,
}
use changekernel.Base.Order.{eq_of_not_bne}
use changekernel.Base.BTreeSet.{contains}
use changekernel.Base.BTreeMap.{get}
use changekernel.Kernel.Ids.{ActionId, OperationId, id_eq, id_ord}
use changekernel.Kernel.Keys.{ContentKey, GrantUse, content_key_ord}
use changekernel.Kernel.Content.{RecordedContent}
use changekernel.Kernel.Content
use changekernel.Kernel.Model.Grants.{Access, Grant}
use changekernel.Kernel.State.{State, Authority}
use changekernel.Kernel.Rules.Lookup.{grant, is_settled}
use changekernel.Kernel.Rules.Origins.{selected_origin, discloses_content}
use changekernel.Kernel.Rules.Permission.{
  read_access, read_action_access, is_reconciliation, reconciles,
}
use changekernel.Guarantees.Authority.{IsOwner, owner-IsOwner}
use changekernel.Application.Checks.{ReadScope, Checks, Context, Query, read_scope_ord}
use changekernel.Application.Change.{Change, validation}
use changekernel.Application.Change.Gather.{disclosure_origin, discloses_origin}
use changekernel.Application.Change.Reads.{query_scope, query_access}

-- The context discloses the whole Change, or what the query is about, or, for a content that was
-- created here, its origin.
pub data Discloses (c : Change) (x : Context) : Query → Type 0 where
  whole :
      (query : Query)
      → contains x.disclosure (ReadScope.change c.state.identity.change) ≡ true
      → Discloses c x query
  operation :
      (id : OperationId)
      → contains x.disclosure (ReadScope.operation id) ≡ true
      → Discloses c x (Query.operation id)
  action :
      (id : ActionId)
      → contains x.disclosure (ReadScope.action id) ≡ true
      → Discloses c x (Query.action id)
  content :
      (key : ContentKey)
      → contains x.disclosure (ReadScope.content key) ≡ true
      → Discloses c x (Query.content key)
  origin :
      (key : ContentKey) (r : RecordedContent)
      → get c.state.created key ≡ some r
      → contains x.disclosure (
          ReadScope.origin (record {
            identity = r.origin.binding.identity;
            grant = r.origin.grant;
            target = r.origin.target;
          }))
        ≡ true
      → Discloses c x (Query.content key)

-- What a grant lets its recipient read: contents that it discloses, and actions that it reconciles.
pub data Shows (s : State) (g : Grant) : Query → Type 0 where
  content :
      (key : ContentKey)
      → (s.settlement ≡ none) ⊎ (is_reconciliation g.spec.target ≡ true)
      → (contains g.spec.disclosure key ≡ true)
        ⊎ (selected_origin s key g g.spec.disclosure_origins ≡ true)
      → Shows s g (Query.content key)
  action : (id : ActionId) → reconciles g.spec.target id ≡ true → Shows s g (Query.action id)

-- The caller holds the named grant, live and of that generation, and it shows what the query asks for.
pub record HoldsReading (s : State) (a : Authority) (used : GrantUse) (query : Query) : Type 0 where
  pub g : Grant
  pub found : get s.grants used.id ≡ some g
  pub live : g.revoked ≡ false
  pub generation : g.generation ≡ used.generation
  pub recipient : g.spec.recipient ≡ a.actor
  pub represented : a.represented_owner ≡ s.identity.owner
  pub shows : Shows s g query

abbrev pub MayRead : State → Authority → Access → Query → Type 0
MayRead s a Access.owner query = IsOwner s a
MayRead s a (Access.grant used) query = HoldsReading s a used query

either : (a b : Bool) → (a || b) ≡ true → (a ≡ true) ⊎ (b ≡ true)
either true b h = inl refl
either false b h = inr h

module _ (s : State) (a : Authority) (used : GrantUse) (query : Query) where
  holds_reading :
      (g : Grant) → grant s used a ≡ ok g → Shows s g query → HoldsReading s a used query
  unfolding grant
  holds_reading g h k = record {
    g = g;
    found = ground arith;
    live = ground arith;
    generation = ground arith;
    recipient = eq_of_not_bne g.spec.recipient a.actor (ground arith);
    represented = eq_of_not_bne a.represented_owner s.identity.owner (ground arith);
    shows = k;
  }

settled_reads :
    (s : State) (g : Grant)
    → (is_settled s && not (is_reconciliation g.spec.target)) ≡ false
    → (s.settlement ≡ none) ⊎ (is_reconciliation g.spec.target ≡ true)
settled_reads s g h = elim (Option-cases s.settlement) [
  | inl e ↦ inl e
  | inr (x, e) ↦ inr (ground arith)
]

module _ (c : Change) (checks : Checks) where
  pub query_MayRead :
      (query : Query) (access : Access)
      → query_access c query access checks ≡ ok tt
      → MayRead c.state checks.context.authority access query
  unfolding read_access read_action_access discloses_content validation
  query_MayRead Query.status Access.owner h = owner-IsOwner c.state checks.context.authority h
  query_MayRead (Query.operation id) Access.owner h =
      owner-IsOwner c.state checks.context.authority h
  query_MayRead (Query.content key) Access.owner h =
      owner-IsOwner c.state checks.context.authority h
  query_MayRead (Query.action id) Access.owner h = owner-IsOwner c.state checks.context.authority h
  query_MayRead Query.status (Access.grant used) h =
      elim (Result-cases (grant c.state used checks.context.authority)) [
        | inr (e, f) ↦ absurd (ground arith)
        | inl (g, f) ↦ absurd (ground arith)
      ]
  query_MayRead (Query.operation id) (Access.grant used) h =
      elim (Result-cases (grant c.state used checks.context.authority)) [
        | inr (e, f) ↦ absurd (ground arith)
        | inl (g, f) ↦ absurd (ground arith)
      ]
  query_MayRead (Query.content key) (Access.grant used) h =
      elim (Result-cases (grant c.state used checks.context.authority)) [
        | inr (e, f) ↦ absurd (ground arith)
        | inl (g, f) ↦
            let shown : (contains g.spec.disclosure key
                  || selected_origin c.state key g g.spec.disclosure_origins)
                ≡ true =
              ground arith in
            holds_reading c.state checks.context.authority used (Query.content key) g f
              (Shows.content key (settled_reads c.state g (ground arith)) (either _ _ shown))
      ]
  query_MayRead (Query.action id) (Access.grant used) h =
      elim (Result-cases (grant c.state used checks.context.authority)) [
        | inr (e, f) ↦ absurd (ground arith)
        | inl (g, f) ↦
            holds_reading c.state checks.context.authority used (Query.action id) g f
              (Shows.action id (ground arith))
      ]

-- The test of `Change::context` for the scope of a query.
pub context-Discloses :
    (c : Change) (x : Context) (query : Query)
    → (contains x.disclosure (ReadScope.change c.state.identity.change)
        || (contains x.disclosure (query_scope c query)
            || discloses_origin x (disclosure_origin c.state (query_scope c query))))
      ≡ true
    → Discloses c x query
unfolding Content.scope
context-Discloses c x query h = elim (either _ _ h) [
  | inl e ↦ Discloses.whole query e
  | inr k ↦ narrow query k
]
  where
    narrow :
        (query : Query)
        → (contains x.disclosure (query_scope c query)
            || discloses_origin x (disclosure_origin c.state (query_scope c query)))
          ≡ true
        → Discloses c x query
    narrow Query.status h = Discloses.whole Query.status (ground arith)
    narrow (Query.operation id) h = Discloses.operation id (ground arith)
    narrow (Query.action id) h = Discloses.action id (ground arith)
    narrow (Query.content key) h = elim (either _ _ h) [
      | inl e ↦ Discloses.content key e
      | inr k ↦ elim (Option-cases (get c.state.created key)) [
        | inl f ↦ absurd (ground arith)
        | inr (r, f) ↦ Discloses.origin key r f (ground arith)
      ]
    ]
