-- ===== src/Application/Change/Validated.antt =====
-- What `Change::validate_current` of src/application/change.rs has looked at when it accepts.
use changekernel.Base.{
  ℕ, ◌≡◌, List, [], ◌∷◌, some, true, false, not, ok, arith, inl, inr, Result-cases, Option-cases,
  Bool-cases, subst,
}
use changekernel.Base.Order.{eq_of_not_bne, list_eq}
use changekernel.Base.Lists.{Member, here, there, any, all-Member, any_of_Member}
use changekernel.Base.BTreeSet.{BTreeSet, contains, collect, is_subset, contains-collect}
use changekernel.Base.BTreeMap.{BTreeMap, get, keys, contains_key, contains-keys}
use changekernel.Kernel.Ids.{GroundId, id_eq, id_ord}
use changekernel.Kernel.Keys.{ContentKey, content_key_eq, content_key_ord}
use changekernel.Kernel.Content.{FreshContent, IntakeSnapshot}
use changekernel.Kernel.Model.Commands.{Operation}
use changekernel.Kernel.Rules.Creation.{prepare_creation}
use changekernel.Kernel.Rules.Requirements.{requirements}
use changekernel.Application.Checks.{Checks}
use changekernel.Application.Intake.{check_intake}
use changekernel.Application.Change.{
  Change, check_context, check_coverage, check_items, derived_items, adaptation_items, native_items,
  requested_action, validate_current,
}

-- What the coverage test asks of the contents of the checks.
pub record IsCovering (o : Operation) (checks : Checks) : Type 0 where
  pub items : BTreeSet ContentKey
  pub contents : collect (keys checks.content_items) ≡ items
  pub intakes : collect (keys checks.intakes) ≡ items
  pub retained : is_subset o.first_retention items ≡ true
  pub fresh : any (λ (p : FreshContent). not (contains items p.key)) o.fresh ≡ false

check_coverage-IsCovering :
    (o : Operation) (checks : Checks) (items : BTreeSet ContentKey) (grounds : BTreeSet GroundId)
    → check_coverage o checks items grounds ≡ ok tt
    → IsCovering o checks
unfolding check_coverage
check_coverage-IsCovering o checks items grounds h = record {
  items = items;
  contents = eq_of_not_bne (collect (keys checks.content_items)) items (ground arith);
  intakes = eq_of_not_bne (collect (keys checks.intakes)) items (ground arith);
  retained = ground arith;
  fresh = ground arith;
}

pub record IsValidated (c : Change) (o : Operation) (checks : Checks) : Type 0 where
  pub context : check_context c o checks ≡ ok tt
  pub covering : IsCovering o checks
  pub checked : check_items c o checks checks.content_items ≡ ok tt

pub validate_current-IsValidated :
    (c : Change) (o : Operation) (checks : Checks)
    → validate_current c o checks ≡ ok tt
    → IsValidated c o checks
unfolding validate_current
validate_current-IsValidated c o checks h =
    elim (Result-cases (prepare_creation c.state o checks.context.authority)) [
      | inr (x, e) ↦ absurd (ground arith)
      | inl (creation, e) ↦ elim (Result-cases (requirements c.state o.command)) [
        | inr (x, f) ↦ absurd (ground arith)
        | inl (needs, f) ↦
            elim (Result-cases (adaptation_items o.command checks.adaptation needs.content_items)) [
              | inr (x, g) ↦ absurd (ground arith)
              | inl (adapted, g) ↦ elim (Result-cases (requested_action c.state o.command)) [
                | inr (x, k) ↦ absurd (ground arith)
                | inl (request, k) ↦
                    elim (Result-cases (native_items request checks.native adapted)) [
                      | inr (x, l) ↦ absurd (ground arith)
                      | inl (native, l) ↦ record {
                        context = ground arith;
                        covering =
                            check_coverage-IsCovering o checks (derived_items o.fresh native)
                              needs.grounds (ground arith);
                        checked = ground arith;
                      }
                    ]
              ]
            ]
      ]
    ]

-- Each content of the checks has passed the check of its intake.
pub checked_item :
    (c : Change) (o : Operation) (checks : Checks) (es : BTreeMap ContentKey (List ℕ))
    (key : ContentKey) (bytes : List ℕ)
    → check_items c o checks es ≡ ok tt
    → Member {A = ContentKey × List ℕ} (key, bytes) es
    → (snapshot : IntakeSnapshot) × (check_intake c.state (some o) key bytes snapshot ≡ ok tt)
unfolding check_items
checked_item c o checks [] key bytes h m = elim m [ ]
checked_item c o checks ((k, b) ∷ es) key bytes h (there m) =
    checked_item c o checks es key bytes (ground arith) m
checked_item c o checks ((k, b) ∷ es) key bytes h (here e) =
    elim (Option-cases (get checks.intakes k)) [
      | inl f ↦ absurd (ground arith)
      | inr (snapshot, f) ↦ (
        snapshot,
        subst (λ (x : ContentKey × List ℕ). check_intake c.state (some o) x.0 x.1 snapshot ≡ ok tt)
            e (ground arith),
      )
    ]

module _ (o : Operation) (checks : Checks) (h : IsCovering o checks) where
  -- A content that is needed has an intake.
  intake_of_item :
      (key : ContentKey)
      → contains h.items key ≡ true
      → (snapshot : IntakeSnapshot) × (get checks.intakes key ≡ some snapshot)
  intake_of_item key k =
      let found : contains_key checks.intakes key ≡ true = ground (
        arith,
        h.intakes,
        contains-collect (keys checks.intakes) key,
        contains-keys checks.intakes key,
      ) in
      elim (Option-cases (get checks.intakes key)) [
        | inl e ↦ absurd (ground arith)
        | inr (snapshot, e) ↦ (snapshot, e)
      ]

  pub intake_of_fresh :
      (p : FreshContent)
      → Member p o.fresh
      → (snapshot : IntakeSnapshot) × (get checks.intakes p.key ≡ some snapshot)
  intake_of_fresh p m = elim (Bool-cases (contains h.items p.key)) [
    | inl k ↦ intake_of_item p.key k
    | inr k ↦
        let bad : any (λ (q : FreshContent). not (contains h.items q.key)) o.fresh ≡ true =
          any_of_Member (λ (q : FreshContent). not (contains h.items q.key)) p o.fresh m
            (ground arith) in
        absurd (ground (arith, h.fresh))
  ]

  pub intake_of_retention :
      (key : ContentKey)
      → Member key o.first_retention
      → (snapshot : IntakeSnapshot) × (get checks.intakes key ≡ some snapshot)
  unfolding is_subset
  intake_of_retention key m =
      intake_of_item key (all-Member (contains h.items) key o.first_retention h.retained m)
