-- ===== src/Guarantees/Grounds.antt =====
-- The checks of grounds in src/kernel/change/rules.rs against what they look for.
use changekernel.Base.{◌≡◌, ◌≢◌, ◌↔◌, refl, sym, none, some, ok, arith, List, [], ◌∷◌}
use changekernel.Base.Order.{eq_of_not_bne, option_eq}
use changekernel.Base.Lists.{Member, here, there}
use changekernel.Base.BTreeMap.{get, insert, get-insert}
use changekernel.Kernel.Ids.{id_eq, id_ord}
use changekernel.Kernel.Model.Terms.{Dependency}
use changekernel.Kernel.Rules.Dependencies.{Grounds, valid_from, dependencies_valid}

-- No two of the dependencies are on the same ground.
abbrev pub AreDistinct : List Dependency → Type 0
AreDistinct [] = Unit
AreDistinct (d ∷ ds) =
    ((e : Dependency) → Member e ds → e.ground_fact ≢ d.ground_fact) × AreDistinct ds

-- Each dependency is on the version that the ground has now.
abbrev pub AreCurrent : Grounds → List Dependency → Type 0
AreCurrent current ds = (d : Dependency) → Member d ds → get current d.ground_fact ≡ some d.version

abbrev AreUnseen : Grounds → List Dependency → Type 0
AreUnseen seen ds = (d : Dependency) → Member d ds → get seen d.ground_fact ≡ none

module _ (current : Grounds) where
  AreUnseen-insert :
      (seen : Grounds) (d : Dependency) (ds : List Dependency)
      → AreUnseen seen ds
      → ((e : Dependency) → Member e ds → e.ground_fact ≢ d.ground_fact)
      → AreUnseen (insert d.ground_fact d.version seen) ds
  AreUnseen-insert seen d ds h k e i =
      let fresh : e.ground_fact ≢ d.ground_fact = k e i in
      let unseen : get seen e.ground_fact ≡ none = h e i in
      ground (
        arith,
        get-insert d.ground_fact e.ground_fact d.version seen,
        id_eq.same_iff e.ground_fact d.ground_fact,
      )

  valid_from_sound :
      (seen : Grounds) (ds : List Dependency)
      → valid_from seen ds current ≡ ok tt
      → AreUnseen seen ds × AreCurrent current ds × AreDistinct ds
  unfolding valid_from
  valid_from_sound seen [] h = (λ d i. elim i [ ], λ d i. elim i [ ], tt)
  valid_from_sound seen (d ∷ ds) h =
      let next : Grounds = insert d.ground_fact d.version seen in
      let (unseen, now, distinct) = valid_from_sound next ds (ground arith) in
      let mine : get current d.ground_fact ≡ some d.version =
        eq_of_not_bne (get current d.ground_fact) (some d.version) (ground arith) in
      let absent : get seen d.ground_fact ≡ none = ground arith in
      (
        λ e i. elim i [
          | here same ↦ rw (sym same) absent
          | there j ↦
              let f : get next e.ground_fact ≡ none = unseen e j in
              ground (arith, get-insert d.ground_fact e.ground_fact d.version seen)
        ],
        λ e i. elim i [ here same ↦ rw (sym same) mine | there j ↦ now e j ],
        (
          (λ e j q.
              let f : get next e.ground_fact ≡ none = unseen e j in
              ground (
                arith,
                get-insert d.ground_fact e.ground_fact d.version seen,
                id_eq.same_iff e.ground_fact d.ground_fact,
              )),
          distinct,
        ),
      )

  valid_from_complete :
      (seen : Grounds) (ds : List Dependency)
      → AreUnseen seen ds
      → AreCurrent current ds
      → AreDistinct ds
      → valid_from seen ds current ≡ ok tt
  unfolding valid_from
  valid_from_complete seen [] h k l = refl
  valid_from_complete seen (d ∷ ds) h k (fresh, l) =
      let rest : valid_from (insert d.ground_fact d.version seen) ds current ≡ ok tt =
        valid_from_complete (insert d.ground_fact d.version seen) ds
          (AreUnseen-insert seen d ds (λ e i. h e (there i)) fresh) (λ e i. k e (there i)) l in
      let now : get current d.ground_fact ≡ some d.version = k d (here refl) in
      let absent : get seen d.ground_fact ≡ none = h d (here refl) in
      ground (arith, option_eq.same_iff (get current d.ground_fact) (some d.version))

-- The check of dependencies passes exactly where no two are on the same ground and each is on the
-- version that its ground has now.
pub dependencies_valid_iff :
    (ds : List Dependency) (current : Grounds)
    → (dependencies_valid ds current ≡ ok tt) ↔ (AreCurrent current ds × AreDistinct ds)
unfolding dependencies_valid get
dependencies_valid_iff ds current = (
  λ h. let (_, now, distinct) = valid_from_sound current [] ds h in (now, distinct),
  λ (now, distinct). valid_from_complete current [] ds (λ d i. refl) now distinct,
)
