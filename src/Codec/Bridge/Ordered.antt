-- ===== src/Codec/Bridge/Ordered.antt =====
-- Sets and maps that are filled in ascending order.
use changekernel.Base.{◌≡◌, refl, List, [], ◌∷◌, ◌++◌, none, true, false, arith}
use changekernel.Base.Order.{Ord}
use changekernel.Base.BTreeSet.{BTreeSet, contains}
use changekernel.Base.BTreeSet
use changekernel.Base.BTreeMap.{BTreeMap, get}
use changekernel.Base.BTreeMap

module _ {A : Type 0} ⦃o : Ord A⦄ where
  -- Every element of the set is below `a`.
  abbrev pub AllBelow : BTreeSet A → A → Type 0
  AllBelow [] a = Unit
  AllBelow (x ∷ xs) a = (o.blt x a ≡ true) × AllBelow xs a

  -- Each element is above those of the set and those before it.
  abbrev pub Follows : BTreeSet A → List A → Type 0
  Follows s [] = Unit
  Follows s (a ∷ rest) = AllBelow s a × Follows (s ++ (a ∷ [])) rest

  -- The elements of a set stand in ascending order.
  abbrev pub IsAscending : BTreeSet A → Type 0
  IsAscending s = Follows [] s

  blt_apart : (x a : A) → o.blt x a ≡ true → (o.eq.same a x ≡ false) × (o.blt a x ≡ false)
  blt_apart x a h = (
    ground (arith, o.eq.same_iff a x, o.total.blt_irrefl x),
    ground (arith, o.total.blt_trans a x a, o.total.blt_irrefl a),
  )

  pub absent_below : (s : BTreeSet A) (a : A) → AllBelow s a → contains s a ≡ false
  unfolding contains
  absent_below [] a h = refl
  absent_below (x ∷ xs) a h = ground (arith, blt_apart x a h.0, absent_below xs a h.1)

  pub insert_last : (s : BTreeSet A) (a : A) → AllBelow s a → BTreeSet.insert a s ≡ s ++ (a ∷ [])
  unfolding BTreeSet.insert
  insert_last [] a h = refl
  insert_last (x ∷ xs) a h = ground (arith, blt_apart x a h.0, insert_last xs a h.1)

module _ {K V : Type 0} ⦃o : Ord K⦄ where
  abbrev pub AllKeysBelow : BTreeMap K V → K → Type 0
  AllKeysBelow [] k = Unit
  AllKeysBelow ((j, w) ∷ m) k = (o.blt j k ≡ true) × AllKeysBelow m k

  abbrev pub FollowsKeys : BTreeMap K V → List (K × V) → Type 0
  FollowsKeys m [] = Unit
  FollowsKeys m ((k, v) ∷ rest) = AllKeysBelow m k × FollowsKeys (m ++ ((k, v) ∷ [])) rest

  -- The keys of a map stand in ascending order.
  abbrev pub IsAscendingMap : BTreeMap K V → Type 0
  IsAscendingMap m = FollowsKeys [] m

  pub missing_below : (m : BTreeMap K V) (k : K) → AllKeysBelow m k → get m k ≡ none
  unfolding get
  missing_below [] k h = refl
  missing_below ((j, w) ∷ m) k h = ground (arith, blt_apart j k h.0, missing_below m k h.1)

  pub insert_last_entry :
      (m : BTreeMap K V) (k : K) (v : V)
      → AllKeysBelow m k
      → BTreeMap.insert k v m ≡ m ++ ((k, v) ∷ [])
  unfolding BTreeMap.insert
  insert_last_entry [] k v h = refl
  insert_last_entry ((j, w) ∷ m) k v h =
      ground (arith, blt_apart j k h.0, insert_last_entry m k v h.1)
