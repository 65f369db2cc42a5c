-- ===== src/Base/BTreeMap/Sorted.antt =====
-- The entries of a map stand in strictly ascending order of their keys, so each key has one entry.
use changekernel.Base.{◌≡◌, refl, true, none, some, [], ◌∷◌, arith, inl, inr, Bool-cases}
use changekernel.Base.Order.{Ord}
use changekernel.Base.Lists.{Member, here, there}
use changekernel.Base.BTreeMap.{BTreeMap, get, insert, values}

module _ {ℓ κ} {K : Type ℓ} {V : Type κ} ⦃o : Ord K⦄ where
  -- Every key of the map is above `k`.
  abbrev pub IsAbove : K → BTreeMap K V → Type 0
  IsAbove k [] = Unit
  IsAbove k ((j, w) ∷ m) = (o.blt k j ≡ true) × IsAbove k m

  abbrev pub IsSorted : BTreeMap K V → Type 0
  IsSorted [] = Unit
  IsSorted ((k, v) ∷ m) = IsAbove k m × IsSorted m

  IsAbove-trans : (k j : K) (m : BTreeMap K V) → o.blt k j ≡ true → IsAbove j m → IsAbove k m
  IsAbove-trans k j [] h a = tt
  IsAbove-trans k j ((i, w) ∷ m) h a = (o.total.blt_trans k j i h a.0, IsAbove-trans k j m h a.1)

  insert-IsAbove :
      (k j : K) (v : V) (m : BTreeMap K V)
      → o.blt k j ≡ true
      → IsAbove k m
      → IsAbove k (insert j v m)
  unfolding insert
  insert-IsAbove k j v [] h a = (h, tt)
  insert-IsAbove k j v ((i, w) ∷ m) h a = ground (arith, insert-IsAbove k j v m h a.1)

  pub insert-IsSorted : (k : K) (v : V) (m : BTreeMap K V) → IsSorted m → IsSorted (insert k v m)
  unfolding insert
  insert-IsSorted k v [] h = (tt, tt)
  insert-IsSorted k v ((j, w) ∷ m) h = elim (Bool-cases (o.eq.same k j)) [
    | inl e ↦ rw e h
    | inr ne ↦ elim (Bool-cases (o.blt k j)) [
      | inl lt ↦ rw (ne, lt) ((lt, IsAbove-trans k j m lt h.0), h)
      | inr ge ↦
          rw (ne, ge)
            (insert-IsAbove j k v m (o.total.blt_total k j ne ge) h.0, insert-IsSorted k v m h.1)
    ]
  ]

  get_of_IsAbove : (k : K) (m : BTreeMap K V) → IsAbove k m → get m k ≡ none
  unfolding get
  get_of_IsAbove k [] h = refl
  get_of_IsAbove k ((j, w) ∷ m) h =
      ground (arith, o.eq.same_iff k j, o.total.blt_irrefl k, get_of_IsAbove k m h.1)

  -- Lookup finds each entry of the map.
  pub get_of_Member :
      (k : K) (v : V) (m : BTreeMap K V)
      → IsSorted m
      → Member {A = K × V} (k, v) m
      → get m k ≡ some v
  unfolding get
  get_of_Member k v [] h e = elim e [ ]
  get_of_Member k v ((j, w) ∷ m) h (here e) = ground (arith, o.eq.same_iff k j)
  get_of_Member k v ((j, w) ∷ m) h (there e) =
      ground (arith, o.eq.same_iff k j, get_of_IsAbove j m h.0, get_of_Member k v m h.1 e)

  -- What is found is an entry.
  pub entry_of_get :
      (k : K) (v : V) (m : BTreeMap K V) → get m k ≡ some v → Member {A = K × V} (k, v) m
  unfolding get
  entry_of_get k v [] h = cc
  entry_of_get k v ((j, w) ∷ m) h = elim (Bool-cases (o.eq.same k j)) [
    | inl e ↦ here (ground (arith, o.eq.same_iff k j))
    | inr ne ↦ there (entry_of_get k v m (ground arith))
  ]

  -- The values of a map are those that lookup finds.
  pub get_of_value :
      (v : V) (m : BTreeMap K V) → IsSorted m → Member v (values m) → (k : K) × (get m k ≡ some v)
  get_of_value v m h e = let (k, i) = key m e in (k, get_of_Member k v m h i)
    where
      key : (m : BTreeMap K V) → Member v (values m) → (k : K) × Member {A = K × V} (k, v) m
      key [] e = elim e [ ]
      key ((k, w) ∷ m) (here e) = (k, here (ground arith))
      key ((k, w) ∷ m) (there e) = let (j, i) = key m e in (j, there i)
