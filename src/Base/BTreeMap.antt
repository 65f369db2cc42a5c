-- ===== src/Base/BTreeMap.antt =====
-- `std::collections::BTreeMap` as the list of its entries in ascending order of the keys.
pub mod Sorted
use Prim.Native.Nat.{suc}
use mathlib.Core.Path.{◌≡◌, refl}
use mathlib.Core.Logic.{◌⊎◌, inl, inr}
use mathlib.Core.Bool.{Bool}
use mathlib.Core.Option.{Option, none, some}
use mathlib.Core.List.{List, [], ◌∷◌}
use native.Mathlib.Omega.{arith}
use changekernel.Base.Tests.{if◌then◌else◌, is_some, Bool-cases}
use changekernel.Base.Order.{Ord}
use changekernel.Base.BTreeSet.{contains}
use changekernel.Base.Lists.{Member, here, there, length}

abbrev pub BTreeMap {ℓ κ} : Type ℓ → Type κ → Type (ℓ ⊔ κ)
BTreeMap K V = List (K × V)

module _ {ℓ κ} {K : Type ℓ} {V : Type κ} where
  abbrev pub keys : BTreeMap K V → List K
  keys [] = []
  keys ((k, v) ∷ m) = k ∷ keys m

  abbrev pub values : BTreeMap K V → List V
  values [] = []
  values ((k, v) ∷ m) = v ∷ values m

module _ {ℓ κ} {K : Type ℓ} {V : Type κ} ⦃o : Ord K⦄ where
  unfoldable pub get : BTreeMap K V → K → Option V
  get [] k = none
  get ((j, v) ∷ m) k = if o.eq.same k j then some v else get m k

  unfoldable pub insert : K → V → BTreeMap K V → BTreeMap K V
  insert k v [] = (k, v) ∷ []
  insert k v ((j, w) ∷ m) =
      if o.eq.same k j
      then (j, v) ∷ m
      else if o.blt k j
      then (k, v) ∷ (j, w) ∷ m
      else (j, w) ∷ insert k v m

  -- `map.extend(entries)`
  unfoldable pub extend : BTreeMap K V → List (K × V) → BTreeMap K V
  extend m [] = m
  extend m ((k, v) ∷ es) = extend (insert k v m) es

  abbrev pub contains_key : BTreeMap K V → K → Bool
  contains_key m k = is_some (get m k)

  pub get-insert :
      (k j : K) (v : V) (m : BTreeMap K V)
      → get (insert k v m) j ≡ (if o.eq.same j k then some v else get m j)
  unfolding get insert
  get-insert k j v [] = refl
  get-insert k j v ((i, w) ∷ m) =
      ground (arith, o.eq.same_iff k i, o.eq.same_iff j k, o.eq.same_iff j i, get-insert k j v m)

  pub get-insert_self : (k : K) (v : V) (m : BTreeMap K V) → get (insert k v m) k ≡ some v
  get-insert_self k v m = ground (arith, get-insert k k v m, o.eq.same_iff k k)

  -- After an extension a key has the value that it had, or one of the entries.
  pub extend_cases :
      (k : K) (m : BTreeMap K V) (es : List (K × V))
      → (get (extend m es) k ≡ get m k)
        ⊎ ((v : V) × Member {A = K × V} (k, v) es × (get (extend m es) k ≡ some v))
  unfolding extend
  extend_cases k m [] = inl refl
  extend_cases k m ((j, w) ∷ es) = elim (extend_cases k (insert j w m) es) [
    | inr (v, i, e) ↦ inr (v, there i, e)
    | inl e ↦ elim (Bool-cases (o.eq.same k j)) [
      | inl same ↦
          inr (w, here (ground (arith, o.eq.same_iff k j)), ground (arith, get-insert j k w m))
      | inr other ↦ inl (ground (arith, get-insert j k w m))
    ]
  ]

  pub contains-keys : (m : BTreeMap K V) (k : K) → contains (keys m) k ≡ contains_key m k
  unfolding contains get
  contains-keys [] k = refl
  contains-keys ((j, w) ∷ m) k = ground (arith, contains-keys m k)

  -- A new key makes the map longer by one.
  pub length-insert :
      (k : K) (v : V) (m : BTreeMap K V) → get m k ≡ none → length (insert k v m) ≡ suc (length m)
  unfolding get insert
  length-insert k v [] h = refl
  length-insert k v ((i, w) ∷ m) h = ground (arith, length-insert k v m)

  -- A value that is found is a value of the map.
  pub Member-get : (k : K) (v : V) (m : BTreeMap K V) → get m k ≡ some v → Member v (values m)
  unfolding get
  Member-get k v [] h = cc
  Member-get k v ((j, w) ∷ m) h = elim (Bool-cases (o.eq.same k j)) [
    | inl e ↦ here (ground arith)
    | inr e ↦ there (Member-get k v m (ground arith))
  ]
