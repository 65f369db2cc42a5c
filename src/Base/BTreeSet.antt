-- ===== src/Base/BTreeSet.antt =====
-- `std::collections::BTreeSet` as the list of its elements in ascending order.
use mathlib.Core.Path.{◌≡◌, refl}
use mathlib.Core.Logic.{inl, inr}
use mathlib.Core.Bool.{Bool, true, false, ◌||◌}
use mathlib.Core.List.{List, [], ◌∷◌}
use native.Mathlib.Omega.{arith}
use changekernel.Base.Tests.{if◌then◌else◌, Bool-cases}
use changekernel.Base.Order.{Ord}
use changekernel.Base.Lists.{all, Member, here, there}

abbrev pub BTreeSet {ℓ} : Type ℓ → Type ℓ
BTreeSet A = List A

module _ {ℓ} {A : Type ℓ} ⦃o : Ord A⦄ where
  unfoldable pub contains : BTreeSet A → A → Bool
  contains [] a = false
  contains (x ∷ xs) a = o.eq.same a x || contains xs a

  unfoldable pub insert : A → BTreeSet A → BTreeSet A
  insert a [] = a ∷ []
  insert a (x ∷ xs) =
      if o.eq.same a x then x ∷ xs else if o.blt a x then a ∷ x ∷ xs else x ∷ insert a xs

  -- `set.extend(items)`
  unfoldable pub extend : BTreeSet A → List A → BTreeSet A
  extend s [] = s
  extend s (x ∷ xs) = extend (insert x s) xs

  -- `items.collect()`
  unfoldable pub collect : List A → BTreeSet A
  unfolding extend
  collect xs = extend [] xs

  unfoldable pub is_subset : BTreeSet A → BTreeSet A → Bool
  is_subset s t = all (contains t) s

  -- Insertion adds its element and nothing else, also where the list is not in order.
  pub contains-insert :
      (a b : A) (s : BTreeSet A) → contains (insert a s) b ≡ (o.eq.same b a || contains s b)
  unfolding contains insert
  contains-insert a b [] = refl
  contains-insert a b (x ∷ xs) =
      ground
        (arith, o.eq.same_iff a x, o.eq.same_iff b a, o.eq.same_iff b x, contains-insert a b xs)

  pub contains-extend :
      (s : BTreeSet A) (xs : List A) (b : A)
      → contains (extend s xs) b ≡ (contains s b || contains xs b)
  unfolding extend contains
  contains-extend s [] b = ground arith
  contains-extend s (x ∷ xs) b =
      ground (arith, contains-extend (insert x s) xs b, contains-insert x b s)

  pub contains-collect : (xs : List A) (b : A) → contains (collect xs) b ≡ contains xs b
  unfolding collect contains
  contains-collect xs b = contains-extend [] xs b

  -- An element of a list is one that it contains.
  pub contains-Member : (xs : List A) (b : A) → Member b xs → contains xs b ≡ true
  unfolding contains
  contains-Member [] b m = elim m [ ]
  contains-Member (x ∷ xs) b (here e) = ground (arith, o.eq.same_iff b x)
  contains-Member (x ∷ xs) b (there m) = ground (arith, contains-Member xs b m)

  pub Member-contains : (xs : List A) (b : A) → contains xs b ≡ true → Member b xs
  unfolding contains
  Member-contains [] b h = absurd (cc)
  Member-contains (x ∷ xs) b h = elim (Bool-cases (o.eq.same b x)) [
    | inl e ↦ here (ground (arith, o.eq.same_iff b x))
    | inr ne ↦ there (Member-contains xs b (ground arith))
  ]
