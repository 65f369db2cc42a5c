-- ===== src/Base/Lists.antt =====
-- Lists measured by native numbers, and the iterator adaptors `any`, `all` and `find`.
use Prim.Native.Nat.{ℕ, zero, suc, ◌+◌, ◌≤◌}
use mathlib.Core.Path.{◌≡◌, refl, ap}
use mathlib.Core.Bool.{Bool, true, false, ◌&&◌, ◌||◌}
use mathlib.Core.Option.{Option, none, some}
use mathlib.Core.Logic.{inl, inr}
use changekernel.Base.Tests.{if◌then◌else◌, Bool-cases}
use mathlib.Core.List.{List, [], ◌∷◌, ◌++◌}
use native.Mathlib.Omega.{arith}

module _ {ℓ} {A : Type ℓ} where
  abbrev pub length : List A → ℕ
  length [] = 0
  length (x ∷ xs) = suc (length xs)

  abbrev pub is_empty : List A → Bool
  is_empty [] = true
  is_empty (x ∷ xs) = false

  abbrev pub find : (A → Bool) → List A → Option A
  find p [] = none
  find p (x ∷ xs) = if p x then some x else find p xs

  abbrev pub any : (A → Bool) → List A → Bool
  any p [] = false
  any p (x ∷ xs) = p x || any p xs

  abbrev pub all : (A → Bool) → List A → Bool
  all p [] = true
  all p (x ∷ xs) = p x && all p xs

  abbrev pub filter : (A → Bool) → List A → List A
  filter p [] = []
  filter p (x ∷ xs) = let rest = filter p xs in elim (p x) [ true ↦ x ∷ rest | false ↦ rest ]

  abbrev pub flat_map {κ} : {B : Type κ} → (A → List B) → List A → List B
  flat_map f [] = []
  flat_map f (x ∷ xs) = f x ++ flat_map f xs

  -- `&xs[..n]` and `&xs[n..]`
  abbrev pub take : ℕ → List A → List A
  take zero xs = []
  take (suc n) [] = []
  take (suc n) (x ∷ xs) = x ∷ take n xs

  abbrev pub drop : ℕ → List A → List A
  drop zero xs = xs
  drop (suc n) [] = []
  drop (suc n) (x ∷ xs) = drop n xs

  -- Membership, with its place kept.
  pub data Member (a : A) : List A → Type ℓ where
    here : {x : A} {xs : List A} → x ≡ a → Member a (x ∷ xs)
    there : {x : A} {xs : List A} → Member a xs → Member a (x ∷ xs)

  pub length-append : (xs ys : List A) → length (xs ++ ys) ≡ length xs + length ys
  length-append [] ys = omega arith
  length-append (x ∷ xs) ys = omega (arith, length-append xs ys)

  pub length-take : (n : ℕ) (xs : List A) → n ≤ length xs → length (take n xs) ≡ n
  length-take zero xs h = refl
  length-take (suc n) [] h = absurd (omega arith)
  length-take (suc n) (x ∷ xs) h = ap suc (length-take n xs (omega arith))

  pub length-drop : (n : ℕ) (xs : List A) → n ≤ length xs → length (drop n xs) + n ≡ length xs
  length-drop zero xs h = omega arith
  length-drop (suc n) [] h = absurd (omega arith)
  length-drop (suc n) (x ∷ xs) h = omega (arith, length-drop n xs (omega arith))

  pub take-append : (xs ys : List A) → take (length xs) (xs ++ ys) ≡ xs
  take-append [] ys = refl
  take-append (x ∷ xs) ys = ap (λ (r : List A). x ∷ r) (take-append xs ys)

  pub drop-append : (xs ys : List A) → drop (length xs) (xs ++ ys) ≡ ys
  drop-append [] ys = refl
  drop-append (x ∷ xs) ys = drop-append xs ys

  pub all-Member : (p : A → Bool) (a : A) (xs : List A) → all p xs ≡ true → Member a xs → p a ≡ true
  all-Member p a [] h m = elim m [ ]
  all-Member p a (x ∷ xs) h (here e) = ground (arith, ap p e)
  all-Member p a (x ∷ xs) h (there m) = all-Member p a xs (ground arith) m

  pub find-Member :
      (p : A → Bool) (xs : List A) {a : A} → find p xs ≡ some a → Member a xs × (p a ≡ true)
  find-Member p [] h = absurd (cc)
  find-Member p (x ∷ xs) h = elim (Bool-cases (p x)) [
    | inl e ↦ (here (ground arith), ground arith)
    | inr e ↦ let (m, q) = find-Member p xs (ground arith) in (there m, q)
  ]

  pub any-Member :
      (p : A → Bool) (xs : List A) → any p xs ≡ true → (a : A) × Member a xs × (p a ≡ true)
  any-Member p [] h = cc
  any-Member p (x ∷ xs) h =
      elim (p x) as (λ b. p x ≡ b → (a : A) × Member a (x ∷ xs) × (p a ≡ true)) [
        | true ↦ λ e. (x, here refl, e)
        | false ↦ λ e. let (a, m, q) = any-Member p xs (ground arith) in (a, there m, q)
      ]
        refl

  pub any_of_Member :
      (p : A → Bool) (a : A) (xs : List A) → Member a xs → p a ≡ true → any p xs ≡ true
  any_of_Member p a [] m h = elim m [ ]
  any_of_Member p a (x ∷ xs) (here e) h = ground (arith, ap p e)
  any_of_Member p a (x ∷ xs) (there m) h = ground (arith, any_of_Member p a xs m h)
