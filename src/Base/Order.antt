-- ===== src/Base/Order.antt =====
-- The derived `PartialEq` and `Ord` of the program's types. A type that is flat is ordered by the
-- numbers of its fields in their order, which is the order that `derive` gives.
use Prim.Native.Nat.{ℕ}
use mathlib.Core.Path.{◌≡◌, refl, ap}
use mathlib.Core.Logic.{◌↔◌}
use mathlib.Core.Bool.{Bool, true, false, ◌&&◌, ◌||◌}
use mathlib.Core.Option.{Option, none, some}
use mathlib.Core.List.{List, [], ◌∷◌}
use native.Mathlib.Omega.{arith}
use changekernel.Base.Tests.{ltb, eqb, eqb_iff}

pub record PartialEq {ℓ} (A : Type ℓ) : Type ℓ where
  pub same : A → A → Bool
  pub same_iff : (x y : A) → (same x y ≡ true) ↔ (x ≡ y)

infix 50 ◌==◌ ◌!=◌
abbrev pub ◌==◌ {ℓ} : {A : Type ℓ} ⦃e : PartialEq A⦄ → A → A → Bool
◌==◌ ⦃e⦄ = e.same

abbrev pub negate : Bool → Bool
negate true = false
negate false = true

abbrev pub ◌!=◌ {ℓ} : {A : Type ℓ} ⦃e : PartialEq A⦄ → A → A → Bool
a != b = negate (a == b)

-- A strict total order that agrees with the equality.
pub record IsTotal {ℓ} {A : Type ℓ} (beq blt : A → A → Bool) : Type ℓ where
  pub blt_irrefl : (a : A) → blt a a ≡ false
  pub blt_trans : (a b c : A) → blt a b ≡ true → blt b c ≡ true → blt a c ≡ true
  pub blt_total : (a b : A) → beq a b ≡ false → blt a b ≡ false → blt b a ≡ true

pub record Ord {ℓ} (A : Type ℓ) : Type ℓ where
  pub eq : PartialEq A
  pub blt : A → A → Bool
  pub total : IsTotal (eq.same) blt

instance abbrev pub nat_eq : PartialEq ℕ
nat_eq = record { same = eqb; same_iff = eqb_iff }

module _ {ℓ} {A : Type ℓ} ⦃e : PartialEq A⦄ where
  abbrev pub list_beq : List A → List A → Bool
  list_beq [] [] = true
  list_beq [] (y ∷ ys) = false
  list_beq (x ∷ xs) [] = false
  list_beq (x ∷ xs) (y ∷ ys) = x == y && list_beq xs ys

  pub list_beq_iff : (xs ys : List A) → (list_beq xs ys ≡ true) ↔ (xs ≡ ys)
  list_beq_iff [] [] = ground arith
  list_beq_iff [] (y ∷ ys) = ground arith
  list_beq_iff (x ∷ xs) [] = ground arith
  list_beq_iff (x ∷ xs) (y ∷ ys) = ground (arith, e.same_iff x y, list_beq_iff xs ys)

  abbrev pub option_beq : Option A → Option A → Bool
  option_beq none none = true
  option_beq none (some b) = false
  option_beq (some a) none = false
  option_beq (some a) (some b) = a == b

  pub option_beq_iff : (a b : Option A) → (option_beq a b ≡ true) ↔ (a ≡ b)
  option_beq_iff none none = ground arith
  option_beq_iff none (some b) = ground arith
  option_beq_iff (some a) none = ground arith
  option_beq_iff (some a) (some b) = ground (arith, e.same_iff a b)

  instance abbrev pub list_eq : PartialEq (List A)
  list_eq = record { same = list_beq; same_iff = list_beq_iff }

  instance abbrev pub option_eq : PartialEq (Option A)
  option_eq = record { same = option_beq; same_iff = option_beq_iff }

-- The lexicographic order of the iterators.
abbrev pub list_blt : List ℕ → List ℕ → Bool
list_blt [] [] = false
list_blt [] (y ∷ ys) = true
list_blt (x ∷ xs) [] = false
list_blt (x ∷ xs) (y ∷ ys) = ltb x y || (eqb x y && list_blt xs ys)

pub list_blt_irrefl : (xs : List ℕ) → list_blt xs xs ≡ false
list_blt_irrefl [] = refl
list_blt_irrefl (x ∷ xs) = ground (arith, list_blt_irrefl xs)

pub list_blt_trans :
    (xs ys zs : List ℕ) → list_blt xs ys ≡ true → list_blt ys zs ≡ true → list_blt xs zs ≡ true
list_blt_trans [] [] zs h k = cc
list_blt_trans [] (y ∷ ys) [] h k = cc
list_blt_trans [] (y ∷ ys) (z ∷ zs) h k = refl
list_blt_trans (x ∷ xs) [] zs h k = cc
list_blt_trans (x ∷ xs) (y ∷ ys) [] h k = cc
list_blt_trans (x ∷ xs) (y ∷ ys) (z ∷ zs) h k = ground (arith, list_blt_trans xs ys zs)

pub list_blt_total :
    (xs ys : List ℕ) → list_beq xs ys ≡ false → list_blt xs ys ≡ false → list_blt ys xs ≡ true
list_blt_total [] [] h k = cc
list_blt_total [] (y ∷ ys) h k = cc
list_blt_total (x ∷ xs) [] h k = refl
list_blt_total (x ∷ xs) (y ∷ ys) h k = ground (arith, list_blt_total xs ys)

-- Equality and order by a list of numbers that determines the value.
module _ {ℓ} {A : Type ℓ} (codes : A → List ℕ) (inj : (a b : A) → codes a ≡ codes b → a ≡ b) where
  abbrev pub codes_beq : A → A → Bool
  codes_beq a b = list_beq (codes a) (codes b)

  pub codes_beq_iff : (a b : A) → (codes_beq a b ≡ true) ↔ (a ≡ b)
  codes_beq_iff a b = (
    λ h. inj a b ((list_beq_iff (codes a) (codes b)).0 h),
    λ e. (list_beq_iff (codes a) (codes b)).1 (ap codes e),
  )

  abbrev pub eq_by_codes : PartialEq A
  eq_by_codes = record { same = codes_beq; same_iff = codes_beq_iff }

  pub codes-IsTotal : IsTotal codes_beq (λ a b. list_blt (codes a) (codes b))
  codes-IsTotal = record {
    blt_irrefl = λ a. list_blt_irrefl (codes a);
    blt_trans = λ a b c. list_blt_trans (codes a) (codes b) (codes c);
    blt_total = λ a b. list_blt_total (codes a) (codes b);
  }

  abbrev pub ord_by_codes : Ord A
  ord_by_codes = record {
    eq = eq_by_codes;
    blt = λ a b. list_blt (codes a) (codes b);
    total = codes-IsTotal;
  }

module _ {ℓ} {A : Type ℓ} ⦃e : PartialEq A⦄ where
  pub beq_refl : (a : A) → (a == a) ≡ true
  beq_refl a = (e.same_iff a a).1 refl

  pub bne_refl : (a : A) → (a != a) ≡ false
  bne_refl a = rw (beq_refl a) refl

  pub eq_of_beq : (a b : A) → (a == b) ≡ true → a ≡ b
  eq_of_beq a b h = (e.same_iff a b).0 h

  pub eq_of_not_bne : (a b : A) → (a != b) ≡ false → a ≡ b
  eq_of_not_bne a b h = ground (arith, e.same_iff a b)
