-- ===== src/Kernel/Ids/Bytes.antt =====
-- Byte arrays as big-endian numbers, the representation of the identities.
use native.Mathlib.Nat.{pow-suc}
use changekernel.Base.{
  ◌∙◌, ℕ, zero, suc, ◌+◌, ◌*◌, ◌/◌, ◌%◌, ◌^◌, ◌<◌, ◌≡◌, refl, ap, List, [], ◌∷◌, ◌++◌, arith,
}
use changekernel.Base.Lists.{length}

-- From the last byte to the first, so that a step is a division by 256.
abbrev pub value_rev : List ℕ → ℕ
value_rev [] = 0
value_rev (b ∷ bs) = b + 256 * value_rev bs

abbrev pub digits_rev : ℕ → ℕ → List ℕ
digits_rev zero n = []
digits_rev (suc k) n = (n % 256) ∷ digits_rev k (n / 256)

abbrev pub reverse_onto : List ℕ → List ℕ → List ℕ
reverse_onto [] ys = ys
reverse_onto (x ∷ xs) ys = reverse_onto xs (x ∷ ys)

abbrev pub byte_value : List ℕ → ℕ
byte_value bs = value_rev (reverse_onto bs [])

abbrev pub byte_digits : ℕ → ℕ → List ℕ
byte_digits k n = reverse_onto (digits_rev k n) []

abbrev pub IsBytes : List ℕ → Type 0
IsBytes [] = Unit
IsBytes (b ∷ bs) = (b < 256) × IsBytes bs

reverse_onto-IsBytes : (xs ys : List ℕ) → IsBytes xs → IsBytes ys → IsBytes (reverse_onto xs ys)
reverse_onto-IsBytes [] ys h k = k
reverse_onto-IsBytes (x ∷ xs) ys h k = reverse_onto-IsBytes xs (x ∷ ys) h.1 (h.0, k)

reverse_onto_twice :
    (xs ys zs : List ℕ) → reverse_onto (reverse_onto xs ys) zs ≡ reverse_onto ys (xs ++ zs)
reverse_onto_twice [] ys zs = refl
reverse_onto_twice (x ∷ xs) ys zs = reverse_onto_twice xs (x ∷ ys) zs

append_nil : (xs : List ℕ) → xs ++ [] ≡ xs
append_nil [] = refl
append_nil (x ∷ xs) = ap (λ (r : List ℕ). x ∷ r) (append_nil xs)

length-reverse_onto : (xs ys : List ℕ) → length (reverse_onto xs ys) ≡ length xs + length ys
length-reverse_onto [] ys = omega arith
length-reverse_onto (x ∷ xs) ys = omega (arith, length-reverse_onto xs (x ∷ ys))

digits_rev-value_rev : (bs : List ℕ) → IsBytes bs → digits_rev (length bs) (value_rev bs) ≡ bs
digits_rev-value_rev [] h = refl
digits_rev-value_rev (b ∷ bs) h =
    let low : (b + 256 * value_rev bs) % 256 ≡ b = omega arith in
    let high : (b + 256 * value_rev bs) / 256 ≡ value_rev bs = omega arith in
    rw (low, high) (ap (λ (r : List ℕ). b ∷ r) (digits_rev-value_rev bs h.1))

value_rev-digits_rev : (k n : ℕ) → n < 256 ^ k → value_rev (digits_rev k n) ≡ n
value_rev-digits_rev zero n h = omega arith
value_rev-digits_rev (suc k) n h =
    let power : 256 ^ suc k ≡ 256 ^ k * 256 = pow-suc 256 k in
    rw (value_rev-digits_rev k (n / 256) (omega arith)) (omega arith)

reverse_onto_self : (xs : List ℕ) → reverse_onto (reverse_onto xs []) [] ≡ xs
reverse_onto_self xs = reverse_onto_twice xs [] [] ∙ append_nil xs

-- The digits of the value of a byte array are the array.
pub digits-value : (bs : List ℕ) → IsBytes bs → byte_digits (length bs) (byte_value bs) ≡ bs
digits-value bs h =
    let len : length bs ≡ length (reverse_onto bs []) = omega (arith, length-reverse_onto bs []) in
    let digits = digits_rev-value_rev (reverse_onto bs []) (reverse_onto-IsBytes bs [] h tt) in
    rw (len, digits) (reverse_onto_self bs)

pub value-digits : (k n : ℕ) → n < 256 ^ k → byte_value (byte_digits k n) ≡ n
value-digits k n h = rw (reverse_onto_self (digits_rev k n)) (value_rev-digits_rev k n h)

length-digits_rev : (k n : ℕ) → length (digits_rev k n) ≡ k
length-digits_rev zero n = refl
length-digits_rev (suc k) n = ap suc (length-digits_rev k (n / 256))

pub length-digits : (k n : ℕ) → length (byte_digits k n) ≡ k
length-digits k n = omega (arith, length-reverse_onto (digits_rev k n) [], length-digits_rev k n)
