-- ===== src/Guarantees/Identities.antt =====
-- `from_bytes` and `as_bytes` of the identities of src/kernel/change/model.rs.
use changekernel.Base.{
  ℕ, zero, suc, ap, sym, ◌∙◌, ◌≢◌, ◌^◌, ◌<◌, ◌≡◌, refl, subst, true, ok, err, arith, List, [], ◌∷◌,
  inl, inr, Bool-cases,
}
use changekernel.Base.Lists.{length}
use changekernel.Kernel.Ids.{IdKind, Identifier, Error, from_bytes, as_bytes, is_zero_array}
use changekernel.Kernel.Ids.Bytes.{
  IsBytes, byte_value, byte_digits, value_rev, reverse_onto, digits-value, value-digits,
}

zero_reverse_onto :
    (xs ys : List ℕ)
    → is_zero_array xs ≡ true
    → value_rev ys ≡ 0
    → value_rev (reverse_onto xs ys) ≡ 0
zero_reverse_onto [] ys h k = k
zero_reverse_onto (x ∷ xs) ys h k = zero_reverse_onto xs (x ∷ ys) (ground arith) (ground (arith, k))

zero_value : (bs : List ℕ) → is_zero_array bs ≡ true → byte_value bs ≡ 0
zero_value bs h = zero_reverse_onto bs [] h refl

-- `[0; n]`
abbrev pub zeros : ℕ → List ℕ
zeros zero = []
zeros (suc n) = 0 ∷ zeros n

zero_array-eq : (xs : List ℕ) → is_zero_array xs ≡ true → xs ≡ zeros (length xs)
zero_array-eq [] h = refl
zero_array-eq (x ∷ xs) h =
    let first : x ≡ 0 = ground arith in
    ap (λ (t : ℕ). t ∷ xs) first ∙ ap (λ (t : List ℕ). 0 ∷ t) (zero_array-eq xs (ground arith))

-- What `from_bytes` answers on an array of sixteen bytes: an error on the zero array and on no other,
-- and else an identity that has these bytes.
pub data IsRead (k : IdKind) (bytes : List ℕ) : Type 0 where
  refused : bytes ≡ zeros 16 → from_bytes k bytes ≡ err Error.invalid → IsRead k bytes
  read :
      (a : Identifier k)
      → bytes ≢ zeros 16
      → from_bytes k bytes ≡ ok a
      → as_bytes a ≡ bytes
      → IsRead k bytes

-- An array of sixteen bytes is refused where it is all zero; where it is not, it gives an identity whose
-- bytes are the array again.
pub from_bytes-as_bytes :
    (k : IdKind) (bytes : List ℕ) → IsBytes bytes → length bytes ≡ 16 → IsRead k bytes
unfolding from_bytes as_bytes
from_bytes-as_bytes k bytes h len = elim (Bool-cases (is_zero_array bytes)) [
  | inl z ↦ IsRead.refused (zero_array-eq bytes z ∙ ap zeros len) (ground arith)
  | inr n ↦
      IsRead.read (record { value = byte_value bytes }) (λ e. cc (sym n ∙ ap is_zero_array e))
        (ground arith)
        (subst (λ n. byte_digits n (byte_value bytes) ≡ bytes) len (digits-value bytes h))
]

-- The bytes of an identity that is not zero and fits in sixteen bytes are read back as the identity.
pub as_bytes-from_bytes :
    (k : IdKind) (a : Identifier k)
    → 0 < a.value
    → a.value < 256 ^ 16
    → from_bytes k (as_bytes a) ≡ ok a
unfolding from_bytes as_bytes
as_bytes-from_bytes k a positive fits =
    let back : byte_value (byte_digits 16 a.value) ≡ a.value = value-digits 16 a.value fits in
    elim (Bool-cases (is_zero_array (byte_digits 16 a.value))) [
      | inl z ↦ absurd (omega (arith, zero_value (byte_digits 16 a.value) z, back, positive))
      | inr n ↦ rw (n, back) refl
    ]
