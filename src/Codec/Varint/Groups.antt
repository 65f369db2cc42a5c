-- ===== src/Codec/Varint/Groups.antt =====
-- `varint` and `chunk` of src/adapters/codec/wire.rs against the groups of seven bits of Protobuf.
use native.Mathlib.Nat.{div-add-mod}
use native.Mathlib.Numerals.{towards_suc}
use changekernel.Base.{
  ℕ, zero, suc, ◌+◌, ◌*◌, ◌/◌, ◌%◌, ◌^◌, ◌≤◌, ◌<◌, ◌≡◌, ◌≢◌, ap, List, [], ◌∷◌, ◌++◌, leb, ltb, ok,
  arith, inl, inr, Result-cases, Bool-cases, subst, if◌then◌else◌,
}
use changekernel.Base.Lists.{
  length, length-append, take, drop, length-take, length-drop, take-append, drop-append,
}
use changekernel.Codec.Bits.{low_bits, top_bit}
use changekernel.Codec.Varint.{add_group, varint_loop, varint, chunk}

-- A number in groups of seven bits, the lowest first, all but the last with the top bit set.
unfoldable pub groups : ℕ → ℕ → List ℕ
groups zero n = n ∷ []
groups (suc more) n =
    let rest = groups more (n / 128) in if ltb n 128 then n ∷ [] else (n % 128 + 128) ∷ rest

-- Ten groups hold 64 bits.
abbrev pub encoded : ℕ → List ℕ
encoded n = groups 9 n

pub last_group :
    (rounds shift acc n : ℕ) (rest : List ℕ)
    → n < 128
    → acc + n * 2 ^ shift < 2 ^ 64
    → varint_loop (suc rounds) shift acc (n ∷ rest) ≡ ok (acc + n * 2 ^ shift, rest)
unfolding varint_loop
last_group rounds shift acc n rest h fits = ground (arith, low_bits n, top_bit n)

pub inner_group :
    (rounds shift acc g : ℕ) (rest : List ℕ)
    → g < 128
    → shift ≢ 63
    → acc + g * 2 ^ shift < 2 ^ 64
    → varint_loop (suc rounds) shift acc ((g + 128) ∷ rest)
      ≡ varint_loop rounds (shift + 7) (acc + g * 2 ^ shift) rest
unfolding varint_loop
inner_group rounds shift acc g rest h s fits = ground (arith, low_bits (g + 128), top_bit (g + 128))

pub next_shift : (s : ℕ) → 2 ^ (s + 7) ≡ 128 * 2 ^ s
next_shift s = simp towards_suc (omega arith)

-- The lowest group of `n` and the rest, from the bit `s` on.
lowest_group : (n s : ℕ) → n * 2 ^ s ≡ n % 128 * 2 ^ s + n / 128 * 2 ^ (s + 7)
lowest_group n s = omega (
  arith,
  ap (λ (t : ℕ). t * 2 ^ s) (div-add-mod n 128),
  ap (λ (t : ℕ). n / 128 * t) (next_shift s),
)

loop-groups :
    (k shift acc n : ℕ) (rest : List ℕ)
    → shift + 7 * k ≡ 63
    → acc + n * 2 ^ shift < 2 ^ 64
    → varint_loop (suc k) shift acc (groups k n ++ rest) ≡ ok (acc + n * 2 ^ shift, rest)
unfolding groups
loop-groups zero shift acc n rest at fits =
    let top : shift ≡ 63 = omega (arith, at) in
    let high : acc + n * 2 ^ 63 < 2 ^ 64 = subst (λ (s : ℕ). acc + n * 2 ^ s < 2 ^ 64) top fits in
    last_group 0 shift acc n rest (omega (arith, high)) fits
loop-groups (suc k) shift acc n rest at fits = ground (
  arith,
  last_group (suc k) shift acc n rest,
  lowest_group n shift,
  inner_group (suc k) shift acc (n % 128) (groups k (n / 128) ++ rest),
  loop-groups k (shift + 7) (acc + n % 128 * 2 ^ shift) (n / 128) rest,
)

-- A number of 64 bits, in groups of seven bits, is read back, whatever follows it.
pub varint-encoded :
    (n : ℕ) (rest : List ℕ) → n < 2 ^ 64 → varint (encoded n ++ rest) ≡ ok (n, rest)
unfolding varint
varint-encoded n rest h = ground (arith, loop-groups 9 0 0 n rest)

loop_takes :
    (rounds shift acc : ℕ) (input : List ℕ) (n : ℕ) (rest : List ℕ)
    → varint_loop rounds shift acc input ≡ ok (n, rest)
    → (n < 2 ^ 64) × (length rest < length input) × (length input ≤ length rest + rounds)
unfolding varint_loop
loop_takes zero shift acc input n rest h = absurd (cc)
loop_takes (suc rounds) shift acc [] n rest h = absurd (cc)
loop_takes (suc rounds) shift acc (b ∷ bs) n rest h =
    ground (arith, loop_takes rounds (shift + 7) (add_group acc b shift) bs n rest)

-- What `varint` reads is a number of 64 bits, and takes one to ten bytes.
pub varint_takes :
    (input : List ℕ) (n : ℕ) (rest : List ℕ)
    → varint input ≡ ok (n, rest)
    → (n < 2 ^ 64) × (length rest < length input) × (length input ≤ length rest + 10)
unfolding varint
varint_takes input n rest h = loop_takes 10 0 0 input n rest h

chunk_split :
    (input : List ℕ) (n : ℕ) (rest : List ℕ)
    → n ≤ length rest
    → varint input ≡ ok (n, rest)
    → chunk input ≡ ok (take n rest, drop n rest)
unfolding chunk
chunk_split input n rest h e = rw e (ground arith)

-- A byte string after its length is read back, whatever follows it.
pub chunk-encoded :
    (part rest : List ℕ)
    → length part < 2 ^ 64
    → chunk (encoded (length part) ++ (part ++ rest)) ≡ ok (part, rest)
chunk-encoded part rest h =
    let split =
      chunk_split (encoded (length part) ++ (part ++ rest)) (length part) (part ++ rest)
        (omega (arith, length-append part rest)) (varint-encoded (length part) (part ++ rest) h) in
    rw (take-append part rest, drop-append part rest) at split

-- What `chunk` reads is shorter than what it takes from the input.
pub chunk_takes :
    (input part rest : List ℕ)
    → chunk input ≡ ok (part, rest)
    → length part + length rest < length input
unfolding chunk
chunk_takes input part rest h = elim (Result-cases (varint input)) [
  | inr (e, f) ↦ absurd (ground arith)
  | inl ((n, tail), f) ↦ elim (Bool-cases (leb n (length tail))) [
    | inr past ↦ absurd (ground arith)
    | inl fits ↦
        let (_, shorter, _) = varint_takes input n tail f in
        let within : n ≤ length tail = ground arith in
        let parts : take n tail ≡ part = ground arith in
        let left : drop n tail ≡ rest = ground arith in
        let whole : length (drop n tail) + n ≡ length tail = length-drop n tail within in
        let size : length (take n tail) ≡ n = length-take n tail within in
        omega (arith, shorter, whole, size, ap length parts, ap length left)
  ]
]
