-- ===== src/Codec/Varint/Exact.antt =====
-- Exactly what `varint` of src/adapters/codec/wire.rs reads, canonical or not.
use changekernel.Base.{
  ℕ, zero, suc, ◌+◌, ◌*◌, ◌%◌, ◌^◌, ◌≤◌, ◌<◌, ◌≡◌, ◌↔◌, ◌⊎◌, refl, ap, sym, ◌∙◌, subst, List, [],
  ◌∷◌, ◌++◌, ltb, ok, arith, inl, inr, Bool-cases,
}
use changekernel.Base.Lists.{length}
use changekernel.Kernel.Ids.Bytes.{IsBytes}
use changekernel.Codec.Bits.{low_bits, top_bit}
use changekernel.Codec.Varint.{add_group, varint_loop, varint}
use changekernel.Codec.Varint.Groups.{last_group, inner_group, next_shift}

-- Groups of seven bits, the lowest first: all but the last with the top bit set.
abbrev pub marked : List ℕ → ℕ → List ℕ
marked [] last = last ∷ []
marked (g ∷ gs) last = (g + 128) ∷ marked gs last

abbrev pub AreGroups : List ℕ → Type 0
AreGroups [] = Unit
AreGroups (g ∷ gs) = (g < 128) × AreGroups gs

-- The number that the groups stand for.
abbrev pub number : List ℕ → ℕ → ℕ
number [] last = last
number (g ∷ gs) last = g + 128 * number gs last

-- The input begins with the groups of `n`, at most `rounds` of them, and `rest` follows.
pub record Begins (rounds : ℕ) (input : List ℕ) (n : ℕ) (rest : List ℕ) : Type 0 where
  pub groups : List ℕ
  pub last : ℕ
  pub parts : input ≡ marked groups last ++ rest
  pub are_groups : AreGroups groups
  pub last_bound : last < 128
  pub count : length groups < rounds
  pub stands_for : n ≡ number groups last

low_power : (k shift : ℕ) → shift + 7 * k ≡ 63 → 2 ^ shift ≤ 2 ^ 63
low_power zero shift h = subst (λ (s : ℕ). 2 ^ s ≤ 2 ^ 63) {x = 63} (omega (arith, h)) (omega arith)
low_power (suc k) shift h =
    omega (arith, next_shift shift, low_power k (shift + 7) (omega (arith, h)))

-- From the left: groups whose number has 64 bits are read.
loop_reads :
    (k shift acc : ℕ) (gs : List ℕ) (last : ℕ) (rest : List ℕ)
    → shift + 7 * k ≡ 63
    → AreGroups gs
    → last < 128
    → length gs < suc k
    → acc + number gs last * 2 ^ shift < 2 ^ 64
    → varint_loop (suc k) shift acc (marked gs last ++ rest)
      ≡ ok (acc + number gs last * 2 ^ shift, rest)
loop_reads k shift acc [] last rest at are low few fits = last_group k shift acc last rest low fits
loop_reads zero shift acc (g ∷ gs) last rest at are low few fits = absurd (omega (arith, few))
loop_reads (suc k) shift acc (g ∷ gs) last rest at are low few fits =
    let m : ℕ = number gs last in
    let split : (g + 128 * m) * 2 ^ shift ≡ g * 2 ^ shift + m * 2 ^ (shift + 7) =
      omega (arith, ap (λ (t : ℕ). m * t) (next_shift shift)) in
    let first =
      inner_group (suc k) shift acc g (marked gs last ++ rest) are.0 (omega (arith, at))
        (omega (arith, split, fits)) in
    let others =
      loop_reads k (shift + 7) (acc + g * 2 ^ shift) gs last rest (omega (arith, at)) are.1 low
        (omega (arith, few)) (omega (arith, split, fits)) in
    first ∙ (others ∙ ap (λ (t : ℕ). ok (t, rest)) (omega (arith, split)))

-- One round that reads on or ends: not the tenth with a byte above one.
loop_step :
    (r shift acc b : ℕ) (bs : List ℕ) (n : ℕ) (rest : List ℕ)
    → b < 256
    → varint_loop (suc r) shift acc (b ∷ bs) ≡ ok (n, rest)
    → (shift ≡ 63 → b ≤ 1)
      × ((b < 128) × (n ≡ add_group acc b shift) × (rest ≡ bs)
          ⊎ (127 < b) × (varint_loop r (shift + 7) (add_group acc b shift) bs ≡ ok (n, rest)))
unfolding varint_loop
loop_step r shift acc b bs n rest h e = (
  ground arith,
  elim (Bool-cases (ltb b 128)) [
    | inl low ↦ inl (ground arith, ground (arith, top_bit b), ground (arith, top_bit b))
    | inr high ↦ inr (ground arith, ground (arith, top_bit b))
  ],
)

group_value :
    (acc b shift : ℕ)
    → b < 256
    → acc + b % 128 * 2 ^ shift < 2 ^ 64
    → add_group acc b shift ≡ acc + b % 128 * 2 ^ shift
group_value acc b shift h fits = ground (arith, low_bits b)

group_bound : (g w : ℕ) → g ≤ 127 → g * w ≤ 127 * w
group_bound g w h = grind arith

-- What is read stays below the next power.
next_bound : (acc b shift : ℕ) → acc < 2 ^ shift → acc + b % 128 * 2 ^ shift < 2 ^ (shift + 7)
next_bound acc b shift h =
    let group : b % 128 * 2 ^ shift ≤ 127 * 2 ^ shift =
      group_bound (b % 128) (2 ^ shift) (omega arith) in
    omega (arith, h, group, next_shift shift)

-- The last group of a number.
ends :
    (k shift acc b : ℕ) (bs : List ℕ) (n : ℕ) (rest : List ℕ)
    → b < 128
    → rest ≡ bs
    → n ≡ acc + b * 2 ^ shift
    → n < 2 ^ 64
    → (m : ℕ) × Begins (suc k) (b ∷ bs) m rest × (n ≡ acc + m * 2 ^ shift) × (n < 2 ^ 64)
ends k shift acc b bs n rest low left value wide = (
  b,
  record {
    groups = [];
    last = b;
    parts = ap (λ (t : List ℕ). b ∷ t) (sym left);
    are_groups = tt;
    last_bound = low;
    count = omega arith;
    stands_for = refl;
  },
  value,
  wide,
)

-- A group before the last.
goes_on :
    (k b : ℕ) (bs : List ℕ) (m : ℕ) (rest : List ℕ)
    → b < 256
    → 127 < b
    → Begins (suc k) bs m rest
    → Begins (suc (suc k)) (b ∷ bs) (b % 128 + 128 * m) rest
goes_on k b bs m rest h high x = record {
  groups = (b % 128) ∷ x.groups;
  last = x.last;
  parts =
      let top : b ≡ b % 128 + 128 = omega (arith, h, high) in
      ap (λ (t : ℕ). t ∷ bs) top ∙ ap (λ (t : List ℕ). (b % 128 + 128) ∷ t) x.parts;
  are_groups = (omega arith, x.are_groups);
  last_bound = x.last_bound;
  count = omega (arith, x.count);
  stands_for = ap (λ (t : ℕ). b % 128 + 128 * t) x.stands_for;
}

loop-Begins :
    (k shift acc : ℕ) (input : List ℕ) (n : ℕ) (rest : List ℕ)
    → shift + 7 * k ≡ 63
    → acc < 2 ^ shift
    → IsBytes input
    → varint_loop (suc k) shift acc input ≡ ok (n, rest)
    → (m : ℕ) × Begins (suc k) input m rest × (n ≡ acc + m * 2 ^ shift) × (n < 2 ^ 64)
unfolding varint_loop
loop-Begins k shift acc [] n rest at small bytes h = absurd (cc)
loop-Begins zero shift acc (b ∷ bs) n rest at small bytes h =
    let (tenth, way) = loop_step zero shift acc b bs n rest bytes.0 h in
    let top : shift ≡ 63 = omega (arith, at) in
    let below : acc < 2 ^ 63 = subst (λ (s : ℕ). acc < 2 ^ s) top small in
    let bit : b ≤ 1 = tenth top in
    let power : 2 ^ shift ≡ 2 ^ 63 = ap (λ (s : ℕ). 2 ^ s) top in
    let one : b % 128 ≡ b = omega (arith, bit) in
    let scaled : b * 2 ^ shift ≡ b * 2 ^ 63 = ap (λ (w : ℕ). b * w) power in
    let same : b % 128 * 2 ^ shift ≡ b * 2 ^ shift = ap (λ (g : ℕ). g * 2 ^ shift) one in
    let fits : acc + b % 128 * 2 ^ shift < 2 ^ 64 = omega (arith, same, scaled, bit, below) in
    elim way [
      | inl (low, value, left) ↦
          ends zero shift acc b bs n rest low left
            (value ∙ (group_value acc b shift bytes.0 fits ∙ ap (λ (t : ℕ). acc + t) same))
            (omega (arith, value, group_value acc b shift bytes.0 fits, fits))
      | inr (high, more) ↦ absurd (omega (arith, high, bit))
    ]
loop-Begins (suc k) shift acc (b ∷ bs) n rest at small bytes h =
    let (_, way) = loop_step (suc k) shift acc b bs n rest bytes.0 h in
    let power = low_power k (shift + 7) (omega (arith, at)) in
    let next = next_bound acc b shift small in
    let fits : acc + b % 128 * 2 ^ shift < 2 ^ 64 = omega (arith, power, next) in
    let value_now = group_value acc b shift bytes.0 fits in
    elim way [
      | inl (low, value, left) ↦
          let same : b % 128 * 2 ^ shift ≡ b * 2 ^ shift =
            ap (λ (g : ℕ). g * 2 ^ shift) (omega (arith, low)) in
          ends (suc k) shift acc b bs n rest low left
            (value ∙ (value_now ∙ ap (λ (t : ℕ). acc + t) same))
            (omega (arith, value, value_now, fits))
      | inr (high, more) ↦
          let (m, x, same, wide) =
            loop-Begins k (shift + 7) (add_group acc b shift) bs n rest (omega (arith, at))
              (omega (arith, value_now, next)) bytes.1 more in
          let split : (b % 128 + 128 * m) * 2 ^ shift ≡ b % 128 * 2 ^ shift + m * 2 ^ (shift + 7) =
            omega (arith, ap (λ (t : ℕ). m * t) (next_shift shift)) in
          (
            b % 128 + 128 * m,
            goes_on k b bs m rest bytes.0 high x,
            omega (arith, same, value_now, split),
            wide,
          )
    ]

-- On bytes, `varint` reads a number and leaves a rest exactly where the input begins with one to ten
-- groups of seven bits, all but the last with the top bit set, the lowest first, whose number is this
-- one and has 64 bits, and the rest follows them.
pub varint_iff :
    (input : List ℕ) (n : ℕ) (rest : List ℕ)
    → IsBytes input
    → (varint input ≡ ok (n, rest)) ↔ (Begins 10 input n rest × (n < 2 ^ 64))
unfolding varint
varint_iff input n rest bytes = (
  λ h.
      let (m, x, same, wide) = loop-Begins 9 0 0 input n rest refl (omega arith) bytes h in
      let value : n ≡ m = omega (arith, same) in
      (subst (λ (t : ℕ). Begins 10 input t rest) (sym value) x, wide),
  λ (x, wide).
      let value : 0 + number x.groups x.last * 2 ^ 0 ≡ n = omega (arith, x.stands_for) in
      let read =
        loop_reads 9 0 0 x.groups x.last rest refl x.are_groups x.last_bound x.count
          (omega (arith, value, wide)) in
      subst (λ (t : List ℕ). varint_loop 10 0 0 t ≡ ok (n, rest)) (sym x.parts)
        (read ∙ ap (λ (t : ℕ). ok (t, rest)) value),
)
