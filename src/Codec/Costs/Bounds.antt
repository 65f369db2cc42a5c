-- ===== src/Codec/Costs/Bounds.antt =====
-- `allocation_cost` of src/adapters/codec/wire.rs counts every byte of payload at most once.
use Prim.Native.Nat.{bit_and}
use changekernel.Base.{
  ℕ, zero, suc, ◌+◌, ◌-◌, ◌≤◌, ◌<◌, ◌≡◌, List, [], ◌∷◌, some, ok, arith, inl, inr, Bool-cases,
}
use changekernel.Base.Order.{◌==◌, nat_eq}
use changekernel.Base.Lists.{length}
use changekernel.Codec.{max_depth}
use changekernel.Codec.Varint.Groups.{varint_takes, chunk_takes}
use changekernel.Codec.Wire.{Shape, Rule, Schema}
use changekernel.Codec.Scan.{Fuelled}
use changekernel.Codec.Scan.Resume.{resume-eq-ok}
use changekernel.Codec.Costs.{
  Cost, number_cost, part_cost, numbers_cost, nested_cost, delimited_cost, value_cost, field_cost,
  fields_cost, first_cost, cost_levels, allocation_cost,
}

-- A step from one input to what is left of it.
pub record Spends (input : List ℕ) (c : Cost) (rest : List ℕ) (d : Cost) : Type 0 where
  pub shorter : length rest < length input
  pub bound : d.payload + length rest ≤ c.payload + length input

number-Spends :
    (c d : Cost) (input rest : List ℕ)
    → number_cost c input ≡ some (ok (d, rest))
    → Spends input c rest d
unfolding number_cost
number-Spends c d input rest h =
    let ((n, tail), e, h1) = resume-eq-ok _ _ h in
    let (_, shorter, _) = varint_takes input n tail (ground arith) in
    record { shorter = ground (arith, shorter); bound = ground (arith, shorter) }

part-Spends :
    (c d : Cost) (input rest : List ℕ)
    → part_cost c input ≡ some (ok (d, rest))
    → Spends input c rest d
unfolding part_cost
part-Spends c d input rest h =
    let ((part, tail), e, h1) = resume-eq-ok _ _ h in
    let (payload, f, h2) = resume-eq-ok _ _ h1 in
    let taken = chunk_takes input part tail (ground arith) in
    let total : payload ≡ c.payload + length part = ground arith in
    record { shorter = ground (arith, taken, total); bound = ground (arith, taken, total) }

numbers-Spends :
    (c d : Cost) (input rest : List ℕ)
    → numbers_cost c input ≡ some (ok (d, rest))
    → Spends input c rest d
unfolding numbers_cost
numbers-Spends c d input rest h =
    let ((part, tail), e, h1) = resume-eq-ok _ _ h in
    let (bytes, f, h2) = resume-eq-ok _ _ h1 in
    let taken = chunk_takes input part tail (ground arith) in
    record { shorter = ground (arith, taken); bound = ground (arith, taken) }

module _ {N : Type 0} (inner : N → List ℕ → Fuelled Cost)
    (bounded : (c : N) (part : List ℕ) (d : Cost)
      → inner c part ≡ some (ok d)
      → d.payload ≤ length part) where
  nested-Spends :
      (child : N) (c d : Cost) (input rest : List ℕ)
      → nested_cost inner child c input ≡ some (ok (d, rest))
      → Spends input c rest d
  unfolding nested_cost
  nested-Spends child c d input rest h =
      let ((part, tail), e, h1) = resume-eq-ok _ _ h in
      let (x, f, h2) = resume-eq-ok _ _ h1 in
      let (bytes, _, h3) = resume-eq-ok _ _ h2 in
      let (payload, g, h4) = resume-eq-ok _ _ h3 in
      let taken = chunk_takes input part tail (ground arith) in
      let within = bounded child part x f in
      let total : payload ≡ c.payload + x.payload = ground arith in
      record {
        shorter = ground (arith, taken, total, within);
        bound = ground (arith, taken, total, within);
      }

  delimited-Spends :
      (rule : Rule N) (shape : Shape N) (c d : Cost) (input rest : List ℕ)
      → delimited_cost inner rule shape c input ≡ some (ok (d, rest))
      → Spends input c rest d
  unfolding delimited_cost
  delimited-Spends rule (Shape.message child) c d input rest h =
      nested-Spends child c d input rest h
  delimited-Spends rule Shape.id c d input rest h = part-Spends c d input rest h
  delimited-Spends rule Shape.content c d input rest h = part-Spends c d input rest h
  delimited-Spends rule shape c d input rest h = elim (Bool-cases rule.repeated) [
    | inl r ↦ numbers-Spends c d input rest (ground arith)
    | inr r ↦ absurd (ground arith)
  ]

  value-Spends :
      (rule : Rule N) (wire : ℕ) (c d : Cost) (input rest : List ℕ)
      → value_cost inner rule wire c input ≡ some (ok (d, rest))
      → Spends input c rest d
  unfolding value_cost
  value-Spends rule wire c d input rest h = elim (Bool-cases (wire == 2)) [
    | inl two ↦ delimited-Spends rule rule.shape c d input rest (ground arith)
    | inr other ↦ elim (Bool-cases (wire == 0)) [
      | inl z ↦ number-Spends c d input rest (ground arith)
      | inr s ↦ absurd (ground arith)
    ]
  ]

  pub field-Spends :
      (s : Schema N) (c d : Cost) (input rest : List ℕ)
      → field_cost inner s c input ≡ some (ok (d, rest))
      → Spends input c rest d
  unfolding field_cost
  field-Spends s c d input rest h =
      let ((key, tail), e, h1) = resume-eq-ok _ _ h in
      let ((_, rule), f, h2) = resume-eq-ok _ _ h1 in
      let (bytes, g, h3) = resume-eq-ok _ _ h2 in
      let (_, shorter, _) = varint_takes input key tail (ground arith) in
      let step : Spends tail (record c { bytes = bytes }) rest d =
        value-Spends rule (bit_and key 7) (record c { bytes = bytes }) d tail rest h3 in
      record {
        shorter = omega (arith, shorter, step.shorter);
        bound = omega (arith, shorter, step.bound);
      }

  fields_payload :
      (fuel : ℕ) (s : Schema N) (c d : Cost) (input : List ℕ)
      → fields_cost inner fuel s c input ≡ some (ok d)
      → d.payload ≤ c.payload + length input
  unfolding fields_cost
  fields_payload fuel s c d [] h = ground arith
  fields_payload zero s c d (b ∷ bs) h = absurd (cc)
  fields_payload (suc fuel) s c d (b ∷ bs) h =
      let ((x, rest), e, h1) = resume-eq-ok _ _ h in
      let step = field-Spends s c x (b ∷ bs) rest e in
      omega (arith, step.bound, fields_payload fuel s x d rest h1)

module _ {N : Type 0} (schema : N → Schema N) where
  pub levels_payload :
      (levels depth : ℕ) (name : N) (input : List ℕ) (d : Cost)
      → cost_levels schema levels depth name input ≡ some (ok d)
      → d.payload ≤ length input
  unfolding cost_levels
  levels_payload zero depth name input d h = absurd (cc)
  levels_payload (suc levels) depth name input d h =
      let (_, _, h1) = resume-eq-ok _ _ h in
      let whole =
        fields_payload (cost_levels schema levels (depth + 1)) (levels_payload levels (depth + 1))
          (length input) (schema name) first_cost d input h1 in
      omega (arith, whole)

  -- The payload that `allocation_cost` counts is at most the bytes of the message.
  pub allocation_cost_payload :
      (input : List ℕ) (name : N) (depth : ℕ) (d : Cost)
      → allocation_cost schema input name depth ≡ some (ok d)
      → d.payload ≤ length input
  unfolding allocation_cost
  allocation_cost_payload input name depth d h =
      levels_payload (suc (max_depth + 1 - depth)) depth name input d h
