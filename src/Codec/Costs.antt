-- ===== src/Codec/Costs.antt =====
-- `allocation_cost` of src/adapters/codec/wire.rs: what decoding a message may allocate.
pub mod Bounds
pub mod Returns
use Prim.Native.Nat.{bit_and}
use changekernel.Base.{
  ℕ, zero, suc, ◌+◌, ◌-◌, ◌/◌, List, [], ◌∷◌, Option, none, some, Bool, true, false, ltb, Result,
  ok, err, reject_if, ok_or, if◌then◌else◌,
}
use changekernel.Base.Order.{◌==◌, nat_eq}
use changekernel.Base.Lists.{length}
use changekernel.Kernel.Rules.Lookup.{checked_add}
use changekernel.Codec.{CodecError, max_depth}
use changekernel.Codec.Varint.{varint, chunk}
use changekernel.Codec.Wire.{Shape, Rule, Schema}
use changekernel.Codec.Scan.{Fuelled, resume, find_rule, ◌>>=◌, ◌>>◌}

pub record Cost : Type 0 where
  pub bytes : ℕ
  pub payload : ℕ

abbrev pub sum : ℕ → ℕ → Result CodecError ℕ
sum a b = ok_or (checked_add a b) CodecError.limit

-- The loop over the values of a packed field, on fuel.
unfoldable pub packed_cost : ℕ → ℕ → List ℕ → Fuelled ℕ
packed_cost fuel bytes [] = some (ok bytes)
packed_cost zero bytes (b ∷ bs) = none
packed_cost (suc fuel) bytes (b ∷ bs) = do
  (_, rest) ← some (varint (b ∷ bs))
  more ← some (sum bytes 256)
  packed_cost fuel more rest

unfoldable pub number_cost : Cost → List ℕ → Fuelled (Cost × List ℕ)
number_cost c input = do (_, rest) ← some (varint input); some (ok (c, rest))

unfoldable pub part_cost : Cost → List ℕ → Fuelled (Cost × List ℕ)
part_cost c input = do
  (part, rest) ← some (chunk input)
  payload ← some (sum c.payload (length part))
  some (ok (record c { payload = payload }, rest))

unfoldable pub numbers_cost : Cost → List ℕ → Fuelled (Cost × List ℕ)
numbers_cost c input = do
  (part, rest) ← some (chunk input)
  bytes ← packed_cost (length part) c.bytes part
  some (ok (record c { bytes = bytes }, rest))

module _ {N : Type 0} (inner : N → List ℕ → Fuelled Cost) where
  unfoldable pub nested_cost : N → Cost → List ℕ → Fuelled (Cost × List ℕ)
  nested_cost child c input = do
    (part, rest) ← some (chunk input)
    d ← inner child part
    bytes ← some (sum c.bytes d.bytes)
    payload ← some (sum c.payload d.payload)
    some (ok (record { bytes = bytes; payload = payload }, rest))

  -- A length-delimited field, by its shape.
  unfoldable pub delimited_cost : Rule N → Shape N → Cost → List ℕ → Fuelled (Cost × List ℕ)
  delimited_cost rule (Shape.message child) c input = nested_cost child c input
  delimited_cost rule Shape.id c input = part_cost c input
  delimited_cost rule Shape.content c input = part_cost c input
  delimited_cost rule shape c input =
      if rule.repeated then numbers_cost c input else some (err CodecError.wire)

  -- The `match` on the shape and the wire type.
  unfoldable pub value_cost : Rule N → ℕ → Cost → List ℕ → Fuelled (Cost × List ℕ)
  value_cost rule wire c input =
      if wire == 2
      then delimited_cost rule rule.shape c input
      else if wire == 0
      then number_cost c input
      else some (err CodecError.wire)

  -- One round of the loop.
  unfoldable pub field_cost : Schema N → Cost → List ℕ → Fuelled (Cost × List ℕ)
  field_cost s c input = do
    (key, rest) ← some (varint input)
    (_, rule) ← some (ok_or (find_rule s.fields (key / 8) 0) CodecError.unknown_field)
    bytes ← some (sum c.bytes 256)
    value_cost rule (bit_and key 7) (record c { bytes = bytes }) rest

  -- The loop, on fuel.
  unfoldable pub fields_cost : ℕ → Schema N → Cost → List ℕ → Fuelled Cost
  fields_cost fuel s c [] = some (ok c)
  fields_cost zero s c (b ∷ bs) = none
  fields_cost (suc fuel) s c (b ∷ bs) = do
    (c', rest) ← field_cost s c (b ∷ bs)
    fields_cost fuel s c' rest

abbrev pub first_cost : Cost
first_cost = record { bytes = 4096; payload = 0 }

module _ {N : Type 0} (schema : N → Schema N) where
  -- `allocation_cost` with levels of recursion left.
  unfoldable pub cost_levels : ℕ → ℕ → N → List ℕ → Fuelled Cost
  cost_levels zero depth name input = none
  cost_levels (suc levels) depth name input = do
    some (reject_if (ltb max_depth depth) CodecError.limit)
    fields_cost (cost_levels levels (depth + 1)) (length input) (schema name) first_cost input

  -- `allocation_cost`
  unfoldable pub allocation_cost : List ℕ → N → ℕ → Fuelled Cost
  allocation_cost input name depth = cost_levels (suc (max_depth + 1 - depth)) depth name input
