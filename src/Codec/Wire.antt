-- ===== src/Codec/Wire.antt =====
-- The schemas and `envelope` of src/adapters/codec/wire.rs.
use Prim.Native.Nat.{bit_and}
use changekernel.Base.{
  ℕ, zero, suc, ◌/◌, ◌^◌, List, [], ◌∷◌, Option, none, some, Bool, ◌||◌, ◌&&◌, not, leb, ltb,
  Result, ok, err, reject_if, ok_or, is_some, ◌>>=◌, ◌>>◌, if◌then◌else◌,
}
use changekernel.Base.Order.{◌==◌, ◌!=◌, nat_eq}
use changekernel.Base.Lists.{length, any}
use changekernel.Application.Requests.{OperationRequestProfile, is_current}
use changekernel.Codec.{CodecError}
use changekernel.Codec.Varint.{varint, chunk}

-- `Shape`. A schema function is a name of the type `N`; what schema it gives is a table.
pub data Shape (N : Type 0) : Type 0 where
  id content uint boolean : Shape N
  version : ℕ → Shape N
  enumeration : List ℕ → Shape N
  message : N → Shape N

pub record Rule (N : Type 0) : Type 0 where
  pub tag : ℕ
  pub shape : Shape N
  pub required : Bool
  pub repeated : Bool
  pub limit : ℕ
  pub fresh : Bool

pub record Schema (N : Type 0) : Type 0 where
  pub fields : List (Rule N)
  pub oneof : Bool

-- A key of a field: its tag and its wire type, `key >> 3` and `key & 7`.
abbrev pub valid_tag : ℕ → Bool
valid_tag tag = not (tag == 0 || ltb 0x1fffffff tag)

abbrev pub field_key : List ℕ → Result CodecError (ℕ × ℕ × List ℕ)
field_key input = do
  (key, rest) ← varint input
  reject_if (not (valid_tag (key / 8))) CodecError.malformed
  ok (key / 8, bit_and key 7, rest)

-- `versions`
pub record Versions : Type 0 where
  pub codec : Option ℕ
  pub schema : Option ℕ
  pub semantic : Option ℕ

abbrev pub version_slot : Versions → ℕ → Option ℕ
version_slot v tag = if tag == 1 then v.codec else if tag == 2 then v.schema else v.semantic

abbrev pub set_version : Versions → ℕ → ℕ → Versions
set_version v tag n =
    if tag == 1
    then record v { codec = some n }
    else if tag == 2
    then record v { schema = some n }
    else record v { semantic = some n }

-- `u32::try_from`
abbrev pub u32_of : ℕ → Option ℕ
u32_of n = if ltb n (2 ^ 32) then some n else none

-- A field of the envelope that is a version.
unfoldable pub version_field : Versions → ℕ → ℕ → List ℕ → Result CodecError (Versions × List ℕ)
version_field v tag wire input = do
  reject_if (wire != 0) CodecError.wire
  reject_if (is_some (version_slot v tag)) CodecError.duplicate
  (value, rest) ← varint input
  n ← ok_or (u32_of value) CodecError.version
  ok (set_version v tag n, rest)

-- A field of the envelope that is passed over.
unfoldable pub opaque_field : ℕ → List ℕ → Result CodecError (List ℕ)
opaque_field wire input =
    if wire == 0
    then (do (_, rest) ← varint input; ok rest)
    else if wire == 2
    then (do (_, rest) ← chunk input; ok rest)
    else err CodecError.wire

-- The value of a field of the envelope, after its key.
unfoldable pub envelope_value : Versions → ℕ → ℕ → List ℕ → Result CodecError (Versions × List ℕ)
envelope_value v tag wire rest =
    if leb 1 tag && leb tag 3
    then version_field v tag wire rest
    else (do rest' ← opaque_field wire rest; ok (v, rest'))

-- One round of the loop of `envelope`.
unfoldable pub envelope_field : Versions → List ℕ → Result CodecError (Versions × List ℕ)
envelope_field v input = do (tag, wire, rest) ← field_key input; envelope_value v tag wire rest

-- The loop of `envelope` on fuel: every round takes a byte at least. `none` is out of fuel.
unfoldable pub envelope_loop : ℕ → Versions → List ℕ → Option (Result CodecError Versions)
envelope_loop fuel v [] = some (ok v)
envelope_loop zero v (b ∷ bs) = none
envelope_loop (suc fuel) v (b ∷ bs) = elim (envelope_field v (b ∷ bs)) [
  | err e ↦ some (err e)
  | ok x ↦ envelope_loop fuel x.0 x.1
]

abbrev pub no_versions : Versions
no_versions = record { codec = none; schema = none; semantic = none }

abbrev pub profile_of : Versions → Result CodecError OperationRequestProfile
profile_of v = do
  codec ← ok_or v.codec CodecError.presence
  schema ← ok_or v.schema CodecError.presence
  semantic ← ok_or v.semantic CodecError.presence
  let profile : OperationRequestProfile = record {
    codec = codec;
    schema = schema;
    semantic = semantic;
  }
  reject_if (not (is_current profile)) CodecError.version
  ok profile

-- `envelope`
unfoldable pub envelope : List ℕ → Option (Result CodecError OperationRequestProfile)
envelope input = elim (envelope_loop (length input) no_versions input) [
  | none ↦ none
  | some r ↦ some (do v ← r; profile_of v)
]

module _ {N : Type 0} where
  -- `scalar`
  unfoldable pub scalar : Shape N → ℕ → Result CodecError (Unit {0})
  scalar Shape.uint value = ok tt
  scalar Shape.boolean value = reject_if (not (leb value 1)) CodecError.enumeration
  scalar (Shape.version expected) value = reject_if (value != expected) CodecError.version
  scalar (Shape.enumeration known) value =
      reject_if (not (any (λ k. k == value) known)) CodecError.enumeration
  scalar _ value = err CodecError.wire
