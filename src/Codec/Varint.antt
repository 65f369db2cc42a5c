-- ===== src/Codec/Varint.antt =====
-- `varint` and `chunk` of src/adapters/codec/wire.rs.
pub mod Groups
pub mod Exact
use Prim.Native.Nat.{bit_and}
use changekernel.Base.{
  ℕ, zero, suc, ◌+◌, ◌*◌, ◌%◌, ◌^◌, List, [], ◌∷◌, ◌&&◌, leb, ltb, Result, ok, err, ◌>>=◌,
  if◌then◌else◌,
}
use changekernel.Base.Order.{◌==◌, nat_eq}
use changekernel.Base.Lists.{length, take, drop}
use changekernel.Codec.{CodecError}

-- `result |= u64::from(byte & 127) << shift`: the bits from `shift` on are still zero, so it is a sum.
abbrev pub add_group : ℕ → ℕ → ℕ → ℕ
add_group result byte shift = (result + bit_and byte 127 * 2 ^ shift % 2 ^ 64) % 2 ^ 64

-- The rounds that are left of the loop, with `shift` and `result`.
unfoldable pub varint_loop : ℕ → ℕ → ℕ → List ℕ → Result CodecError (ℕ × List ℕ)
varint_loop zero shift result input = err CodecError.malformed
varint_loop (suc rounds) shift result [] = err CodecError.malformed
varint_loop (suc rounds) shift result (byte ∷ rest) =
    let added = add_group result byte shift in
    let more = varint_loop rounds (shift + 7) added rest in
    if shift == 63 && ltb 1 byte
    then err CodecError.malformed
    else if bit_and byte 128 == 0
    then ok (added, rest)
    else more

-- `varint`: the shifts are 0, 7, .., 63.
unfoldable pub varint : List ℕ → Result CodecError (ℕ × List ℕ)
varint input = varint_loop 10 0 0 input

-- `chunk`: a length and as many bytes.
unfoldable pub chunk : List ℕ → Result CodecError (List ℕ × List ℕ)
chunk input = do
  (len, rest) ← varint input
  if leb len (length rest) then ok (take len rest, drop len rest) else err CodecError.malformed
