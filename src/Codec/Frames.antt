-- ===== src/Codec/Frames.antt =====
-- The frames of src/adapters/codec/framing.rs and of src/adapters/codec/read_framing.rs. What prost
-- generates for a message type is a parameter.
pub mod RoundTrip
use changekernel.Base.{
  ℕ, ◌+◌, ◌-◌, ◌*◌, ◌%◌, ◌^◌, List, [], ◌∷◌, ◌++◌, Option, none, some, Bool, ◌||◌, not, ltb, leb,
  Result, ok, err, reject_if, ok_or, if◌then◌else◌,
}
use changekernel.Base.Order.{◌==◌, ◌!=◌, nat_eq, list_eq}
use changekernel.Base.Lists.{length, take, drop}
use changekernel.Kernel.Ids.Bytes.{byte_digits, byte_value}
use changekernel.Kernel.Rules.Lookup.{checked_add}
use changekernel.Codec.{CodecError, max_frame}
use changekernel.Codec.Wire.{Schema}
use changekernel.Codec.Scan.{Fuelled, scan, resume, ◌>>=◌, ◌>>◌}

-- `b"CKR\0"`, `b"CKQ\0"`, `b"CKRC"` and `b"CKRR"`
abbrev pub record_magic : List ℕ
record_magic = 67 ∷ 75 ∷ 82 ∷ 0 ∷ []

abbrev pub request_magic : List ℕ
request_magic = 67 ∷ 75 ∷ 81 ∷ 0 ∷ []

abbrev pub call_magic : List ℕ
call_magic = 67 ∷ 75 ∷ 82 ∷ 67 ∷ []

abbrev pub reply_magic : List ℕ
reply_magic = 67 ∷ 75 ∷ 82 ∷ 82 ∷ []

-- `u32::to_be_bytes` of a cast to u32, and `u32::from_be_bytes`
abbrev pub be_bytes : ℕ → List ℕ
be_bytes n = byte_digits 4 (n % 2 ^ 32)

abbrev pub from_be_bytes : List ℕ → ℕ
from_be_bytes bytes = byte_value bytes

-- `body` of framing.rs
unfoldable pub body : List ℕ → List ℕ → Result CodecError (List ℕ)
body frame magic =
    let size = from_be_bytes (take 4 (drop 4 frame)) in
    if ltb max_frame (length frame)
    then err CodecError.limit
    else if ltb (length frame) 8 || take 4 frame != magic
    then err CodecError.malformed
    else if size != length frame - 8
    then err CodecError.malformed
    else ok (drop 8 frame)

-- A message type: what prost encodes of a value, and its `WireSchema`, by name.
pub record Message (N W : Type 0) : Type 0 where
  pub encode : W → List ℕ
  pub schema : N

-- `frame` of framing.rs
unfoldable pub frame : {N W : Type 0} → (N → Schema N) → Message N W → W → List ℕ → Fuelled (List ℕ)
frame schema m value magic = do
  let size = length (m.encode value)
  whole ← some (ok_or (checked_add size 8) CodecError.limit)
  some (reject_if (ltb max_frame whole) CodecError.limit)
  let out = magic ++ (be_bytes size ++ m.encode value)
  _ ← scan schema (drop 8 out) m.schema 1
  some (ok out)

abbrev pub read_protocol_version : ℕ
read_protocol_version = 2

abbrev pub call_max : ℕ
call_max = 64 * 1024

abbrev pub reply_max : ℕ
reply_max = 2 * 1024 * 1024

abbrev pub header : ℕ
header = 12

-- `body` of read_framing.rs
unfoldable pub read_body : List ℕ → List ℕ → ℕ → Result CodecError (List ℕ)
read_body bytes magic maximum =
    let version = from_be_bytes (take 4 (drop 4 bytes)) in
    let size = from_be_bytes (take 4 (drop 8 bytes)) in
    if ltb (length bytes) header || take 4 bytes != magic
    then err CodecError.malformed
    else if version != read_protocol_version
    then err CodecError.version
    else if ltb maximum (length bytes)
    then err CodecError.limit
    else if size != length bytes - header
    then err CodecError.malformed
    else ok (drop header bytes)

-- `frame` of read_framing.rs
unfoldable pub read_frame :
    {N W : Type 0} → (N → Schema N) → Message N W → W → List ℕ → ℕ → Fuelled (List ℕ)
read_frame schema m value magic maximum = do
  size ← some (ok_or (checked_add (length (m.encode value)) header) CodecError.limit)
  some (reject_if (ltb maximum size) CodecError.limit)
  let out =
      magic ++ (be_bytes read_protocol_version ++ (be_bytes (size - header) ++ m.encode value))
  _ ← scan schema (drop header out) m.schema 1
  some (ok out)
