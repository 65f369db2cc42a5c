-- ===== src/Codec.antt =====
-- The codec of src/adapters/codec: the errors and the limits of framing.rs. A byte slice is a list of
-- numbers below 256, and `usize` has 64 bits. A function that takes `&mut &[u8]` returns what is left
-- of the input when it succeeds; no caller looks at it after an error.
pub mod Bits
pub mod Varint
pub mod Wire
pub mod Scan
pub mod Envelopes
pub mod Frames
pub mod Costs
pub mod Bridge
use changekernel.Base.{ℕ, ◌*◌}

pub data CodecError : Type 0 where
  malformed limit version unknown_field wire enumeration id presence duplicate : CodecError

abbrev pub max_frame : ℕ
max_frame = 16 * 1024 * 1024

abbrev pub max_content : ℕ
max_content = 1024 * 1024

abbrev pub max_repeated : ℕ
max_repeated = 4096

abbrev pub max_depth : ℕ
max_depth = 32
