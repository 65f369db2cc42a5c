-- ===== src/Codec/Scan.antt =====
-- `scan` of src/adapters/codec/wire.rs: the check of an encoded message against its schema.
pub mod Resume
pub mod Bounds
pub mod Returns
use changekernel.Base.{
  ℕ, zero, suc, ◌+◌, ◌-◌, ◌*◌, List, [], ◌∷◌, Option, none, some, Bool, true, false, ◌||◌, ◌&&◌,
  not, leb, ltb, Result, ok, err, reject_if, ok_or, if◌then◌else◌,
}
use changekernel.Base.Order.{◌==◌, ◌!=◌, nat_eq}
use changekernel.Base.Lists.{length, all}
use changekernel.Kernel.Ids.{is_zero_array}
use changekernel.Kernel.Rules.Lookup.{checked_add}
use changekernel.Codec.{CodecError, max_content, max_depth}
use changekernel.Codec.Varint.{varint, chunk}
use changekernel.Codec.Wire.{Shape, Rule, Schema, field_key, scalar}

-- A result, or none where the fuel is out.
abbrev pub Fuelled : Type 0 → Type 0
Fuelled A = Option (Result CodecError A)

unfoldable pub resume : {A B : Type 0} → Fuelled A → (A → Fuelled B) → Fuelled B
resume none next = none
resume (some (err e)) next = some (err e)
resume (some (ok a)) next = next a

infixl 5 ◌>>=◌ ◌>>◌
abbrev pub ◌>>=◌ : {A B : Type 0} → Fuelled A → (A → Fuelled B) → Fuelled B
m >>= next = resume m next

abbrev pub ◌>>◌ : {A B : Type 0} → Fuelled A → Fuelled B → Fuelled B
m >> k = resume m (λ _. k)

-- The arrays `[0usize; 32]`.
abbrev pub at : List ℕ → ℕ → ℕ
at [] i = 0
at (x ∷ xs) zero = x
at (x ∷ xs) (suc i) = at xs i

abbrev pub set_at : List ℕ → ℕ → ℕ → List ℕ
set_at [] i n = []
set_at (x ∷ xs) zero n = n ∷ xs
set_at (x ∷ xs) (suc i) n = x ∷ set_at xs i n

abbrev pub zeros : ℕ → List ℕ
zeros zero = []
zeros (suc n) = 0 ∷ zeros n

-- The local variables of `scan`.
pub record Scanning : Type 0 where
  pub counts : List ℕ
  pub fresh_bytes : List ℕ
  pub oneof_seen : Bool
  pub content_bytes : ℕ

abbrev pub fresh_limit : ℕ
fresh_limit = 8 * 1024 * 1024

module _ {N : Type 0} where
  abbrev pub find_rule : List (Rule N) → ℕ → ℕ → Option (ℕ × Rule N)
  find_rule [] tag i = none
  find_rule (r ∷ rs) tag i = if r.tag == tag then some (i, r) else find_rule rs tag (suc i)

  -- `matches!(rule.shape, Shape::Enum(_) | Shape::Uint | Shape::Bool)`
  abbrev pub packable : Shape N → Bool
  packable (Shape.enumeration _) = true
  packable Shape.uint = true
  packable Shape.boolean = true
  packable _ = false

  -- The loop over the values of a packed field, on fuel: the count of the values.
  unfoldable pub packed_loop : ℕ → Rule N → ℕ → List ℕ → Fuelled ℕ
  packed_loop fuel rule count [] = some (ok count)
  packed_loop zero rule count (b ∷ bs) = none
  packed_loop (suc fuel) rule count (b ∷ bs) = do
    some (reject_if (ltb rule.limit (count + 1)) CodecError.limit)
    (value, rest) ← some (varint (b ∷ bs))
    some (scalar rule.shape value)
    packed_loop fuel rule (count + 1) rest

  unfoldable pub packed_field : Rule N → ℕ → Scanning → List ℕ → Fuelled (Scanning × List ℕ)
  packed_field rule index st input = do
    (packed, rest) ← some (chunk input)
    count ← packed_loop (length packed) rule (at st.counts index) packed
    some (ok (record st { counts = set_at st.counts index count }, rest))

  -- The bytes of an identity or of a content.
  unfoldable pub leaf : Shape N → List ℕ → Result CodecError ℕ
  leaf Shape.id bytes =
      if length bytes != 16 || is_zero_array bytes then err CodecError.id else ok 0
  leaf _ bytes = if ltb max_content (length bytes) then err CodecError.limit else ok (length bytes)

  unfoldable pub count_fresh : Rule N → ℕ → ℕ → Scanning → Result CodecError Scanning
  count_fresh rule index bytes st =
      if rule.fresh
      then elim (checked_add (at st.fresh_bytes index) bytes) [
        | none ↦ err CodecError.limit
        | some n ↦
            if ltb fresh_limit n
            then err CodecError.limit
            else ok (record st { fresh_bytes = set_at st.fresh_bytes index n })
      ]
      else ok st

  -- The accounts after a field.
  unfoldable pub account : Rule N → ℕ → ℕ → Scanning → Result CodecError Scanning
  account rule index bytes st = elim (checked_add st.content_bytes bytes) [
    | none ↦ err CodecError.limit
    | some n ↦ count_fresh rule index bytes (record st { content_bytes = n })
  ]

  abbrev pub missing : List (Rule N) → List ℕ → ℕ → Bool
  missing [] counts i = false
  missing (r ∷ rs) counts i = (r.required && at counts i == 0) || missing rs counts (suc i)

  -- What follows the loop.
  unfoldable pub finish : Schema N → Scanning → Result CodecError ℕ
  finish s st =
      if s.oneof && not st.oneof_seen
      then err CodecError.presence
      else if missing s.fields st.counts 0
      then err CodecError.presence
      else ok st.content_bytes

-- The loop of `scan` for a schema, with the recursive call as a parameter.
module _ {N : Type 0} (inner : N → List ℕ → Fuelled ℕ) where
  -- The `match` on the shape and the wire type.
  unfoldable pub value_of : Shape N → ℕ → List ℕ → Fuelled (ℕ × List ℕ)
  value_of (Shape.message child) wire input = do
    some (reject_if (wire != 2) CodecError.wire)
    (part, rest) ← some (chunk input)
    bytes ← inner child part
    some (ok (bytes, rest))
  value_of Shape.id wire input = do
    some (reject_if (wire != 2) CodecError.wire)
    (part, rest) ← some (chunk input)
    bytes ← some (leaf {N = N} Shape.id part)
    some (ok (bytes, rest))
  value_of Shape.content wire input = do
    some (reject_if (wire != 2) CodecError.wire)
    (part, rest) ← some (chunk input)
    bytes ← some (leaf {N = N} Shape.content part)
    some (ok (bytes, rest))
  value_of shape wire input = do
    some (reject_if (wire != 0) CodecError.wire)
    (value, rest) ← some (varint input)
    some (scalar shape value)
    some (ok (0, rest))

  unfoldable pub single_field : Rule N → ℕ → ℕ → Scanning → List ℕ → Fuelled (Scanning × List ℕ)
  single_field rule index wire st input = do
    let count = at st.counts index + 1
    some (reject_if (ltb rule.limit count) CodecError.limit)
    (bytes, rest) ← value_of rule.shape wire input
    st' ← some (account rule index bytes (record st { counts = set_at st.counts index count }))
    some (ok (st', rest))

  unfoldable pub field_value : Rule N → ℕ → ℕ → Scanning → List ℕ → Fuelled (Scanning × List ℕ)
  field_value rule index wire st input =
      if rule.repeated && (wire == 2 && packable rule.shape)
      then packed_field rule index st input
      else single_field rule index wire st input

  -- One round of the loop.
  unfoldable pub field : Schema N → Scanning → List ℕ → Fuelled (Scanning × List ℕ)
  field s st input = do
    (tag, wire, rest) ← some (field_key input)
    (index, rule) ← some (ok_or (find_rule s.fields tag 0) CodecError.unknown_field)
    some (reject_if (not rule.repeated && at st.counts index != 0) CodecError.duplicate)
    some (reject_if (s.oneof && st.oneof_seen) CodecError.duplicate)
    field_value rule index wire (record st { oneof_seen = s.oneof || st.oneof_seen }) rest

  -- The loop, on fuel.
  unfoldable pub fields : ℕ → Schema N → Scanning → List ℕ → Fuelled Scanning
  fields fuel s st [] = some (ok st)
  fields zero s st (b ∷ bs) = none
  fields (suc fuel) s st (b ∷ bs) = do (st', rest) ← field s st (b ∷ bs); fields fuel s st' rest

abbrev pub started : Scanning
started = record {
  counts = zeros 32;
  fresh_bytes = zeros 32;
  oneof_seen = false;
  content_bytes = 0;
}

module _ {N : Type 0} (schema : N → Schema N) where
  -- `scan` with levels of recursion left.
  unfoldable pub scan_levels : ℕ → ℕ → N → List ℕ → Fuelled ℕ
  scan_levels zero depth name input = none
  scan_levels (suc levels) depth name input = do
    some (reject_if (ltb max_depth depth) CodecError.limit)
    some (reject_if (ltb 32 (length (schema name).fields)) CodecError.malformed)
    st ← fields (scan_levels levels (depth + 1)) (length input) (schema name) started input
    some (finish (schema name) st)

  -- `scan`: a level more than the depths that it admits is enough.
  unfoldable pub scan : List ℕ → N → ℕ → Fuelled ℕ
  scan input name depth = scan_levels (suc (max_depth + 1 - depth)) depth name input
