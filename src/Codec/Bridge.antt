-- ===== src/Codec/Bridge.antt =====
-- The typed conversions of src/adapters/codec/bridge.rs.
pub mod Ordered
pub mod RoundTrip
use changekernel.Base.{
  ℕ, suc, ◌+◌, ◌-◌, ◌*◌, List, [], ◌∷◌, Option, none, some, Bool, leb, ltb, not, Result, ok, err,
  ok_or, reject_if, is_some, ◌>>=◌, ◌>>◌, if◌then◌else◌,
}
use changekernel.Base.Order.{Ord, ◌==◌, ◌!=◌, nat_eq}
use changekernel.Base.Lists.{length}
use changekernel.Base.BTreeSet
use changekernel.Base.BTreeSet.{BTreeSet, contains}
use changekernel.Base.BTreeMap
use changekernel.Base.BTreeMap.{BTreeMap, contains_key}
use changekernel.Kernel.Ids.{IdKind, Identifier, Error, as_bytes, from_bytes}
use changekernel.Kernel.Keys.{ContentKey, content_key_ord}
use changekernel.Kernel.Content.{FreshContent}
use changekernel.Kernel.Rules.Lookup.{checked_add}
use changekernel.Codec.{CodecError, max_frame, max_content, max_repeated, max_depth}

pub record Budget : Type 0 where
  pub bytes : ℕ
  pub depth : ℕ

abbrev pub Packs : Type 0 → Type 0
Packs W = Budget → Result CodecError (W × Budget)

-- `Budget::new`
abbrev pub new_budget : Budget
new_budget = record { bytes = 8; depth = 1 }

-- `Budget::charge`
unfoldable pub charge : ℕ → Budget → Result CodecError Budget
charge n b = do
  bytes ← ok_or (checked_add b.bytes n) CodecError.limit
  reject_if (ltb max_frame bytes) CodecError.limit
  ok (record b { bytes = bytes })

-- `Budget::message`
unfoldable pub in_message : {W : Type 0} → Packs W → Packs W
in_message f b = do
  reject_if (ltb max_depth (b.depth + 1)) CodecError.limit
  (w, b') ← f (record b { depth = b.depth + 1 })
  ok (w, record b' { depth = b'.depth - 1 })

-- The trait `Bridge`, with its type `Wire` as a parameter.
pub record Bridge (A W : Type 0) : Type 0 where
  pub pack : A → Packs W
  pub unpack : W → Result CodecError A

-- `Self::from_bytes(value.try_into()..).map_err(..)`
unfoldable pub identifier_of : (k : IdKind) → List ℕ → Result CodecError (Identifier k)
identifier_of k bytes =
    if length bytes != 16
    then err CodecError.id
    else elim (from_bytes k bytes) [ err _ ↦ err CodecError.id | ok a ↦ ok a ]

unfoldable pub pack_identifier : {k : IdKind} → Identifier k → Packs (List ℕ)
pack_identifier a b = do b' ← charge 16 b; ok (as_bytes a, b')

-- `impl Bridge` for the identities
abbrev pub id_bridge : (k : IdKind) → Bridge (Identifier k) (List ℕ)
id_bridge k = record { pack = pack_identifier; unpack = identifier_of k }

-- `impl Bridge for u64` and `for bool`
abbrev pub plain_bridge : (A : Type 0) → Bridge A A
plain_bridge A = record { pack = λ a b. ok (a, b); unpack = λ a. ok a }

unfoldable pub pack_bytes : List ℕ → Packs (List ℕ)
pack_bytes bytes b = do
  reject_if (ltb max_content (length bytes)) CodecError.limit
  b' ← charge (length bytes) b
  ok (bytes, b')

-- `impl Bridge for Vec<u8>`
abbrev pub bytes_bridge : Bridge (List ℕ) (List ℕ)
bytes_bridge = record {
  pack = pack_bytes;
  unpack = λ bytes. if ltb max_content (length bytes) then err CodecError.limit else ok bytes;
}

-- `required`
abbrev pub required : {W : Type 0} → Option W → Result CodecError W
required value = ok_or value CodecError.presence

module _ {A W : Type 0} (item : Bridge A W) where
  unfoldable pub pack_optional : Option A → Packs (Option W)
  pack_optional none b = ok (none, b)
  pack_optional (some a) b = do (w, b') ← item.pack a b; ok (some w, b')

  unfoldable pub unpack_optional : Option W → Result CodecError (Option A)
  unpack_optional none = ok none
  unpack_optional (some w) = do a ← item.unpack w; ok (some a)

  -- `values.iter().map(|v| v.pack(b)).collect()`
  unfoldable pub pack_items : List A → Packs (List W)
  pack_items [] b = ok ([], b)
  pack_items (a ∷ rest) b = do
    (w, b') ← item.pack a b
    (ws, b'') ← pack_items rest b'
    ok (w ∷ ws, b'')

  unfoldable pub unpack_items : List W → Result CodecError (List A)
  unpack_items [] = ok []
  unpack_items (w ∷ ws) = do a ← item.unpack w; rest ← unpack_items ws; ok (a ∷ rest)

  -- `pack_list`, and `pack_set` and `pack_map` as well: they pack the elements in their order.
  unfoldable pub pack_list : List A → Packs (List W)
  pack_list values b = do
    reject_if (ltb max_repeated (length values)) CodecError.limit
    pack_items values b

  unfoldable pub unpack_list : List W → Result CodecError (List A)
  unpack_list values = do
    reject_if (ltb max_repeated (length values)) CodecError.limit
    unpack_items values

module _ {A W : Type 0} (item : Bridge A W) ⦃o : Ord A⦄ where
  -- The loop of `unpack_set`.
  unfoldable pub unpack_elements : BTreeSet A → List W → Result CodecError (BTreeSet A)
  unpack_elements result [] = ok result
  unpack_elements result (w ∷ ws) = do
    a ← item.unpack w
    reject_if (contains result a) CodecError.duplicate
    unpack_elements (BTreeSet.insert a result) ws

  unfoldable pub unpack_set : List W → Result CodecError (BTreeSet A)
  unpack_set values = do
    reject_if (ltb max_repeated (length values)) CodecError.limit
    unpack_elements [] values

-- `Entry<K, V>` is the bridge of a pair.
module _ {K V E : Type 0} (entry : Bridge (K × V) E) ⦃o : Ord K⦄ where
  -- The loop of `unpack_map`.
  unfoldable pub unpack_entries : BTreeMap K V → List E → Result CodecError (BTreeMap K V)
  unpack_entries result [] = ok result
  unpack_entries result (w ∷ ws) = do
    (k, v) ← entry.unpack w
    reject_if (contains_key result k) CodecError.duplicate
    unpack_entries (BTreeMap.insert k v result) ws

  unfoldable pub unpack_map : List E → Result CodecError (BTreeMap K V)
  unpack_map values = do
    reject_if (ltb max_repeated (length values)) CodecError.limit
    unpack_entries [] values

-- The loop of `check_fresh`.
unfoldable pub check_payloads :
    List FreshContent → ℕ → BTreeSet ContentKey → Result CodecError (Unit {0})
check_payloads [] bytes ids = ok tt
check_payloads (p ∷ ps) bytes ids = do
  reject_if (ltb max_content (length p.bytes)) CodecError.limit
  total ← ok_or (checked_add bytes (length p.bytes)) CodecError.limit
  reject_if (ltb (8 * 1024 * 1024) total) CodecError.limit
  reject_if (contains ids p.key) CodecError.duplicate
  check_payloads ps total (BTreeSet.insert p.key ids)

-- `check_fresh`
unfoldable pub check_fresh : List FreshContent → Result CodecError (Unit {0})
check_fresh values = do
  reject_if (ltb 64 (length values)) CodecError.limit
  check_payloads values 0 []
