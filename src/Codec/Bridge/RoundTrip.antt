-- ===== src/Codec/Bridge/RoundTrip.antt =====
-- What src/adapters/codec/bridge.rs packs, it unpacks.
use mathlib.Core.List.{append-nil, append_assoc}
use changekernel.Base.{
  ℕ, suc, ◌^◌, ◌<◌, ◌≡◌, refl, ap, sym, ◌∙◌, List, [], ◌∷◌, ◌++◌, Option, none, some, false, arith,
  inl, inr, Bool-cases, Result-cases, ok, ltb,
}
use changekernel.Base.Order.{Ord, nat_eq}
use changekernel.Base.Lists.{length}
use changekernel.Base.BTreeSet.{BTreeSet}
use changekernel.Base.BTreeMap.{BTreeMap}
use changekernel.Kernel.Ids.{IdKind, Identifier, as_bytes, from_bytes}
use changekernel.Kernel.Ids.Bytes.{length-digits}
use changekernel.Guarantees.Identities.{as_bytes-from_bytes}
use changekernel.Codec.{max_repeated}
use changekernel.Codec.Bridge.{
  Budget, Bridge, charge, id_bridge, pack_identifier, identifier_of, pack_optional, unpack_optional,
  pack_items, unpack_items, pack_list, unpack_list, unpack_elements, unpack_set, unpack_entries,
  unpack_map,
}
use changekernel.Codec.Bridge.Ordered.{
  Follows, IsAscending, absent_below, insert_last, FollowsKeys, IsAscendingMap, missing_below,
  insert_last_entry,
}

-- The values that a bridge unpacks again from what it packs.
pub record Returns {A W : Type 0} (item : Bridge A W) (a : A) : Type 0 where
  pub back : (b b' : Budget) (w : W) → item.pack a b ≡ ok (w, b') → item.unpack w ≡ ok a

module _ {A W : Type 0} (item : Bridge A W) where
  abbrev pub AllReturn : List A → Type 0
  AllReturn [] = Unit
  AllReturn (a ∷ rest) = Returns item a × AllReturn rest

  -- What packing a list that is not empty has packed.
  items_packed :
      (a : A) (rest : List A) (b b' : Budget) (ws : List W)
      → pack_items item (a ∷ rest) b ≡ ok (ws, b')
      → (w : W) × (ws' : List W) × (c : Budget) × (ws ≡ w ∷ ws')
        × (item.pack a b ≡ ok (w, c))
        × (pack_items item rest c ≡ ok (ws', b'))
  unfolding pack_items
  items_packed a rest b b' ws h = elim (Result-cases (item.pack a b)) [
    | inr (e, f) ↦ absurd (ground arith)
    | inl ((w, c), f) ↦ elim (Result-cases (pack_items item rest c)) [
      | inr (e, g) ↦ absurd (ground arith)
      | inl ((ws', d), g) ↦ (w, ws', c, ground arith, f, ground arith)
    ]
  ]

  length-packed :
      (xs : List A) (b b' : Budget) (ws : List W)
      → pack_items item xs b ≡ ok (ws, b')
      → length ws ≡ length xs
  unfolding pack_items
  length-packed [] b b' ws h = ground arith
  length-packed (a ∷ rest) b b' ws h =
      let (w, ws', c, same, _, later) = items_packed a rest b b' ws h in
      ap length same ∙ ap suc (length-packed rest c b' ws' later)

  -- The bounds of `pack_list`, and the items that it packs.
  list_packed :
      (xs : List A) (b b' : Budget) (ws : List W)
      → pack_list item xs b ≡ ok (ws, b')
      → (pack_items item xs b ≡ ok (ws, b')) × (ltb max_repeated (length ws) ≡ false)
  unfolding pack_list
  list_packed xs b b' ws h = elim (Bool-cases (ltb max_repeated (length xs))) [
    | inl more ↦ absurd (ground arith)
    | inr within ↦
        let packed : pack_items item xs b ≡ ok (ws, b') = ground arith in
        (packed, ap (λ n. ltb max_repeated n) (length-packed xs b b' ws packed) ∙ within)
  ]

  items_back :
      (xs : List A) (b b' : Budget) (ws : List W)
      → AllReturn xs
      → pack_items item xs b ≡ ok (ws, b')
      → unpack_items item ws ≡ ok xs
  unfolding pack_items unpack_items
  items_back [] b b' ws k h = let empty : ws ≡ [] = ground arith in rw empty refl
  items_back (a ∷ rest) b b' ws k h =
      let (w, ws', c, same, first, later) = items_packed a rest b b' ws h in
      let back : item.unpack w ≡ ok a = k.0.back b c w first in
      let others = items_back rest c b' ws' k.1 later in rw (same, back, others) refl

  -- A list that `pack_list` packs, its items each unpacked again, is unpacked again by `unpack_list`.
  pub list_back :
      (xs : List A) (b b' : Budget) (ws : List W)
      → AllReturn xs
      → pack_list item xs b ≡ ok (ws, b')
      → unpack_list item ws ≡ ok xs
  unfolding unpack_list
  list_back xs b b' ws k h =
      let (packed, within) = list_packed xs b b' ws h in
      rw (within) (items_back xs b b' ws k packed)

  pub optional_back :
      (o : Option A) (b b' : Budget) (w : Option W)
      → ((a : A) → o ≡ some a → Returns item a)
      → pack_optional item o b ≡ ok (w, b')
      → unpack_optional item w ≡ ok o
  unfolding pack_optional unpack_optional
  optional_back none b b' w k h = let empty : w ≡ none = ground arith in rw empty refl
  optional_back (some a) b b' w k h = elim (Result-cases (item.pack a b)) [
    | inr (e, f) ↦ absurd (ground arith)
    | inl ((x, c), f) ↦
        let same : w ≡ some x = ground arith in
        let back : item.unpack x ≡ ok a = (k a refl).back b c x f in rw (same, back) refl
  ]

  module _ ⦃o : Ord A⦄ where
    elements_back :
        (s xs : List A) (b b' : Budget) (ws : List W)
        → AllReturn xs
        → Follows s xs
        → pack_items item xs b ≡ ok (ws, b')
        → unpack_elements item s ws ≡ ok (s ++ xs)
    unfolding pack_items unpack_elements
    elements_back s [] b b' ws k f h =
        let empty : ws ≡ [] = ground arith in rw empty (ap (λ ys. ok ys) (sym (append-nil s)))
    elements_back s (a ∷ rest) b b' ws k f h =
        let (w, ws', c, same, first, later) = items_packed a rest b b' ws h in
        let back : item.unpack w ≡ ok a = k.0.back b c w first in
        let absent = absent_below s a f.0 in
        let placed = insert_last s a f.0 in
        let others = elements_back (s ++ (a ∷ [])) rest c b' ws' k.1 f.1 later in
        rw (same, back, absent, placed, others) (ap (λ xs. ok xs) (append_assoc s (a ∷ []) rest))

    -- A set in ascending order that `pack_set` packs, its elements each unpacked again, is unpacked again
    -- by `unpack_set`, which finds no duplicate.
    pub set_back :
        (s : BTreeSet A) (b b' : Budget) (ws : List W)
        → AllReturn s
        → IsAscending s
        → pack_list item s b ≡ ok (ws, b')
        → unpack_set item ws ≡ ok s
    unfolding unpack_set
    set_back s b b' ws k f h =
        let (packed, within) = list_packed s b b' ws h in
        rw (within) (elements_back [] s b b' ws k f packed)

module _ {K V E : Type 0} (entry : Bridge (K × V) E) ⦃o : Ord K⦄ where
  entries_back :
      (m xs : BTreeMap K V) (b b' : Budget) (ws : List E)
      → AllReturn entry xs
      → FollowsKeys m xs
      → pack_items entry xs b ≡ ok (ws, b')
      → unpack_entries entry m ws ≡ ok (m ++ xs)
  unfolding pack_items unpack_entries
  entries_back m [] b b' ws k f h =
      let empty : ws ≡ [] = ground arith in rw empty (ap (λ ys. ok ys) (sym (append-nil m)))
  entries_back m ((j, v) ∷ rest) b b' ws k f h =
      let (w, ws', c, same, first, later) = items_packed entry (j, v) rest b b' ws h in
      let back : entry.unpack w ≡ ok (j, v) = k.0.back b c w first in
      let absent = missing_below m j f.0 in
      let placed = insert_last_entry m j v f.0 in
      let others = entries_back (m ++ ((j, v) ∷ [])) rest c b' ws' k.1 f.1 later in
      rw (same, back, absent, placed, others) (ap (λ xs. ok xs) (append_assoc m ((j, v) ∷ []) rest))

  -- A map with ascending keys that `pack_map` packs, its entries each unpacked again, is unpacked again
  -- by `unpack_map`, which finds no duplicate.
  pub map_back :
      (m : BTreeMap K V) (b b' : Budget) (ws : List E)
      → AllReturn entry m
      → IsAscendingMap m
      → pack_list entry m b ≡ ok (ws, b')
      → unpack_map entry ws ≡ ok m
  unfolding unpack_map
  map_back m b b' ws k f h =
      let (packed, within) = list_packed entry m b b' ws h in
      rw (within) (entries_back [] m b b' ws k f packed)

length-as_bytes : (k : IdKind) (a : Identifier k) → length (as_bytes a) ≡ 16
unfolding as_bytes
length-as_bytes k a = length-digits 16 a.value

identifier_read :
    (k : IdKind) (bytes : List ℕ) (a : Identifier k)
    → length bytes ≡ 16
    → from_bytes k bytes ≡ ok a
    → identifier_of k bytes ≡ ok a
unfolding identifier_of
identifier_read k bytes a h e = rw (h, e) refl

-- The bytes of an identity that is not zero and fits in sixteen bytes are unpacked again.
pub id_back :
    (k : IdKind) (a : Identifier k) → 0 < a.value → a.value < 256 ^ 16 → Returns (id_bridge k) a
unfolding pack_identifier
id_back k a positive fits = record {
  back = λ b b' w h. elim (Result-cases (charge 16 b)) [
    | inr (e, f) ↦ absurd (ground arith)
    | inl (c, f) ↦
        let same : w ≡ as_bytes a = ground arith in
        rw same (
          identifier_read k (as_bytes a) a (length-as_bytes k a)
            (as_bytes-from_bytes k a positive fits))
  ];
}
