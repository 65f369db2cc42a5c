-- ===== src/Examples/Encodings.antt =====
-- The theorems of `Codec` at small encodings.
use changekernel.Base.{
  ℕ, ◌≤◌, ◌<◌, ◌≡◌, ◌≢◌, ◌↔◌, refl, List, [], ◌∷◌, ◌++◌, none, some, true, false, Result, ok, arith,
  ◌^◌,
}
use changekernel.Base.Lists.{length}
use changekernel.Kernel.Ids.{IdKind, Identifier, as_bytes, id_ord}
use changekernel.Application.Requests.{OperationRequestProfile, current_profile}
use changekernel.Codec.{CodecError, max_frame}
use changekernel.Codec.Varint.{varint_loop, varint, chunk}
use changekernel.Codec.Varint.Groups.{encoded, varint-encoded, chunk-encoded}
use changekernel.Codec.Varint.Exact.{Begins, varint_iff}
use changekernel.Kernel.Ids.Bytes.{IsBytes}
use changekernel.Codec.Wire.{Shape, Schema, scalar, envelope}
use changekernel.Codec.Envelopes.{envelope-current}
use changekernel.Codec.Scan.{
  resume, packed_loop, packed_field, leaf, count_fresh, account, finish, value_of, single_field,
  field_value, field, fields, scan_levels, scan,
}
use changekernel.Codec.Scan.Bounds.{scan_bound}
use changekernel.Codec.Scan.Returns.{scan_returns}
use changekernel.Codec.Costs.{
  Cost, allocation_cost, cost_levels, fields_cost, field_cost, value_cost, delimited_cost,
  nested_cost, part_cost, numbers_cost, number_cost, packed_cost,
}
use changekernel.Codec.Costs.Bounds.{allocation_cost_payload}
use changekernel.Codec.Costs.Returns.{allocation_cost_returns}
use changekernel.Codec.Frames.{
  Message, frame, body, read_frame, read_body, record_magic, call_magic, call_max,
}
use changekernel.Codec.Frames.RoundTrip.{frame-body, read_frame-read_body}
use changekernel.Codec.Bridge.{
  charge, id_bridge, pack_identifier, pack_items, pack_list, unpack_set, unpack_map, new_budget,
  Bridge, plain_bridge,
}
use changekernel.Codec.Bridge.RoundTrip.{Returns, id_back, set_back, map_back}
use changekernel.Examples.Scenario.{id}

varint-encoded_example : varint (encoded 300 ++ (7 ∷ [])) ≡ ok (300, 7 ∷ [])
varint-encoded_example = varint-encoded 300 (7 ∷ []) (omega arith)

abbrev two_bytes : List ℕ
two_bytes = 5 ∷ 6 ∷ []

chunk-encoded_example :
    chunk (encoded (length two_bytes) ++ (two_bytes ++ (7 ∷ []))) ≡ ok (two_bytes, 7 ∷ [])
chunk-encoded_example = chunk-encoded two_bytes (7 ∷ []) (omega arith)

-- 300 in three groups, which is one more than it needs.
abbrev three_groups : List ℕ
three_groups = 172 ∷ 130 ∷ 0 ∷ 7 ∷ []

three_groups-IsBytes : IsBytes three_groups
three_groups-IsBytes = ground arith

varint_iff_example :
    (varint three_groups ≡ ok (300, 7 ∷ []))
    ↔ (Begins 10 three_groups 300 (7 ∷ []) × (300 < 2 ^ 64))
varint_iff_example = varint_iff three_groups 300 (7 ∷ []) three_groups-IsBytes

reads_three_groups : varint three_groups ≡ ok (300, 7 ∷ [])
unfolding varint varint_loop
reads_three_groups = refl

-- A message with one content, and messages that nest in it.
abbrev nested : Unit {0} → Schema (Unit {0})
nested _ = record {
  fields =
      record {
        tag = 1;
        shape = Shape.content;
        required = true;
        repeated = false;
        limit = 1;
        fresh = false;
      }
      ∷ record {
        tag = 2;
        shape = Shape.message tt;
        required = false;
        repeated = true;
        limit = 4;
        fresh = false;
      }
      ∷ [];
  oneof = false;
}

abbrev two_levels : List ℕ
two_levels = 10 ∷ 1 ∷ 9 ∷ 18 ∷ 3 ∷ 10 ∷ 1 ∷ 9 ∷ []

abbrev held : Message (Unit {0}) (List ℕ)
held = record { encode = λ bytes. bytes; schema = tt }

scan_bound_example : 2 ≤ length two_levels
unfolding scan scan_levels fields field field_value single_field packed_field packed_loop value_of
    leaf account count_fresh finish resume varint varint_loop chunk scalar
scan_bound_example = scan_bound nested two_levels tt 1 2 refl

scan_returns_example : scan nested two_levels tt 1 ≢ none
scan_returns_example = scan_returns nested two_levels tt 1

frame-body_example :
    (length (record_magic ++ (0 ∷ 0 ∷ 0 ∷ 8 ∷ two_levels)) ≤ max_frame)
    × (body (record_magic ++ (0 ∷ 0 ∷ 0 ∷ 8 ∷ two_levels)) record_magic ≡ ok two_levels)
unfolding frame scan scan_levels fields field field_value single_field packed_field packed_loop
    value_of leaf account count_fresh finish resume varint varint_loop chunk scalar
frame-body_example =
    frame-body nested held two_levels record_magic (record_magic ++ (0 ∷ 0 ∷ 0 ∷ 8 ∷ two_levels))
      refl refl

abbrev call_frame : List ℕ
call_frame = call_magic ++ (0 ∷ 0 ∷ 0 ∷ 2 ∷ 0 ∷ 0 ∷ 0 ∷ 8 ∷ two_levels)

read_frame-read_body_example :
    (length call_frame ≤ call_max) × (read_body call_frame call_magic call_max ≡ ok two_levels)
unfolding read_frame scan scan_levels fields field field_value single_field packed_field packed_loop
    value_of leaf account count_fresh finish resume varint varint_loop chunk scalar
read_frame-read_body_example =
    read_frame-read_body nested held two_levels call_magic call_frame call_max call_max refl
      (omega arith) (omega arith) refl

envelope-current_example :
    (r : Result CodecError OperationRequestProfile) × (envelope (8 ∷ 3 ∷ 16 ∷ 3 ∷ 24 ∷ 3 ∷ [])
      ≡ some r)
    × ((p : OperationRequestProfile) → r ≡ ok p → p ≡ current_profile)
envelope-current_example = envelope-current (8 ∷ 3 ∷ 16 ∷ 3 ∷ 24 ∷ 3 ∷ [])

abbrev two_ids : List (Identifier IdKind.content)
two_ids = id 1 ∷ id 2 ∷ []

abbrev packed_ids : List (List ℕ)
packed_ids = as_bytes {k = IdKind.content} (id 1) ∷ as_bytes {k = IdKind.content} (id 2) ∷ []

set_back_example : unpack_set (id_bridge IdKind.content) packed_ids ≡ ok two_ids
unfolding pack_list pack_items pack_identifier charge
set_back_example =
    set_back (id_bridge IdKind.content) two_ids new_budget (record { bytes = 40; depth = 1 })
      packed_ids
      (
        id_back IdKind.content (id 1) (omega arith) (omega arith),
        (id_back IdKind.content (id 2) (omega arith) (omega arith), tt),
      )
      (tt, ((refl, tt), tt)) refl

abbrev versions : List (Identifier IdKind.ground_fact × ℕ)
versions = (id 1, 5) ∷ (id 2, 6) ∷ []

abbrev entry : Bridge (Identifier IdKind.ground_fact × ℕ) (Identifier IdKind.ground_fact × ℕ)
entry = plain_bridge (Identifier IdKind.ground_fact × ℕ)

plain_back : (x : Identifier IdKind.ground_fact × ℕ) → Returns entry x
plain_back x = record { back = λ b b' w h. ground arith }

map_back_example : unpack_map entry versions ≡ ok versions
unfolding pack_list pack_items
map_back_example =
    map_back entry versions new_budget new_budget versions
      (plain_back (id 1, 5), (plain_back (id 2, 6), tt)) (tt, ((refl, tt), tt)) refl

abbrev two_levels_cost : Cost
two_levels_cost = record { bytes = 8960; payload = 2 }

allocation_cost_payload_example : 2 ≤ length two_levels
unfolding allocation_cost cost_levels fields_cost field_cost value_cost delimited_cost nested_cost
    part_cost numbers_cost number_cost packed_cost resume varint varint_loop chunk
allocation_cost_payload_example =
    allocation_cost_payload nested two_levels tt 1 two_levels_cost refl

allocation_cost_returns_example : allocation_cost nested two_levels tt 1 ≢ none
allocation_cost_returns_example = allocation_cost_returns nested two_levels tt 1
