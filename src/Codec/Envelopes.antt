-- ===== src/Codec/Envelopes.antt =====
-- `envelope` of src/adapters/codec/wire.rs returns, and only the current profile.
use changekernel.Base.{
  ℕ, zero, suc, ◌≤◌, ◌<◌, ◌≡◌, ◌≢◌, List, [], ◌∷◌, none, some, ◌&&◌, Result, ok, err, arith, inl,
  inr, Bool-cases, Option-cases, Result-cases, leb,
}
use changekernel.Base.Order.{◌==◌, nat_eq, eq_of_beq}
use changekernel.Base.Lists.{length}
use changekernel.Application.Requests.{
  OperationRequestProfile, current_profile, is_current, profile_eq,
}
use changekernel.Codec.{CodecError}
use changekernel.Codec.Varint.{varint, chunk}
use changekernel.Codec.Varint.Groups.{varint_takes, chunk_takes}
use changekernel.Codec.Scan.Bounds.{key_takes}
use changekernel.Codec.Wire.{
  Versions, field_key, version_field, opaque_field, envelope_value, envelope_field, envelope_loop,
  envelope, profile_of, no_versions,
}

version_takes :
    (v v' : Versions) (tag wire : ℕ) (input rest : List ℕ)
    → version_field v tag wire input ≡ ok (v', rest)
    → length rest < length input
unfolding version_field
version_takes v v' tag wire input rest h = elim (Result-cases (varint input)) [
  | inr (e, f) ↦ absurd (ground arith)
  | inl ((n, tail), f) ↦ let (_, shorter, _) = varint_takes input n tail f in ground arith
]

opaque_takes :
    (wire : ℕ) (input rest : List ℕ)
    → opaque_field wire input ≡ ok rest
    → length rest < length input
unfolding opaque_field
opaque_takes wire input rest h = elim (Bool-cases (wire == 0)) [
  | inl z ↦ elim (Result-cases (varint input)) [
    | inr (e, f) ↦ absurd (ground arith)
    | inl ((n, tail), f) ↦ let (_, shorter, _) = varint_takes input n tail f in ground arith
  ]
  | inr s ↦ elim (Result-cases (chunk input)) [
    | inr (e, f) ↦ absurd (ground arith)
    | inl ((part, tail), f) ↦ let shorter = chunk_takes input part tail f in ground arith
  ]
]

field_takes :
    (v v' : Versions) (input rest : List ℕ)
    → envelope_field v input ≡ ok (v', rest)
    → length rest < length input
unfolding envelope_field envelope_value
field_takes v v' input rest h = elim (Result-cases (field_key input)) [
  | inr (e, f) ↦ absurd (ground arith)
  | inl ((tag, wire, tail), f) ↦
      let shorter = key_takes input tag wire tail f in
      elim (Bool-cases (leb 1 tag && leb tag 3)) [
        | inl t ↦
            let later = version_takes v v' tag wire tail rest (ground arith) in
            omega (arith, shorter, later)
        | inr t ↦ elim (Result-cases (opaque_field wire tail)) [
          | inr (e, g) ↦ absurd (ground arith)
          | inl (left, g) ↦ let later = opaque_takes wire tail left g in ground arith
        ]
      ]
]

loop_returns :
    (fuel : ℕ) (v : Versions) (input : List ℕ)
    → length input ≤ fuel
    → envelope_loop fuel v input ≢ none
unfolding envelope_loop
loop_returns fuel v [] h e = cc
loop_returns zero v (b ∷ bs) h e = absurd (omega (arith, h))
loop_returns (suc fuel) v (b ∷ bs) h e = elim (Result-cases (envelope_field v (b ∷ bs))) [
  | inr (x, f) ↦ absurd (ground arith)
  | inl ((v', rest), f) ↦
      let shorter = field_takes v v' (b ∷ bs) rest f in
      loop_returns fuel v' rest (omega (arith, shorter, h)) (ground arith)
]

profile_current :
    (v : Versions) (p : OperationRequestProfile) → profile_of v ≡ ok p → p ≡ current_profile
unfolding is_current
profile_current v p h = eq_of_beq p current_profile (ground arith)

-- `envelope` returns on every input, and the profile that it accepts is the current one.
pub envelope-current :
    (input : List ℕ)
    → (r : Result CodecError OperationRequestProfile) × (envelope input ≡ some r)
      × ((p : OperationRequestProfile) → r ≡ ok p → p ≡ current_profile)
unfolding envelope
envelope-current input = elim (Option-cases (envelope_loop (length input) no_versions input)) [
  | inl e ↦ absurd (loop_returns (length input) no_versions input (omega arith) e)
  | inr (err x, e) ↦ (err x, ground arith, λ p f. absurd (cc))
  | inr (ok v, e) ↦ (profile_of v, ground arith, λ p f. profile_current v p f)
]
