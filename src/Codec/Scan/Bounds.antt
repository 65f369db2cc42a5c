-- ===== src/Codec/Scan/Bounds.antt =====
-- `scan` of src/adapters/codec/wire.rs takes its input once: every round goes on, and the bytes of
-- content that are counted are bytes of the input.
use changekernel.Base.{
  ℕ, zero, suc, ◌+◌, ◌-◌, ◌≤◌, ◌<◌, ◌≡◌, ap, List, [], ◌∷◌, some, ◌||◌, ◌&&◌, ok, arith, inl, inr,
  Bool-cases, Result-cases,
}
use changekernel.Base.Order.{◌==◌, nat_eq}
use changekernel.Base.Lists.{length}
use changekernel.Codec.{max_depth}
use changekernel.Codec.Varint.{varint}
use changekernel.Codec.Varint.Groups.{varint_takes, chunk_takes}
use changekernel.Codec.Wire.{Shape, Rule, Schema, field_key}
use changekernel.Codec.Scan.{
  Fuelled, Scanning, at, set_at, packable, packed_field, leaf, count_fresh, account, finish,
  value_of, single_field, field_value, field, fields, scan_levels, scan, started,
}
use changekernel.Codec.Scan.Resume.{resume-eq-ok}

pub key_takes :
    (input : List ℕ) (tag wire : ℕ) (rest : List ℕ)
    → field_key input ≡ ok (tag, wire, rest)
    → length rest < length input
key_takes input tag wire rest h = elim (Result-cases (varint input)) [
  | inr (e, f) ↦ absurd (ground arith)
  | inl ((n, tail), f) ↦ let (_, shorter, _) = varint_takes input n tail f in ground arith
]

-- A step from one input to what is left of it.
pub record Advances (input : List ℕ) (st : Scanning) (rest : List ℕ) (st' : Scanning) : Type 0 where
  pub shorter : length rest < length input
  pub bound : st'.content_bytes + length rest ≤ st.content_bytes + length input

module _ {N : Type 0} where
  leaf_bound : (shape : Shape N) (part : List ℕ) (n : ℕ) → leaf shape part ≡ ok n → n ≤ length part
  unfolding leaf
  leaf_bound Shape.id part n h = ground arith
  leaf_bound shape part n h = ground arith

  account_adds :
      (rule : Rule N) (index n : ℕ) (st st' : Scanning)
      → account rule index n st ≡ ok st'
      → st'.content_bytes ≡ st.content_bytes + n
  unfolding account count_fresh
  account_adds rule index n st st' h = ground arith

  packed_field-Advances :
      (rule : Rule N) (index : ℕ) (st st' : Scanning) (input rest : List ℕ)
      → packed_field rule index st input ≡ some (ok (st', rest))
      → Advances input st rest st'
  unfolding packed_field
  packed_field-Advances rule index st st' input rest h =
      let ((part, tail), e, h1) = resume-eq-ok _ _ h in
      let (count, f, h2) = resume-eq-ok _ _ h1 in
      let taken : length part + length tail < length input =
        chunk_takes input part tail (ground arith) in
      let left : tail ≡ rest = ground arith in
      let same : st'.content_bytes ≡ st.content_bytes = ground arith in
      record {
        shorter = omega (arith, taken, ap length left);
        bound = omega (arith, taken, ap length left, same);
      }

-- The recursive call counts at most the bytes that it is given.
abbrev pub IsBounded : {N : Type 0} → (N → List ℕ → Fuelled ℕ) → Type 0
IsBounded {N} inner = (c : N) (part : List ℕ) (n : ℕ) → inner c part ≡ some (ok n) → n ≤ length part

module _ {N : Type 0} (inner : N → List ℕ → Fuelled ℕ) (bounded : IsBounded inner) where
  value_bound :
      (shape : Shape N) (wire : ℕ) (input : List ℕ) (n : ℕ) (rest : List ℕ)
      → value_of inner shape wire input ≡ some (ok (n, rest))
      → (length rest < length input) × (n + length rest ≤ length input)
  unfolding value_of
  value_bound (Shape.message child) wire input n rest h =
      let (_, _, h1) = resume-eq-ok _ _ h in
      let ((part, tail), e, h2) = resume-eq-ok _ _ h1 in
      let (b, f, h3) = resume-eq-ok _ _ h2 in
      let taken = chunk_takes input part tail (ground arith) in
      let within = bounded child part b f in ground (arith, taken, within)
  value_bound Shape.id wire input n rest h =
      let (_, _, h1) = resume-eq-ok _ _ h in
      let ((part, tail), e, h2) = resume-eq-ok _ _ h1 in
      let (b, f, h3) = resume-eq-ok _ _ h2 in
      let taken = chunk_takes input part tail (ground arith) in
      let within = leaf_bound {N = N} Shape.id part b (ground arith) in
      ground (arith, taken, within)
  value_bound Shape.content wire input n rest h =
      let (_, _, h1) = resume-eq-ok _ _ h in
      let ((part, tail), e, h2) = resume-eq-ok _ _ h1 in
      let (b, f, h3) = resume-eq-ok _ _ h2 in
      let taken = chunk_takes input part tail (ground arith) in
      let within = leaf_bound {N = N} Shape.content part b (ground arith) in
      ground (arith, taken, within)
  value_bound shape wire input n rest h =
      let (_, _, h1) = resume-eq-ok _ _ h in
      let ((value, tail), e, h2) = resume-eq-ok _ _ h1 in
      let (_, _, h3) = resume-eq-ok _ _ h2 in
      let (_, shorter, _) = varint_takes input value tail (ground arith) in ground (arith, shorter)

  single_field-Advances :
      (rule : Rule N) (index wire : ℕ) (st st' : Scanning) (input rest : List ℕ)
      → single_field inner rule index wire st input ≡ some (ok (st', rest))
      → Advances input st rest st'
  unfolding single_field
  single_field-Advances rule index wire st st' input rest h =
      let (_, _, h1) = resume-eq-ok _ _ h in
      let ((n, tail), e, h2) = resume-eq-ok _ _ h1 in
      let (st'', f, h3) = resume-eq-ok _ _ h2 in
      let (shorter, within) = value_bound rule.shape wire input n tail e in
      let counted : Scanning = record st {
        counts = set_at st.counts index (at st.counts index + 1);
      } in
      let added = account_adds rule index n counted st'' (ground arith) in
      let left : tail ≡ rest = ground arith in
      let same : st'' ≡ st' = ground arith in
      record {
        shorter = omega (arith, shorter, ap length left);
        bound =
            omega
              (arith, within, ap length left, added, ap (λ (x : Scanning). x.content_bytes) same);
      }

  pub field-Advances :
      (s : Schema N) (st st' : Scanning) (input rest : List ℕ)
      → field inner s st input ≡ some (ok (st', rest))
      → Advances input st rest st'
  unfolding field field_value
  field-Advances s st st' input rest h =
      let ((tag, wire, tail), e, h1) = resume-eq-ok _ _ h in
      let ((index, rule), f, h2) = resume-eq-ok _ _ h1 in
      let (_, _, h3) = resume-eq-ok _ _ h2 in
      let (_, _, h4) = resume-eq-ok _ _ h3 in
      let seen : Scanning = record st { oneof_seen = s.oneof || st.oneof_seen } in
      let taken = key_takes input tag wire tail (ground arith) in
      let step : Advances tail seen rest st' =
        elim (Bool-cases (rule.repeated && (wire == 2 && packable rule.shape))) [
          | inl p ↦ packed_field-Advances rule index seen st' tail rest (ground arith)
          | inr p ↦ single_field-Advances rule index wire seen st' tail rest (ground arith)
        ] in
      record {
        shorter = omega (arith, taken, step.shorter);
        bound = omega (arith, taken, step.bound);
      }

  fields_bound :
      (fuel : ℕ) (s : Schema N) (st st' : Scanning) (input : List ℕ)
      → fields inner fuel s st input ≡ some (ok st')
      → st'.content_bytes ≤ st.content_bytes + length input
  unfolding fields
  fields_bound fuel s st st' [] h = ground arith
  fields_bound zero s st st' (b ∷ bs) h = absurd (cc)
  fields_bound (suc fuel) s st st' (b ∷ bs) h =
      let ((st'', rest), e, h1) = resume-eq-ok _ _ h in
      let step = field-Advances s st st'' (b ∷ bs) rest e in
      let later = fields_bound fuel s st'' st' rest h1 in omega (arith, step.bound, later)

module _ {N : Type 0} (schema : N → Schema N) where
  pub levels_bound : (levels depth : ℕ) → IsBounded (scan_levels schema levels depth)
  unfolding scan_levels finish
  levels_bound zero depth c part n h = absurd (cc)
  levels_bound (suc levels) depth c part n h =
      let (_, _, h1) = resume-eq-ok _ _ h in
      let (_, _, h2) = resume-eq-ok _ _ h1 in
      let (st, e, h3) = resume-eq-ok _ _ h2 in
      let whole =
        fields_bound (scan_levels schema levels (depth + 1)) (levels_bound levels (depth + 1))
          (length part) (schema c) started st part e in
      ground (arith, whole)

  -- The content bytes that `scan` returns are at most the bytes that it is given.
  pub scan_bound :
      (input : List ℕ) (name : N) (depth n : ℕ)
      → scan schema input name depth ≡ some (ok n)
      → n ≤ length input
  unfolding scan
  scan_bound input name depth n h = levels_bound (suc (max_depth + 1 - depth)) depth name input n h
