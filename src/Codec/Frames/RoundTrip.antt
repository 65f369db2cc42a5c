-- ===== src/Codec/Frames/RoundTrip.antt =====
-- What `frame` writes, `body` reads back: src/adapters/codec/framing.rs and read_framing.rs.
use changekernel.Base.{
  arith, ℕ, zero, suc, ◌∙◌, ◌+◌, ◌-◌, ◌%◌, ◌^◌, ◌≤◌, ◌<◌, ◌≡◌, refl, sym, ap, subst, List, [], ◌∷◌,
  ◌++◌, some, ok,
}
use changekernel.Base.Order.{nat_eq, list_eq, bne_refl}
use changekernel.Base.Lists.{length, take, drop, length-append, take-append, drop-append}
use changekernel.Kernel.Ids.Bytes.{byte_digits, byte_value, value-digits, length-digits}
use changekernel.Codec.{max_frame}
use changekernel.Codec.Wire.{Schema}
use changekernel.Codec.Scan.Resume.{resume-eq-ok}
use changekernel.Codec.Frames.{
  Message, body, frame, be_bytes, from_be_bytes, read_body, read_frame, read_protocol_version,
  reply_max,
}

value-be_bytes : (n : ℕ) → n < 2 ^ 32 → from_be_bytes (be_bytes n) ≡ n
value-be_bytes n h =
    let low : n % 2 ^ 32 ≡ n = omega (arith, h) in
    subst (λ k. byte_value (byte_digits 4 k) ≡ n) (sym low) (value-digits 4 n (omega (arith, h)))

-- The first four bytes and what follows them.
first_four :
    (a rest : List ℕ) → length a ≡ 4 → (take 4 (a ++ rest) ≡ a) × (drop 4 (a ++ rest) ≡ rest)
first_four a rest h = (
  subst (λ n. take n (a ++ rest) ≡ a) h (take-append a rest),
  subst (λ n. drop n (a ++ rest) ≡ rest) h (drop-append a rest),
)

drop_nil : (n : ℕ) → drop {A = ℕ} n [] ≡ []
drop_nil zero = refl
drop_nil (suc n) = refl

drop_more : (m n k : ℕ) (xs : List ℕ) → k ≡ m + n → drop k xs ≡ drop n (drop m xs)
drop_more zero n k xs h = ap (λ (j : ℕ). drop j xs) (omega (arith, h))
drop_more (suc m) n zero xs h = absurd (omega (arith, h))
drop_more (suc m) n (suc k) [] h = sym (drop_nil n)
drop_more (suc m) n (suc k) (x ∷ xs) h = drop_more m n k xs (omega (arith, h))

-- The three parts of a frame.
record Parts (magic size payload : List ℕ) : Type 0 where
  pub whole : List ℕ
  pub same : whole ≡ magic ++ (size ++ payload)
  pub start : take 4 whole ≡ magic
  pub middle : take 4 (drop 4 whole) ≡ size
  pub rest : drop 8 whole ≡ payload
  pub size_of : length whole ≡ 8 + length payload

frame-Parts :
    (magic size payload : List ℕ) → length magic ≡ 4 → length size ≡ 4 → Parts magic size payload
frame-Parts magic size payload h k =
    let whole : List ℕ = magic ++ (size ++ payload) in
    let (start, after) = first_four magic (size ++ payload) h in
    let (second, last) = first_four size payload k in
    let past : drop 8 whole ≡ drop 4 (drop 4 whole) = drop_more 4 4 8 whole refl in
    record {
      whole = whole;
      same = refl;
      start = start;
      middle = subst (λ xs. take 4 xs ≡ size) (sym after) second;
      rest = past ∙ (ap (λ xs. drop 4 xs) after ∙ last);
      size_of =
          omega (arith, h, k, length-append magic (size ++ payload), length-append size payload);
    }

body_of :
    (out magic payload : List ℕ)
    → length out ≡ 8 + length payload
    → take 4 out ≡ magic
    → from_be_bytes (take 4 (drop 4 out)) ≡ length payload
    → drop 8 out ≡ payload
    → length out ≤ max_frame
    → body out magic ≡ ok payload
unfolding body
body_of out magic payload size start middle rest fits =
    let left : length out - 8 ≡ length payload = omega (arith, size) in
    ground (arith, size, bne_refl magic, bne_refl (length payload))

-- A frame that is written has at most the size of a frame, and its body is the encoding of the value.
pub frame-body :
    {N W : Type 0} (schema : N → Schema N) (m : Message N W) (value : W) (magic out : List ℕ)
    → length magic ≡ 4
    → frame schema m value magic ≡ some (ok out)
    → (length out ≤ max_frame) × (body out magic ≡ ok (m.encode value))
unfolding frame
frame-body schema m value magic out h e =
    let payload : List ℕ = m.encode value in
    let (whole, e0, h1) = resume-eq-ok _ _ e in
    let (_, e1, h2) = resume-eq-ok _ _ h1 in
    let (_, e2, h3) = resume-eq-ok _ _ h2 in
    let written : magic ++ (be_bytes (length payload) ++ payload) ≡ out = ground arith in
    let fits : 8 + length payload ≤ max_frame = ground arith in
    let s =
      frame-Parts magic (be_bytes (length payload)) payload h
        (length-digits 4 (length payload % 2 ^ 32)) in
    let same : s.whole ≡ out = s.same ∙ written in
    let number : from_be_bytes (be_bytes (length payload)) ≡ length payload =
      value-be_bytes (length payload) (omega (arith, fits)) in
    subst (λ x. (length x ≤ max_frame) × (body x magic ≡ ok payload)) same
      (
        omega (arith, s.size_of, fits),
        body_of s.whole magic payload s.size_of s.start (ap from_be_bytes s.middle ∙ number) s.rest
            (omega (arith, s.size_of, fits)),
      )

read_body_of :
    (out magic payload : List ℕ) (maximum : ℕ)
    → length out ≡ 12 + length payload
    → take 4 out ≡ magic
    → from_be_bytes (take 4 (drop 4 out)) ≡ read_protocol_version
    → from_be_bytes (take 4 (drop 8 out)) ≡ length payload
    → drop 12 out ≡ payload
    → length out ≤ maximum
    → read_body out magic maximum ≡ ok payload
unfolding read_body
read_body_of out magic payload maximum size start version middle rest fits =
    let left : length out - 12 ≡ length payload = omega (arith, size) in
    ground (arith, size, bne_refl magic, bne_refl (length payload))

-- A frame of the read protocol that is written has at most the maximal size, and under a maximum that is
-- not below this one, its body is the encoding of the value.
pub read_frame-read_body :
    {N W : Type 0} (schema : N → Schema N) (m : Message N W) (value : W) (magic out : List ℕ)
    (maximum limit : ℕ)
    → length magic ≡ 4
    → maximum ≤ limit
    → maximum ≤ reply_max
    → read_frame schema m value magic maximum ≡ some (ok out)
    → (length out ≤ maximum) × (read_body out magic limit ≡ ok (m.encode value))
unfolding read_frame
read_frame-read_body schema m value magic out maximum limit h below small e =
    let payload : List ℕ = m.encode value in
    let version : List ℕ = be_bytes read_protocol_version in
    let (whole, e0, h1) = resume-eq-ok _ _ e in
    let (_, e1, h2) = resume-eq-ok _ _ h1 in
    let (_, e2, h3) = resume-eq-ok _ _ h2 in
    let total : whole ≡ length payload + 12 = ground arith in
    let count : whole - 12 ≡ length payload = omega (arith, total) in
    let size : List ℕ = be_bytes (whole - 12) in
    let written : magic ++ (version ++ (size ++ payload)) ≡ out = ground arith in
    let fits : 12 + length payload ≤ maximum = ground (arith, total) in
    let s = frame-Parts magic version (size ++ payload) h refl in
    let same : s.whole ≡ out = s.same ∙ written in
    let (second, last) = first_four size payload (length-digits 4 ((whole - 12) % 2 ^ 32)) in
    let number : from_be_bytes size ≡ length payload =
      value-be_bytes (whole - 12) (omega (arith, fits, small, count)) ∙ count in
    let past : drop 12 s.whole ≡ payload =
      drop_more 8 4 12 s.whole refl ∙ (ap (λ xs. drop 4 xs) s.rest ∙ last) in
    let long : length s.whole ≡ 12 + length payload =
      omega
        (arith, s.size_of, length-append size payload, length-digits 4 ((whole - 12) % 2 ^ 32)) in
    let sized : from_be_bytes (take 4 (drop 8 s.whole)) ≡ length payload =
      ap (λ xs. from_be_bytes (take 4 xs)) s.rest ∙ (ap from_be_bytes second ∙ number) in
    subst (λ x. (length x ≤ maximum) × (read_body x magic limit ≡ ok payload)) same
      (
        omega (arith, long, fits),
        read_body_of s.whole magic payload limit long s.start (ap from_be_bytes s.middle ∙ refl)
            sized past (omega (arith, long, fits, below)),
      )
