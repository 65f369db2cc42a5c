-- ===== src/Codec/Scan/Returns.antt =====
-- `scan` of src/adapters/codec/wire.rs returns on every input and at every depth.
use changekernel.Base.{
  ℕ, zero, suc, ◌+◌, ◌-◌, ◌≤◌, ◌<◌, ◌≢◌, List, [], ◌∷◌, none, ◌&&◌, arith, inl, inr, Bool-cases,
}
use changekernel.Base.Order.{◌==◌, nat_eq}
use changekernel.Base.Lists.{length}
use changekernel.Codec.{max_depth}
use changekernel.Codec.Varint.Groups.{varint_takes}
use changekernel.Codec.Wire.{Shape, Rule, Schema}
use changekernel.Codec.Scan.{
  Fuelled, Scanning, packable, packed_loop, packed_field, value_of, single_field, field_value,
  field, fields, scan_levels, scan, started, at,
}
use changekernel.Codec.Scan.Resume.{resume_returns, some_returns}
use changekernel.Codec.Scan.Bounds.{IsBounded, Advances, levels_bound, field-Advances}

module _ {N : Type 0} where
  packed_loop_returns :
      (fuel : ℕ) (rule : Rule N) (count : ℕ) (input : List ℕ)
      → length input ≤ fuel
      → packed_loop fuel rule count input ≢ none
  unfolding packed_loop
  packed_loop_returns fuel rule count [] h = some_returns _
  packed_loop_returns zero rule count (b ∷ bs) h = absurd (omega (arith, h))
  packed_loop_returns (suc fuel) rule count (b ∷ bs) h = resume_returns _ _ (some_returns _) (λ _ _.
      resume_returns _ _ (some_returns _) (λ x e. resume_returns _ _ (some_returns _) (λ _ _.
        let (_, shorter, _) = varint_takes (b ∷ bs) x.0 x.1 (ground arith) in
        packed_loop_returns fuel rule (count + 1) x.1 (omega (arith, shorter, h)))))

  packed_field_returns :
      (rule : Rule N) (index : ℕ) (st : Scanning) (input : List ℕ)
      → packed_field rule index st input ≢ none
  unfolding packed_field
  packed_field_returns rule index st input = resume_returns _ _ (some_returns _) (λ x e.
      resume_returns _ _
        (packed_loop_returns (length x.0) rule (at st.counts index) x.0 (omega arith))
        (λ _ _. some_returns _))

module _ {N : Type 0} (inner : N → List ℕ → Fuelled ℕ)
    (returns : (c : N) (part : List ℕ) → inner c part ≢ none) (bounded : IsBounded inner) where
  value_returns :
      (shape : Shape N) (wire : ℕ) (input : List ℕ) → value_of inner shape wire input ≢ none
  unfolding value_of
  value_returns (Shape.message child) wire input = resume_returns _ _ (some_returns _) (λ _ _.
      resume_returns _ _ (some_returns _)
        (λ x _. resume_returns _ _ (returns child x.0) (λ _ _. some_returns _)))
  value_returns Shape.id wire input = resume_returns _ _ (some_returns _) (λ _ _.
      resume_returns _ _ (some_returns _)
        (λ x _. resume_returns _ _ (some_returns _) (λ _ _. some_returns _)))
  value_returns Shape.content wire input = resume_returns _ _ (some_returns _) (λ _ _.
      resume_returns _ _ (some_returns _)
        (λ x _. resume_returns _ _ (some_returns _) (λ _ _. some_returns _)))
  value_returns shape wire input = resume_returns _ _ (some_returns _) (λ _ _.
      resume_returns _ _ (some_returns _)
        (λ x _. resume_returns _ _ (some_returns _) (λ _ _. some_returns _)))

  field_value_returns :
      (rule : Rule N) (index wire : ℕ) (st : Scanning) (input : List ℕ)
      → field_value inner rule index wire st input ≢ none
  unfolding field_value single_field
  field_value_returns rule index wire st input h =
      elim (Bool-cases (rule.repeated && (wire == 2 && packable rule.shape))) [
        | inl p ↦ packed_field_returns rule index st input (ground arith)
        | inr p ↦ single_returns (ground arith)
      ]
    where
      single_returns : single_field inner rule index wire st input ≢ none
      single_returns = resume_returns _ _ (some_returns _) (λ _ _.
          resume_returns _ _ (value_returns rule.shape wire input)
            (λ _ _. resume_returns _ _ (some_returns _) (λ _ _. some_returns _)))

  field_returns : (s : Schema N) (st : Scanning) (input : List ℕ) → field inner s st input ≢ none
  unfolding field
  field_returns s st input = resume_returns _ _ (some_returns _) (λ x _.
      resume_returns _ _ (some_returns _) (λ y _. resume_returns _ _ (some_returns _) (λ _ _.
        resume_returns _ _ (some_returns _) (λ _ _. field_value_returns y.1 y.0 x.1 _ x.2))))

  fields_returns :
      (fuel : ℕ) (s : Schema N) (st : Scanning) (input : List ℕ)
      → length input ≤ fuel
      → fields inner fuel s st input ≢ none
  unfolding fields
  fields_returns fuel s st [] h = some_returns _
  fields_returns zero s st (b ∷ bs) h = absurd (omega (arith, h))
  fields_returns (suc fuel) s st (b ∷ bs) h =
      resume_returns _ _ (field_returns s st (b ∷ bs)) (λ x e.
        let step : Advances (b ∷ bs) st x.1 x.0 =
          field-Advances inner bounded s st x.0 (b ∷ bs) x.1 e in
        fields_returns fuel s x.0 x.1 (omega (arith, step.shorter, h)))

module _ {N : Type 0} (schema : N → Schema N) where
  levels_return :
      (levels depth : ℕ) (name : N) (input : List ℕ)
      → 0 < levels
      → max_depth + 1 < depth + levels
      → scan_levels schema levels depth name input ≢ none
  unfolding scan_levels
  levels_return zero depth name input positive enough = absurd (omega (arith, positive))
  levels_return (suc levels) depth name input positive enough =
      resume_returns _ _ (some_returns _) (λ _ shallow.
        let within : depth ≤ max_depth = ground arith in
        resume_returns _ _ (some_returns _) (λ _ _.
          resume_returns _ _
            (fields_returns (scan_levels schema levels (depth + 1))
              (λ c part.
                levels_return levels (depth + 1) c part (omega (arith, within, enough))
                  (omega (arith, enough)))
              (levels_bound schema levels (depth + 1)) (length input) (schema name) started input
              (omega arith))
            (λ _ _. some_returns _)))

  -- `scan` returns on every input and at every depth: the depth that it admits bounds the recursion, also
  -- where schemas name each other, and every round of a loop takes bytes of the input.
  pub scan_returns : (input : List ℕ) (name : N) (depth : ℕ) → scan schema input name depth ≢ none
  unfolding scan
  scan_returns input name depth =
      levels_return (suc (max_depth + 1 - depth)) depth name input (omega arith) (omega arith)
