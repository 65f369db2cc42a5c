-- ===== src/Codec/Costs/Returns.antt =====
-- `allocation_cost` of src/adapters/codec/wire.rs returns on every input and at every depth.
use changekernel.Base.{
  ℕ, zero, suc, ◌+◌, ◌-◌, ◌≤◌, ◌<◌, ◌≡◌, ◌≢◌, List, [], ◌∷◌, none, some, ok, arith, inl, inr,
  Bool-cases,
}
use changekernel.Base.Order.{◌==◌, nat_eq}
use changekernel.Base.Lists.{length}
use changekernel.Codec.{max_depth}
use changekernel.Codec.Varint.Groups.{varint_takes}
use changekernel.Codec.Wire.{Shape, Rule, Schema}
use changekernel.Codec.Scan.{Fuelled}
use changekernel.Codec.Scan.Resume.{resume_returns, some_returns}
use changekernel.Codec.Costs.{
  Cost, number_cost, part_cost, numbers_cost, nested_cost, delimited_cost, value_cost, field_cost,
  fields_cost, first_cost, cost_levels, allocation_cost, packed_cost,
}
use changekernel.Codec.Costs.Bounds.{Spends, field-Spends, levels_payload}

packed_cost_returns :
    (fuel bytes : ℕ) (input : List ℕ) → length input ≤ fuel → packed_cost fuel bytes input ≢ none
unfolding packed_cost
packed_cost_returns fuel bytes [] h = some_returns _
packed_cost_returns zero bytes (b ∷ bs) h = absurd (omega (arith, h))
packed_cost_returns (suc fuel) bytes (b ∷ bs) h = resume_returns _ _ (some_returns _) (λ x e.
    resume_returns _ _ (some_returns _) (λ more _.
      let (_, shorter, _) = varint_takes (b ∷ bs) x.0 x.1 (ground arith) in
      packed_cost_returns fuel more x.1 (omega (arith, shorter, h))))

number_cost_returns : (c : Cost) (input : List ℕ) → number_cost c input ≢ none
unfolding number_cost
number_cost_returns c input = resume_returns _ _ (some_returns _) (λ _ _. some_returns _)

part_cost_returns : (c : Cost) (input : List ℕ) → part_cost c input ≢ none
unfolding part_cost
part_cost_returns c input =
    resume_returns _ _ (some_returns _)
      (λ _ _. resume_returns _ _ (some_returns _) (λ _ _. some_returns _))

numbers_cost_returns : (c : Cost) (input : List ℕ) → numbers_cost c input ≢ none
unfolding numbers_cost
numbers_cost_returns c input = resume_returns _ _ (some_returns _) (λ x _.
    resume_returns _ _ (packed_cost_returns (length x.0) c.bytes x.0 (omega arith))
      (λ _ _. some_returns _))

module _ {N : Type 0} (inner : N → List ℕ → Fuelled Cost)
    (returns : (c : N) (part : List ℕ) → inner c part ≢ none) where
  nested_cost_returns :
      (child : N) (c : Cost) (input : List ℕ) → nested_cost inner child c input ≢ none
  unfolding nested_cost
  nested_cost_returns child c input = resume_returns _ _ (some_returns _) (λ x _.
      resume_returns _ _ (returns child x.0) (λ _ _.
        resume_returns _ _ (some_returns _)
          (λ _ _. resume_returns _ _ (some_returns _) (λ _ _. some_returns _))))

  delimited_cost_returns :
      (rule : Rule N) (shape : Shape N) (c : Cost) (input : List ℕ)
      → delimited_cost inner rule shape c input ≢ none
  unfolding delimited_cost
  delimited_cost_returns rule (Shape.message child) c input h = nested_cost_returns child c input h
  delimited_cost_returns rule Shape.id c input h = part_cost_returns c input h
  delimited_cost_returns rule Shape.content c input h = part_cost_returns c input h
  delimited_cost_returns rule shape c input h = elim (Bool-cases rule.repeated) [
    | inl r ↦ numbers_cost_returns c input (ground arith)
    | inr r ↦ ground arith
  ]

  value_cost_returns :
      (rule : Rule N) (wire : ℕ) (c : Cost) (input : List ℕ)
      → value_cost inner rule wire c input ≢ none
  unfolding value_cost
  value_cost_returns rule wire c input h = elim (Bool-cases (wire == 2)) [
    | inl two ↦ delimited_cost_returns rule rule.shape c input (ground arith)
    | inr other ↦ elim (Bool-cases (wire == 0)) [
      | inl z ↦ number_cost_returns c input (ground arith)
      | inr s ↦ ground arith
    ]
  ]

  field_cost_returns :
      (s : Schema N) (c : Cost) (input : List ℕ) → field_cost inner s c input ≢ none
  unfolding field_cost
  field_cost_returns s c input = resume_returns _ _ (some_returns _) (λ x _.
      resume_returns _ _ (some_returns _)
        (λ y _. resume_returns _ _ (some_returns _) (λ _ _. value_cost_returns y.1 _ _ x.1)))

  fields_cost_returns :
      (fuel : ℕ) (s : Schema N) (c : Cost) (input : List ℕ)
      → ((n : N) (part : List ℕ) (d : Cost) → inner n part ≡ some (ok d) → d.payload ≤ length part)
      → length input ≤ fuel
      → fields_cost inner fuel s c input ≢ none
  unfolding fields_cost
  fields_cost_returns fuel s c [] bounded h = some_returns _
  fields_cost_returns zero s c (b ∷ bs) bounded h = absurd (omega (arith, h))
  fields_cost_returns (suc fuel) s c (b ∷ bs) bounded h =
      resume_returns _ _ (field_cost_returns s c (b ∷ bs)) (λ x e.
        let step : Spends (b ∷ bs) c x.1 x.0 = field-Spends inner bounded s c x.0 (b ∷ bs) x.1 e in
        fields_cost_returns fuel s x.0 x.1 bounded (omega (arith, step.shorter, h)))

module _ {N : Type 0} (schema : N → Schema N) where
  cost_levels_return :
      (levels depth : ℕ) (name : N) (input : List ℕ)
      → 0 < levels
      → max_depth + 1 < depth + levels
      → cost_levels schema levels depth name input ≢ none
  unfolding cost_levels
  cost_levels_return zero depth name input positive enough = absurd (omega (arith, positive))
  cost_levels_return (suc levels) depth name input positive enough =
      resume_returns _ _ (some_returns _) (λ _ shallow.
        let within : depth ≤ max_depth = ground arith in
        fields_cost_returns (cost_levels schema levels (depth + 1))
          (λ c part.
            cost_levels_return levels (depth + 1) c part (omega (arith, within, enough))
              (omega (arith, enough)))
          (length input) (schema name) first_cost input (levels_payload schema levels (depth + 1))
          (omega arith))

  -- `allocation_cost` returns on every input and at every depth.
  pub allocation_cost_returns :
      (input : List ℕ) (name : N) (depth : ℕ) → allocation_cost schema input name depth ≢ none
  unfolding allocation_cost
  allocation_cost_returns input name depth =
      cost_levels_return (suc (max_depth + 1 - depth)) depth name input (omega arith) (omega arith)
