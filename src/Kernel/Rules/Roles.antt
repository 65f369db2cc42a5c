-- ===== src/Kernel/Rules/Roles.antt =====
-- `Terms::references`, `Terms::validate_roles` and the contents that terms and assessments name.
use changekernel.Base.{List, [], ◌∷◌, ◌++◌, ◌||◌, not, Result, ok, reject_if, ◌>>◌}
use changekernel.Base.Order.{◌!=◌, nat_eq}
use changekernel.Base.Lists.{length, any, is_empty, flat_map}
use changekernel.Base.BTreeSet.{BTreeSet, contains, extend, collect, is_subset}
use changekernel.Kernel.Ids.{Error}
use changekernel.Kernel.Keys.{ContentKey, ContentReference, content_key_ord, content_reference_ord}
use changekernel.Kernel.Model.Terms.{Terms, TermSelection, Criterion, Unknown, Evidence, Assessment}

unfoldable pub references : Terms → BTreeSet ContentReference
references t = collect (
    flat_map (λ b. b.statement ∷ b.context) t.binding
    ++ (t.context
        ++ (flat_map (λ c. c.definition ∷ c.terms) t.criteria
            ++ flat_map (λ u. u.affected) t.unknowns)))

abbrev pub statements : List TermSelection → List ContentReference
statements [] = []
statements (t ∷ ts) = t.statement ∷ statements ts

abbrev pub contents : List ContentReference → List ContentKey
contents [] = []
contents (r ∷ rs) = r.content ∷ contents rs

abbrev pub definitions : List Criterion → List ContentKey
definitions [] = []
definitions (c ∷ cs) = c.definition.content ∷ definitions cs

unfoldable pub validate_roles : Terms → Result Error (Unit {0})
validate_roles t = do
  let selected = collect (statements t.binding)
  reject_if
      (length selected != length t.binding
        || (any (λ b. not (is_subset b.context t.context)) t.binding
            || any (λ c. is_empty c.terms || not (is_subset c.terms selected)) t.criteria))
      Error.invalid
  let binding = collect (contents selected ++ definitions t.criteria)
  reject_if (any (λ r. contains binding r.content) t.context) Error.conflict
  ok tt

-- `evidence_content_items`
unfoldable pub evidence_content_items : List Evidence → BTreeSet ContentKey → BTreeSet ContentKey
evidence_content_items [] out = out
evidence_content_items (e ∷ es) out =
    evidence_content_items es (extend out (e.content ∷ e.limitations ∷ []))

abbrev pub unknown_content_items : List Unknown → BTreeSet ContentKey → BTreeSet ContentKey
unknown_content_items [] out = out
unknown_content_items (u ∷ us) out =
    unknown_content_items us (extend out (u.question ∷ u.bounded_by ∷ []))

-- `terms_content_items`
unfoldable pub terms_content_items : Terms → BTreeSet ContentKey → BTreeSet ContentKey
terms_content_items t out = unknown_content_items t.unknowns (extend out (contents (references t)))

-- `assessment_content_items`
unfoldable pub assessment_content_items : Assessment → BTreeSet ContentKey → BTreeSet ContentKey
assessment_content_items a out =
    extend
      (extend out (
        a.feasibility ∷ a.capabilities ∷ a.resources ∷ a.commitments ∷ a.coverage ∷ a.limitations
        ∷ []))
      a.blockers
