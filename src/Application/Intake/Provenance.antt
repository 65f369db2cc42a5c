-- ===== src/Application/Intake/Provenance.antt =====
-- Where content that passes `Change::check_intake` of src/application/change.rs comes from.
use changekernel.Base.{
  ℕ, ◌≡◌, refl, List, Option, none, some, true, ok, arith, inl, inr, Option-cases,
}
use changekernel.Base.Order.{eq_of_beq, eq_of_not_bne, option_eq, list_eq, nat_eq}
use changekernel.Base.Lists.{Member, find-Member}
use changekernel.Base.BTreeSet.{contains}
use changekernel.Base.BTreeMap.{get}
use changekernel.Kernel.Keys.{
  ContentKey, change_key, change_key_eq, content_key_eq, content_key_ord, content_reference_eq,
}
use changekernel.Kernel.Content.{
  FreshContent, Attribution, IntakeCase, IntakeSnapshot, ContentEstablishment, attribution_eq,
  same_stable_facts,
}
use changekernel.Kernel.Model.Commands.{Operation}
use changekernel.Kernel.State.{State}
use changekernel.Application.Intake.{check_intake, check_case, payload_of, retains_first}

-- The content is already established: these are the retained bytes, and the source is the same.
pub record IsReuse (s : State) (key : ContentKey) (bytes : List ℕ) (snapshot : IntakeSnapshot)
    : Type 0 where
  pub e : ContentEstablishment
  pub found : get s.established key ≡ some e
  pub bytes_retained : get s.content_items key ≡ some bytes
  pub prior : snapshot.prior_establishment ≡ some e.binding
  pub attribution : snapshot.source_claim.attribution ≡ e.original.source_claim.attribution
  pub limitations : snapshot.source_claim.limitations ≡ e.original.source_claim.limitations

-- The operation brings the content as a payload with these bytes and its own source.
pub record IsFresh (s : State) (op : Operation) (key : ContentKey) (bytes : List ℕ)
    (snapshot : IntakeSnapshot) : Type 0 where
  pub p : FreshContent
  pub payload : Member p op.fresh
  pub keyed : p.key ≡ key
  pub same_bytes : bytes ≡ p.bytes
  pub source : snapshot.source_claim.attribution ≡ Attribution.actor p.attributed_source

-- What stands behind content that passes.
pub data Provenance (s : State) (o : Option Operation) (key : ContentKey) (bytes : List ℕ)
    (snapshot : IntakeSnapshot) : Type 0 where
  reuse : IsReuse s key bytes snapshot → Provenance s o key bytes snapshot
  fresh :
      (op : Operation)
      → o ≡ some op
      → get s.established key ≡ none
      → IsFresh s op key bytes snapshot
      → Provenance s o key bytes snapshot
  first :
      (op : Operation)
      → o ≡ some op
      → get s.established key ≡ none
      → contains op.first_retention key ≡ true
      → Provenance s o key bytes snapshot

module _ (s : State) (key : ContentKey) (bytes : List ℕ) (snapshot : IntakeSnapshot) where
  payload-IsFresh :
      (op : Operation) (p : FreshContent)
      → payload_of (some op) key ≡ some p
      → check_case s
          (some op)
          key
          bytes
          IntakeCase.fresh
          snapshot.source_claim
          snapshot.prior_establishment
        ≡ ok tt
      → IsFresh s op key bytes snapshot
  unfolding check_case payload_of
  payload-IsFresh op p e h =
      let (m, q) = find-Member (λ x. content_key_eq.same x.key key) op.fresh e in
      record {
        p = p;
        payload = m;
        keyed = eq_of_beq p.key key q;
        same_bytes = eq_of_not_bne bytes p.bytes (ground arith);
        source =
            eq_of_not_bne snapshot.source_claim.attribution (Attribution.actor p.attributed_source)
              (ground arith);
      }

  established-IsReuse :
      (o : Option Operation)
      → check_case s o key bytes IntakeCase.known_reuse snapshot.source_claim
          snapshot.prior_establishment
        ≡ ok tt
      → IsReuse s key bytes snapshot
  unfolding check_case same_stable_facts
  established-IsReuse o h = elim (Option-cases (get s.established key)) [
    | inl e ↦ absurd (ground arith)
    | inr (x, e) ↦ record {
      e = x;
      found = e;
      bytes_retained = eq_of_not_bne (get s.content_items key) (some bytes) (ground arith);
      prior = eq_of_not_bne snapshot.prior_establishment (some x.binding) (ground arith);
      attribution =
          eq_of_beq snapshot.source_claim.attribution x.original.source_claim.attribution
            (ground arith);
      limitations =
          eq_of_beq snapshot.source_claim.limitations x.original.source_claim.limitations
            (ground arith);
    }
  ]

  case-Provenance :
      (o : Option Operation) (c : IntakeCase)
      → check_case s o key bytes c snapshot.source_claim snapshot.prior_establishment ≡ ok tt
      → Provenance s o key bytes snapshot
  unfolding check_case retains_first payload_of
  case-Provenance o IntakeCase.known_reuse h = Provenance.reuse (established-IsReuse o h)
  case-Provenance none IntakeCase.fresh h = absurd (cc)
  case-Provenance none IntakeCase.first_retention h = absurd (cc)
  case-Provenance (some op) IntakeCase.first_retention h =
      Provenance.first op refl (ground arith) (ground arith)
  case-Provenance (some op) IntakeCase.fresh h = elim (Option-cases (payload_of (some op) key)) [
    | inl e ↦ absurd (ground arith)
    | inr (p, e) ↦ Provenance.fresh op refl (ground arith) (payload-IsFresh op p e h)
  ]

-- Content that passes the check of an intake belongs to this Change, and either is already established,
-- with the very bytes that are retained, the binding, the attribution and the limitations of its
-- establishment; or is not, and the operation at hand brings it, as a payload with these bytes and this
-- source, or as a first retention.
pub checked-Provenance :
    (s : State) (o : Option Operation) (key : ContentKey) (bytes : List ℕ)
    (snapshot : IntakeSnapshot)
    → check_intake s o key bytes snapshot ≡ ok tt
    → (key.establishing ≡ change_key s.identity) × Provenance s o key bytes snapshot
unfolding check_intake
checked-Provenance s o key bytes snapshot h = (
  eq_of_not_bne key.establishing (change_key s.identity) (ground arith),
  case-Provenance s key bytes snapshot o snapshot.case (ground arith),
)
