-- ===== src/Examples/Contents.antt =====
-- The theorems on content, grounds and identities at small inputs.
use changekernel.Base.{ℕ, List, ◌↔◌, ◌≡◌, refl, none, some, [], ◌∷◌, false, ok, arith}
use changekernel.Kernel.Ids.{IdKind, from_bytes, as_bytes}
use changekernel.Kernel.Ids.Bytes.{IsBytes}
use changekernel.Guarantees.Identities.{IsRead, from_bytes-as_bytes, as_bytes-from_bytes}
use changekernel.Kernel.Model.Grants.{Access, Grant}
use changekernel.Kernel.Model.Commands.{Command}
use changekernel.Kernel.State.{State}
use changekernel.Kernel.Rules.Lookup.{grant}
use changekernel.Kernel.Content.{
  ContentOrigin, FreshContent, IntakeCase, IntakeSnapshot, InputKind, BindingKnowledge, Attribution,
}
use changekernel.Application.Intake.{check_intake, check_case, payload_of}
use changekernel.Application.Intake.Provenance.{Provenance, checked-Provenance}
use changekernel.Kernel.Keys.{change_key}
use changekernel.Kernel.Model.Commands.{Operation}
use changekernel.Kernel.Model.Terms.{Dependency}
use changekernel.Kernel.Model.Grants.{ContentCreation}
use changekernel.Kernel.Rules.Dependencies.{dependencies_valid}
use changekernel.Kernel.Rules.Creation.{
  prepare_creation, creating_grant, measure, measure_from, within, record_payloads,
}
use changekernel.Base.BTreeMap.{get, insert}
use changekernel.Guarantees.Creation.{IsCreation, created-IsCreation}
use changekernel.Guarantees.Grounds.{AreCurrent, AreDistinct, dependencies_valid_iff}
use changekernel.Examples.Scenario.{id, identity, by_agent, content, created, native_spec}

-- A grant that allows to create two items of ten bytes in all, and an operation with two payloads.
abbrev creating_grant_now : Grant
creating_grant_now = record {
  id = id 70;
  generation = 1;
  revoked = false;
  spec = record native_spec { creation = some (record { items = 2; payload_bytes = 10 }) };
}

abbrev creating : State
creating = record created { grants = (id 70, creating_grant_now) ∷ [] }

abbrev payload : ℕ → List ℕ → FreshContent
payload n bytes = record {
  key = content n;
  derived_from = [];
  bytes = bytes;
  attributed_source = id 5;
}

abbrev creating_operation : Operation
creating_operation = record {
  id = id 7;
  command = Command.initiate (content 20) (Access.grant (record { id = id 70; generation = 1 }));
  fresh = payload 20 (1 ∷ 2 ∷ 3 ∷ []) ∷ payload 21 (4 ∷ 5 ∷ []) ∷ [];
  first_retention = [];
}

abbrev origin : ℕ → ContentOrigin
origin n = record {
  binding = record { identity = identity; operation = id 7; content = content n };
  recorder = by_agent.authority.actor;
  represented_owner = id 1;
  grant = record { id = id 70; generation = 1 };
  target = native_spec.target;
}

abbrev creation_now : ContentCreation
creation_now = record {
  grant = creating_grant_now;
  content_items =
      (content 20, record { payload = payload 20 (1 ∷ 2 ∷ 3 ∷ []); origin = origin 20 })
      ∷ (content 21, record { payload = payload 21 (4 ∷ 5 ∷ []); origin = origin 21 })
      ∷ [];
  usage = record { items = 2; payload_bytes = 5 };
}

created-IsCreation_example : IsCreation creating creating_operation by_agent.authority creation_now
unfolding prepare_creation creating_grant grant measure measure_from within record_payloads get
    insert change_key
created-IsCreation_example =
    created-IsCreation creating creating_operation by_agent.authority creation_now refl

abbrev two_grounds : List Dependency
two_grounds =
    record { ground_fact = id 1; version = id 2 }
    ∷ record { ground_fact = id 3; version = id 2 }
    ∷ []

dependencies_valid_iff_example :
    (dependencies_valid two_grounds ((id 1, id 2) ∷ (id 3, id 2) ∷ []) ≡ ok tt)
    ↔ (AreCurrent ((id 1, id 2) ∷ (id 3, id 2) ∷ []) two_grounds × AreDistinct two_grounds)
dependencies_valid_iff_example =
    dependencies_valid_iff two_grounds ((id 1, id 2) ∷ (id 3, id 2) ∷ [])

abbrev sixteen : List ℕ
sixteen = 1 ∷ 0 ∷ 0 ∷ 0 ∷ 0 ∷ 0 ∷ 0 ∷ 0 ∷ 0 ∷ 0 ∷ 0 ∷ 0 ∷ 0 ∷ 0 ∷ 255 ∷ 7 ∷ []

sixteen-IsBytes : IsBytes sixteen
sixteen-IsBytes = ground arith

from_bytes-as_bytes_example : IsRead IdKind.action sixteen
from_bytes-as_bytes_example = from_bytes-as_bytes IdKind.action sixteen sixteen-IsBytes refl

as_bytes-from_bytes_example :
    from_bytes IdKind.action (as_bytes {k = IdKind.action} (record { value = 258 }))
    ≡ ok (record { value = 258 })
as_bytes-from_bytes_example =
    as_bytes-from_bytes IdKind.action (record { value = 258 }) (omega arith) (ground arith)

-- A payload that the operation brings, as the port reports it.
abbrev fresh_snapshot : IntakeSnapshot
fresh_snapshot = record {
  case = IntakeCase.fresh;
  source_claim = record {
    input_kind = InputKind.new_contribution;
    binding_knowledge = BindingKnowledge.no_known_binding;
    attribution = Attribution.actor (id 5);
    limitations = [];
  };
  prior_establishment = none;
}

checked-Provenance_example :
    (change_key identity ≡ change_key identity)
    × Provenance creating (some creating_operation) (content 21) (4 ∷ 5 ∷ []) fresh_snapshot
unfolding check_intake check_case payload_of get change_key
checked-Provenance_example =
    checked-Provenance creating (some creating_operation) (content 21) (4 ∷ 5 ∷ []) fresh_snapshot
      refl
