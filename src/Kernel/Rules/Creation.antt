-- ===== src/Kernel/Rules/Creation.antt =====
-- `ContentUsage::measure`, `ContentUsage::within` and `State::prepare_creation` (content.rs).
use changekernel.Base.{
  ℕ, List, [], ◌∷◌, Option, none, some, Bool, ◌&&◌, ◌||◌, not, Result, ok, err, reject_if, ok_or,
  ◌>>=◌, ◌>>◌, leb, if◌then◌else◌,
}
use changekernel.Base.Order.{◌!=◌}
use changekernel.Base.Lists.{length, is_empty}
use changekernel.Base.BTreeMap.{BTreeMap, insert, contains_key}
use changekernel.Kernel.Ids.{Error, OperationId}
use changekernel.Kernel.Keys.{
  ContentKey, GrantUse, GrantTarget, change_key, change_key_eq, content_key_ord,
}
use changekernel.Kernel.Content.{FreshContent, ContentLimits, ContentUsage, RecordedContent}
use changekernel.Kernel.Model.Grants.{Access, ContentCreation}
use changekernel.Kernel.Model.Commands.{Command, Operation}
use changekernel.Kernel.State.{State, Authority}
use changekernel.Kernel.Rules.Lookup.{checked_add, grant, u64_max}

-- `u64::try_from(payload.bytes.len())`
abbrev pub u64_of : ℕ → Option ℕ
u64_of n = if leb n u64_max then some n else none

-- The loop of `ContentUsage::measure`.
unfoldable pub measure_from : ContentUsage → List FreshContent → Result Error ContentUsage
measure_from usage [] = ok usage
measure_from usage (payload ∷ rest) = do
  items ← ok_or (checked_add usage.items 1) Error.invalid
  size ← ok_or (u64_of (length payload.bytes)) Error.invalid
  payload_bytes ← ok_or (checked_add usage.payload_bytes size) Error.invalid
  measure_from (record { items = items; payload_bytes = payload_bytes }) rest

unfoldable pub measure : List FreshContent → Result Error ContentUsage
measure payloads = measure_from (record { items = 0; payload_bytes = 0 }) payloads

unfoldable pub within : ContentUsage → ContentLimits → Bool
within u limits = leb u.items limits.items && leb u.payload_bytes limits.payload_bytes

abbrev pub access_grant : Access → Result Error GrantUse
access_grant Access.owner = err Error.denied
access_grant (Access.grant g) = ok g

-- The grant that a command uses to create content: the first `match` of `prepare_creation`.
unfoldable pub creating_grant : Command → Result Error GrantUse
creating_grant (Command.initiate _ access) = access_grant access
creating_grant (Command.propose _ access) = access_grant access
creating_grant (Command.assess _ access) = access_grant access
creating_grant (Command.finding _ access) = access_grant access
creating_grant (Command.adapt _ access) = access_grant access
creating_grant (Command.progress _ access) = access_grant access
creating_grant (Command.reconcile _ g _ _) = ok g
creating_grant _ = err Error.denied

abbrev pub recorded :
    State → OperationId → Authority → GrantUse → GrantTarget → FreshContent → RecordedContent
recorded s operation authority used target payload = record {
  payload = payload;
  origin = record {
    binding = record { identity = s.identity; operation = operation; content = payload.key };
    recorder = authority.actor;
    represented_owner = authority.represented_owner;
    grant = used;
    target = target;
  };
}

-- The loop of `prepare_creation` over the payloads.
unfoldable pub record_payloads :
    State
    → (FreshContent → RecordedContent)
    → List FreshContent
    → BTreeMap ContentKey RecordedContent
    → Result Error (BTreeMap ContentKey RecordedContent)
record_payloads s entry [] content_items = ok content_items
record_payloads s entry (payload ∷ rest) content_items = do
  reject_if (payload.key.establishing != change_key s.identity) Error.unavailable
  reject_if (contains_key s.content_items payload.key || contains_key content_items payload.key)
      Error.conflict
  record_payloads s entry rest (insert payload.key (entry payload) content_items)

abbrev pub create : State → Operation → Authority → Result Error ContentCreation
create s operation authority = do
  used ← creating_grant operation.command
  g ← grant s used authority
  limits ← ok_or g.spec.creation Error.denied
  usage ← measure operation.fresh
  reject_if (not (within usage limits)) Error.denied
  content_items ←
      record_payloads s (recorded s operation.id authority used g.spec.target) operation.fresh []
  ok (record { grant = g; content_items = content_items; usage = usage })

unfoldable pub prepare_creation :
    State → Operation → Authority → Result Error (Option ContentCreation)
prepare_creation s operation authority =
    if is_empty operation.fresh
    then ok none
    else do creation ← create s operation authority; ok (some creation)
