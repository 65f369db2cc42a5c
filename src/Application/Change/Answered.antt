-- ===== src/Application/Change/Answered.antt =====
-- What stands behind an answer of `Change::read` (src/application/change.rs).
use changekernel.Base.{ℕ, ◌≡◌, List, [], none, some, false, ok}
use changekernel.Base.Lists.{length}
use changekernel.Base.BTreeMap.{get}
use changekernel.Kernel.Ids.{ActionId, OperationId, id_eq, id_ord}
use changekernel.Kernel.Keys.{ContentKey, content_key_ord}
use changekernel.Kernel.Model.Grants.{Access}
use changekernel.Kernel.Model.Actions.{Action}
use changekernel.Kernel.State.{State, status}
use changekernel.Application.Checks.{Checks, Context, Query, Read}
use changekernel.Application.Records.{StoredOperation}
use changekernel.Application.Ports.{Ports}
use changekernel.Application.Intake.Provenance.{Provenance}
use changekernel.Application.Change.{Change}
use changekernel.Application.Change.Gather
use changekernel.Application.Change.Gather.{content}
use changekernel.Application.Change.Admitted.{Discloses, MayRead}

-- The answer is what the Change holds.
pub data IsHeld (c : Change) : Query → Read → Type 0 where
  holds_status : IsHeld c Query.status (
      Read.status (record {
        initiated = c.state.initiated;
        current_agreement = c.state.current;
        settlement = c.state.settlement;
        accepted_operations = length c.state.history;
      }))
  holds_result :
      (id : OperationId) (r : StoredOperation)
      → get c.records id ≡ some r
      → IsHeld c (Query.operation id) (Read.operation (some r.accepted))
  holds_nothing :
      (id : OperationId)
      → get c.records id ≡ none
      → IsHeld c (Query.operation id) (Read.operation none)
  holds_content :
      (key : ContentKey) (bytes : List ℕ)
      → get c.state.content_items key ≡ some bytes
      → IsHeld c (Query.content key) (Read.content bytes)
  holds_action :
      (id : ActionId) (a : Action)
      → get c.state.actions id ≡ some a
      → IsHeld c (Query.action id) (Read.action a)

-- The context that the port reports for the call, and the checks that the call opens with it.
record IsOpened {P : Type 0} (ports : Ports P) (c : Change) (query : Query) (p : P)
    (checks : Checks) : Type 0 where
  pub after : P
  pub asked : ports.context p ≡ (ok checks.context, after)
  pub owner : checks.context.authority.represented_owner ≡ c.state.identity.owner
  pub disclosed : Discloses c checks.context query
  pub nothing : checks.content_items ≡ []

-- A read from the ports `p` that returns, and leaves the ports `q`: `context` is what the port reports
-- for this call, and all that is asked of the caller is asked of this context.
pub record IsAnswered {P : Type 0} (ports : Ports P) (c : Change) (query : Query) (access : Access)
    (result : Read) (p q : P) : Type 0 where
  pub unfenced : c.fenced ≡ false
  pub context : Context
  pub after : P
  pub asked : ports.context p ≡ (ok context, after)
  pub owner : context.authority.represented_owner ≡ c.state.identity.owner
  pub disclosed : Discloses c context query
  pub permitted : MayRead c.state context.authority access query
  -- the port has confirmed the disclosure of what was checked, in that context
  pub full : Checks
  pub before : P
  pub same_context : full.context ≡ context
  pub confirmed : ports.disclose full before ≡ (ok tt, q)
  pub held : IsHeld c query result
