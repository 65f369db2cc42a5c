-- ===== src/Examples/Witnesses.antt =====
-- The theorems of `Guarantees` at inputs of the worked history.
use changekernel.Base.{◌≡◌, ◌≢◌, refl, none, some, [], ◌∷◌, false, ok, err, arith}
use changekernel.Kernel.Ids.{Error}
use changekernel.Kernel.Model.Grants.{Access, Grant}
use changekernel.Kernel.Model.Commands.{Command, Effect, Settlement}
use changekernel.Kernel.State.{State, try_new}
use changekernel.Kernel.Rules.Lookup.{grant}
use changekernel.Kernel.Rules.Transition.{transition}
use changekernel.Kernel.Rules.Writes.Steps.{Reach, Retention, retain}
use changekernel.Guarantees.Grants.{superseded_use-denied, revoked_use-denied}
use changekernel.Guarantees.Actions.{KeepsActions, Reach-KeepsActions, dispatched_once}
use changekernel.Guarantees.Settled.{Closing, IsFrozen, settled_accepts, settled_forever}
use changekernel.Guarantees.Fulfillment.{IsComplete, fulfilled-IsComplete}
use changekernel.Guarantees.Rejections.Unchanged.{rejected_unchanged}
use changekernel.Guarantees.Blockers.{IsBlocked, Reach-IsBlocked}
use changekernel.Guarantees.Authority.{IsAuthorised}
use changekernel.Guarantees.Authority.Commands.{accepted-IsAuthorised}
use changekernel.Guarantees.Consent.Histories.{IsMutual, current_agreement-IsMutual}
use changekernel.Examples.Scenario.{
  run, id, identity, by_owner, by_agent, after, content, created, draft, appraisal, adoption,
  undertaking, native_spec, granted, admitted, dispatched, reported, fulfilled, fulfillment,
  request,
}

abbrev kept : Retention
kept = record {
  history = [];
  last_operation = some (id 1);
  content_items = [];
  created = [];
  established = [];
}

-- A use of the grant at generation 0 is denied after the admission too.
abbrev native_grant_now : Grant
native_grant_now = record { id = id 70; generation = 1; spec = native_spec; revoked = false }

one_step : Reach granted (retain kept admitted)
unfolding run
one_step =
    Reach.next {e = Effect.admitted (id 80)} (Command.admit request) by_agent kept Reach.here refl

superseded_use-denied_example :
    grant (retain kept admitted) (record { id = id 70; generation = 0 }) by_agent.authority
    ≡ err Error.denied
unfolding run
superseded_use-denied_example =
    superseded_use-denied granted (retain kept admitted) (record { id = id 70; generation = 0 })
      native_grant_now by_agent.authority refl (omega arith) one_step

abbrev revocation : Command
revocation = Command.revoke_grant (id 70) 1

revoked_use-denied_example :
    grant
      (retain kept (after granted revocation by_owner))
      (record { id = id 70; generation = 2 })
      by_agent.authority
    ≡ err Error.denied
unfolding run
revoked_use-denied_example =
    revoked_use-denied granted (after granted revocation by_owner)
      (retain kept (after granted revocation by_owner)) (id 70) 1 by_owner
      (Effect.revoked (record { id = id 70; generation = 2 })) kept 2 by_agent.authority refl
      Reach.here

Reach-KeepsActions_example : KeepsActions granted (retain kept admitted)
Reach-KeepsActions_example = Reach-KeepsActions one_step

dispatched_once_example :
    transition (retain kept dispatched) (Command.dispatch (id 80)) by_agent
    ≢ (ok (Effect.dispatched (id 80)), dispatched)
unfolding run
dispatched_once_example =
    dispatched_once admitted dispatched (retain kept dispatched) dispatched (id 80) by_agent
      by_agent (Effect.dispatched (id 80)) (Effect.dispatched (id 80)) kept refl Reach.here

settled_accepts_example :
    Closing revocation × IsFrozen fulfilled (after fulfilled revocation by_owner)
unfolding run
settled_accepts_example =
    settled_accepts fulfilled (after fulfilled revocation by_owner) revocation by_owner
      (Effect.revoked (record { id = id 70; generation = 2 })) (Settlement.fulfilled (id 30)) refl
      refl

after_settlement : Reach fulfilled (retain kept (after fulfilled revocation by_owner))
unfolding run
after_settlement =
    Reach.next {e = Effect.revoked (record { id = id 70; generation = 2 })} revocation by_owner kept
      Reach.here refl

settled_forever_example : IsFrozen fulfilled (retain kept (after fulfilled revocation by_owner))
unfolding run
settled_forever_example =
    settled_forever {s = fulfilled} {t = retain kept (after fulfilled revocation by_owner)}
      (Settlement.fulfilled (id 30)) refl after_settlement

accepted-IsAuthorised_example : IsAuthorised admitted by_agent.authority (Command.dispatch (id 80))
unfolding run
accepted-IsAuthorised_example =
    accepted-IsAuthorised admitted dispatched (Command.dispatch (id 80)) by_agent
      (Effect.dispatched (id 80)) refl

abbrev initiation : Command
initiation = Command.initiate (content 10) Access.owner

abbrev first : State
first = retain kept (after created initiation by_owner)

abbrev second : State
second = retain kept (after first (Command.propose draft Access.owner) by_owner)

abbrev third : State
third = retain kept (after second (Command.assess appraisal Access.owner) by_owner)

abbrev fourth : State
fourth = retain kept (after third (Command.decide adoption) by_owner)

abbrev fifth : State
fifth = retain kept (after fourth (Command.decide undertaking) by_agent)

to_adoption : Reach created fourth
unfolding run
to_adoption =
    Reach.next {e = Effect.decision (id 60) none} (Command.decide adoption) by_owner kept
      (Reach.next {e = Effect.assessed (id 50)} (Command.assess appraisal Access.owner) by_owner
        kept
        (Reach.next {e = Effect.proposed (id 20)} (Command.propose draft Access.owner) by_owner kept
          (Reach.next {e = Effect.initiated} initiation by_owner kept Reach.here refl) refl)
        refl)
      refl

to_agreement : Reach created fifth
unfolding run
to_agreement =
    Reach.next {e = Effect.decision (id 61) (some (id 30))} (Command.decide undertaking) by_agent
      kept to_adoption refl

-- A second adoption of the same proposal conflicts.
rejected_unchanged_example : fourth ≡ fourth
unfolding run try_new
rejected_unchanged_example =
    rejected_unchanged identity created fourth fourth
      (Command.decide (record adoption { id = id 62 })) by_owner Error.conflict refl to_adoption
      refl

current_agreement-IsMutual_example : IsMutual fifth (id 30)
unfolding run try_new
current_agreement-IsMutual_example =
    current_agreement-IsMutual identity created fifth (id 30) refl to_agreement refl

fulfilled-IsComplete_example : IsComplete reported fulfillment
unfolding run
fulfilled-IsComplete_example =
    fulfilled-IsComplete reported fulfilled fulfillment by_owner
      (Effect.settled (Settlement.fulfilled (id 30))) refl

-- The undertaking's blocker, in the state of the agreement.
granted-IsBlocked : IsBlocked granted (content 13)
unfolding run
granted-IsBlocked = record {
  a = id 30;
  g = record {
    proposal = id 20;
    adoption = id 60;
    undertaking = id 61;
    blockers = content 13 ∷ [];
  };
  is_current = refl;
  found = refl;
  held = refl;
}

Reach-IsBlocked_example : IsBlocked (retain kept admitted) (content 13)
unfolding run
Reach-IsBlocked_example =
    Reach-IsBlocked {s = granted} {t = retain kept admitted} (content 13) granted-IsBlocked one_step
