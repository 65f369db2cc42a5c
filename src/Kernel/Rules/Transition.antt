-- ===== src/Kernel/Rules/Transition.antt =====
-- `State::transition` (rules.rs): the guards that all commands share, and one function per command.
pub mod Drafting
pub mod Deciding
pub mod Granting
pub mod Acting
pub mod Reporting
pub mod Settling
use changekernel.Base.{
  Option, none, some, Bool, true, false, ◌&&◌, not, Result, ok, err, reject_if, ◌>>=◌, ◌>>◌,
}
use changekernel.Base.Order.{◌!=◌}
use changekernel.Kernel.Ids.{Error, id_eq}
use changekernel.Kernel.Model.Commands.{Command, Effect}
use changekernel.Kernel.State.{State, Validation}
use changekernel.Kernel.Rules.Lookup.{is_settled}
use changekernel.Kernel.Rules.Permission.{is_reconciliation}
use changekernel.Kernel.Rules.Activation.{Outcome, commit}
use Drafting.{initiate, propose, assess}
use Deciding.{decide, retract, reaffirm}
use Granting.{set_grant, revoke_grant}
use Acting.{admit, dispatch, reconcile}
use Reporting.{finding, adapt, progress}
use Settling.{fulfill, withdraw}

-- What a settled Change still accepts.
unfoldable pub allowed_when_settled : Command → Bool
allowed_when_settled (Command.reconcile _ _ _ _) = true
allowed_when_settled (Command.set_grant _ _ spec) = is_reconciliation spec.target
allowed_when_settled (Command.revoke_grant _ _) = true
allowed_when_settled _ = false

-- What a Change accepts before it is initiated.
unfoldable pub allowed_before_initiation : Command → Bool
allowed_before_initiation (Command.initiate _ _) = true
allowed_before_initiation (Command.set_grant _ _ _) = true
allowed_before_initiation (Command.revoke_grant _ _) = true
allowed_before_initiation _ = false

unfoldable pub entry : State → Command → Validation → Result Error (Unit {0})
entry s c v = do
  reject_if (v.authority.represented_owner != s.identity.owner) Error.denied
  reject_if (is_settled s && not (allowed_when_settled c)) Error.terminal
  reject_if (not s.initiated && not (allowed_before_initiation c)) Error.invalid

-- The `match` on the command.
unfoldable pub perform : State → Command → Validation → Outcome Effect
perform s (Command.initiate _ access) v = commit s (initiate s access v)
perform s (Command.propose p access) v = commit s (propose s p access v)
perform s (Command.assess a access) v = commit s (assess s a access v)
perform s (Command.decide d) v = decide s d v
perform s (Command.retract id) v = commit s (retract s id v)
perform s (Command.reaffirm id dependencies renewed) v = reaffirm s id dependencies renewed v
perform s (Command.set_grant id expected spec) v = commit s (set_grant s id expected spec v)
perform s (Command.revoke_grant id expected) v = commit s (revoke_grant s id expected v)
perform s (Command.admit a) v = commit s (admit s a v)
perform s (Command.dispatch id) v = commit s (dispatch s id v)
perform s (Command.finding f access) v = commit s (finding s f access v)
perform s (Command.adapt a access) v = commit s (adapt s a access v)
perform s (Command.progress p access) v = commit s (progress s p access v)
perform s (Command.fulfill f) v = commit s (fulfill s f v)
perform s (Command.withdraw _) v = commit s (withdraw s v)
perform s (Command.reconcile action used evidence outcome) v =
    commit s (reconcile s action used evidence outcome v)

unfoldable pub transition : State → Command → Validation → Outcome Effect
transition s c v = elim (entry s c v) [ err e ↦ (err e, s) | ok _ ↦ perform s c v ]
