-- ===== src/Lib.antt =====
-- changekernel: the portable kernel of a Change and what its rules guarantee.
--
-- The program keeps one Change: a pursuit that an owner and an agent agree on, carry out and settle.
-- Its kernel (src/kernel/change) is a pure state machine. A caller presents a command with the
-- authority and the observations that trusted ports have established; `State::transition` refuses it
-- with an `Error` or updates the state and returns an `Effect`. The application (src/application)
-- runs it on a copy of the state, retains the accepted operation and publishes the copy.
--
-- Which file models what:
--   * Base: the library parts that the source uses. `BTreeMap` and `BTreeSet` are lists in ascending
--     order of the keys, by the order that `derive(Ord)` gives (Base.Order). `Result`, `?` and an
--     early `return Err(e)` are Base.Results.
--   * Kernel.Ids, Kernel.Keys, Kernel.Model, Kernel.State: src/kernel/change/model.rs. An identity is
--     sixteen bytes in the source and their big-endian number here; the nineteen identity types are
--     one type indexed by its name, so that they do not mix.
--   * Kernel.Content, Kernel.Rules.Creation, Kernel.Rules.Origins: src/kernel/change/content.rs.
--   * Kernel.Rules: src/kernel/change/rules.rs. Lookup, Dependencies, Roles, Requirements, Permission
--     and Activation hold the methods of `State` and `Terms`; Transition holds the shared guards and
--     the `match` on the command, its children one function for each command.
--   * Kernel.Rules.Writes: what each command writes when it is accepted, and the histories of accepted
--     operations (`Reach`). Between two transitions the application may write the fields that
--     `Change::retain` writes, to any value.
--   * Application.Requests: src/application/operation_request.rs. Application.Checks and
--     Application.Ports: src/application/ports.rs; an implementation of the trait `Ports` is a
--     parameter, a record of functions over a state of its own, of which nothing is assumed.
--     Application.Records: src/application/records.rs.
--   * Application.Intake: `Change::check_intake` of src/application/change.rs. Application.Change: the
--     rest of that file. Change.Gather is what `execute` asks the ports before the acceptance,
--     Change.Seal the record that it makes, Change.Execute `execute` itself, Change.Reads `read` and
--     `record`, Change.Reconstruct `try_new` and `reconstruct`. A panic (the look-up of an intake in
--     `retain`) is `none`.
--   * Application.Budgets: src/application/read_budget.rs.
--   * Application.Runs: sequences of calls of `execute`, and the theorems about them.
--   * Codec: src/adapters/codec. Codec.Varint, Codec.Wire, Codec.Scan and Codec.Costs are wire.rs,
--     Codec.Frames framing.rs and read_framing.rs, Codec.Bridge bridge.rs. A schema function is a name, and a table
--     gives its schema, so that schemas may name each other.
--   * Guarantees: the theorems on the kernel. Examples: a worked history and the theorems at its inputs.
--
-- A method on `&mut self` becomes a function to a result and a state, so what an error leaves written
-- is visible (`Outcome`); a method that checks first and writes at the end returns the new state only
-- when it succeeds (`commit`). `u64` numbers are natural numbers with `checked_add` written out. The
-- loops of the kernel and the application are over lists. Those of the codec that take their input in
-- parts run on fuel, the length of the input, and `scan` on as many levels as depths are admitted;
-- `none` is out of fuel, and the theorems below show that it does not occur.
--
-- Not modelled: the read calls (src/application/read.rs), the typed messages of the codec, the SQLite
-- store, the read adapter, the generation of identities, and the text of errors.
pub mod Base
pub mod Kernel
pub mod Application
pub mod Codec
pub mod Guarantees
mod Examples
