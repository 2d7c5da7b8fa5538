-- ===== src/Lib.antt =====
-- The core of the platform in core/: the parts that decide what may run, who pays for it and what
-- may change, as executable definitions with the theorems that make them correct.
--
-- The parts and how they interact:
--   * Usage (core/usage/memory.py, core/usage/errors.py, core/contracts/usage.py): the ledger of task
--     units. An execution reserves units of its tenant's budget and settles, refunds or fails them.
--     Usage/Balance and Usage/History have histories of calls, Usage/Lifecycle the life of one reservation.
--   * Runtime/Lease, Runtime/Cache, Runtime/RateLimit (core/runtime/memory.py): exclusive leases with
--     fencing tokens, values that expire, fixed-window counters. Runtime/Lease/Fencing has histories.
--   * Runtime/Admission (core/runtime/admission.py): the front door, a client of any rate limiter
--     (the record RateLimitPort), and the ceiling on concurrent work.
--   * Runtime/Fair (core/runtime/admission.py): the scheduler of tiers and tenants. Fair/Scan, Fair/Next,
--     Fair/Formed and Fair/Turns are about the scan of a tier, the choice of a priority, histories and
--     the turns of the tenants.
--   * Runtime/Queue (core/runtime/memory.py, core/runtime/ports.py): streams with consumer groups. Its
--     Port is the interface that the outbox and the worker take; History, Loops, Keeping and Loss are
--     about what a history of calls leaves of a stream, Ready and Ordered about messages that can be
--     settled.
--   * Runtime/Outbox (core/runtime/outbox.py): staged messages and the relay that publishes them on any
--     queue.
--   * Runtime/Worker (core/runtime/worker.py): a consumer's loop body over any queue, with the registry
--     of processed keys; while it awaits a handler, other tasks may call the queue and the registry, so a
--     handler is any change of all three; `alone` is one that nobody interrupts.
--   * Security (core/security/firewall.py, core/contracts/security.py): the capability firewall.
--   * Identity (core/identity/devices.py, core/contracts/device.py): the device registry, whose
--     Laws have its calls as a step relation.
--   * Tools (core/tools/registry.py, core/tools/gate.py, core/tools/errors.py, core/contracts/tools.py):
--     the tool registry and the gate of tool calls, which asks the firewall and the device registry.
--   * Execution/Graph (core/contracts/execution_graph.py, core/execution/graph_planner.py): the contract of
--     execution graphs with its validator (Valid) and lookups (Follow), and the planner: Shapes is about the
--     edges it makes, Plans about its graphs.
--   * Capacity (core/routing/capacity.py and the errors of core/contracts/provider.py): the board of
--     cooldowns, outages and request budgets that routing asks.
--   * Providers (core/providers/, with the data of core/contracts/domain.py): Registry (registry.py), whose
--     Half and Coherence are about its two indexes; Pool and Accounts (accounts.py), the account pools and their
--     manager, which asks the registry and a lease port. Accounts/Ownership is about a pool's history,
--     Accounts/Eligible about the filters, Accounts/Order about the order of candidates,
--     Accounts/Candidates and Accounts/Leases about what the manager offers and leases.
--   * SourceChange (core/sourcechange/): Paths and Snapshot (snapshot.py, with validate_path of
--     core/workspace/files.py), Patch (patch.py), Proposal (proposal.py), Sandbox (sandbox.py) and
--     Workflow (workflow.py over the memory stores of store.py). Patch/Effect, Patch/Inverse and
--     Patch/Rollback are about a patch and its inverse, Sandbox/Verdict about the verifier's verdict,
--     Workflow/Approval, Workflow/Keeping and Workflow/Histories about approvals over any history of
--     calls, Workflow/Outcomes and Workflow/Restore about the rollback of an applied change. Errors
--     has the exceptions.
-- Prelude has what these share: dicts as association lists in insertion order, results of calls
-- that return or raise, Boolean tests with their meaning, integers over the native numbers, sums over
-- a dict, dicts in the order of their keys, calls that change a state and may raise (Calls).
--
-- How the code is read. A method is a function of the object's state, with the clock's value and new
-- ids as arguments; it returns a result and the new state. A call that raises gives an error as a
-- value and leaves the state, except in SourceChange/Workflow, in the outbox, the worker and a claim of
-- the queue, where a raising call may have written before it raised, and there the state comes back with
-- the error. Ids (UUIDs) are numbers that are only compared. Times are whole ticks of the injected clock (microseconds in Capacity). Task units
-- are finite floats: each is given by its multiple of 2 ^ -1074, and the rounding of a sum or a difference is
-- a parameter of Usage, the machine's; the theorems that need sums without rounding say so.
-- Other numbers do not overflow in the source, so they have no width here. Loops run over lists, so no fuel
-- is used. Texts of exceptions are replaced by their parts. The asynchronous methods of the memory
-- objects contain no await, so each is one step. The front door awaits its rate limiter between its
-- two counts; a call of it is one step here, which is so where the limiter does not suspend, as the
-- memory one does not. A call has one value of the clock, also the renewal of a lease, which reads
-- the clock once more for the new expiry, and the consumption of several messages, which reads it for
-- each. A lease port answers or refuses, and does not raise. Capacity divides microseconds exactly where
-- the source truncates a float of milliseconds. Times of the queue are whole milliseconds.
--
-- Code that is not in the repository is a parameter: SHA-256 and UTF-8 encoding are the record
-- Hashing of SourceChange/Snapshot, with no assumption made about them; a sandbox is any
-- implementation of the record SandboxPort, and may keep a state; the text of a UUID is a function of
-- its number, and such texts are in the order of the numbers.
--
-- Not modelled: routing apart from its capacity board; models, bindings and onboarding of providers;
-- execution loops; learning, skills, roles, context, memory and evaluation; adapters
-- (infrastructure/, providers/), applications (apps/, gateway-service/, ui/) and everything that is only
-- I/O or wiring. Listings for display are left out.
pub mod Prelude
pub mod Usage
pub mod Runtime
pub mod Security
pub mod Identity
pub mod Tools
pub mod Capacity
pub mod Providers
pub mod SourceChange
pub mod Execution
