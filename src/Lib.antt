-- ===== src/Lib.antt =====
-- hugen, a runtime for AI agents: a model of its core in this library, with the theorems on it.
-- A session of the runtime owns an event log; extensions keep projections of that log and
-- observe the frames that the session emits. Each top module below is one component. A module of
-- a component holds its state, as a record with the source's fields, and its operations, one
-- function for each; the modules below it hold the proofs, and its Tests the theorems at
-- concrete inputs.
-- - Plan: pkg/extension/plan (plan_core.go; the tools of extension.go and recovery.go in
--   Plan.Handle, over the rows of the log; their theorem is in Plan.Recovered).
-- - Whiteboard: pkg/extension/whiteboard/whiteboard_core.go.
-- - Stuck: pkg/extension/stuckdetector.
-- - Mission.Criteria: pkg/extension/mission/ac.go (Mission.Criteria.Types) and state_ac.go (its
--   updates of rows in Mission.Criteria.Update).
-- - Mission.Handoffs and Mission.Waves: pkg/extension/mission/handoffs.go and refs.go;
--   executor.go with plan_state.go and the wave bookkeeping of state.go (RunWave in
--   Mission.Waves.Run).
-- - Mission.Approval: pkg/extension/mission/tools_validate_and_approve.go, the planner's part of
--   gate.go, and the fields of state.go that they use, over Mission.Criteria. The call is in
--   Mission.Approval.Call.
-- - Session: pkg/session/name.go.
-- - Compactor: pkg/extension/compactor (state.go; checkpoints.go and context_provider.go in
--   Compactor.Checkpoints; history.go in Compactor.History and Compactor.Rows; the digest of
--   compactor.go in Compactor.Digests; frame_observer.go in Compactor.Emission; trigger.go and
--   the rest of compactor.go's run in Compactor.Compaction; recovery.go and the reset of
--   commands.go in Compactor.Recovery; the runs in which a model works with checkpoints are
--   Compactor.Segments.Open), over the frames of pkg/protocol/frame.go and their rows in
--   pkg/session/store/store.go (Compactor.Frames).
-- - Policies: pkg/tool/policy.go and pkg/tool/providers/policies (store.go and the choice of a
--   row in policies.go; the store's operations and tools.go in Policies.Table, over a querier
--   that is a parameter and the laws IsTable of it).
-- - Runner: pkg/scheduler/runner (schedule.go and the registrations of service.go; runlog.go and
--   runFire in Runner.Log).
-- - Perm: pkg/auth/perm/merge.go and mergeDataConfigWins of local.go, over any JSON coding and
--   template substitution; Template: pkg/auth/template/apply.go, which gives the two
--   substitutions.
-- - Tools: pkg/tool/manager.go (Resolve in Tools.Resolve, which joins Perm and Policies) and
--   pkg/session/snapshot_cache.go (Tools.Snapshot; what happens around it is Tools.Steps).
-- - Prelude: shared names, lists over the native numbers, results, Go strings as lists of bytes,
--   and Go maps as association lists (Prelude.Maps).
-- Conventions: a Go string is the list of its bytes; a time is the number of its instant, 0 for
-- the zero time; an int that only counts is a natural number; a method that mutates its receiver
-- returns the new record; an error is a value. Mutexes are not modelled: each operation runs
-- under its lock and is one step. Recursion is structural; the digits of `itoa`
-- (Mission.Criteria.Types) are written on fuel, the number itself, which is enough since each
-- round divides by ten, and the search for a free name (Session) on fuel, for which its theorem
-- says how much is enough; the loop of the substitution (Template) on the length of the text,
-- enough since each round takes at least three bytes. The waiting loop of a wave runs over a
-- list of rounds, each with what it sees.
-- Limits of reading a log are kept: `materialise` recovers from the oldest 1000 rows (`restart`
-- in Compactor.Recovery and in Plan.Handle), a reset of the compactor from the oldest 100000. An
-- emission has each way to fail, before and after its row is persisted (`Fate` in
-- Compactor.Frames, `Outcome` in Plan.Handle).
-- Not modelled: what happens after a tool manager is closed, providers whose list of tools
-- changes or fails later, and fetches of a catalogue at the same time (a provider lists what it
-- lists, and Tools.Steps has one fetch at a time and no close); the inputs of a spawned
-- subagent, with a spawner that answers by the rest of its request; the summariser of the
-- compactor and its choice of what to say of a row (arguments), rendering of prompts, JSON and
-- YAML coding, hashing, logging, network and database input and output, and the terminal and
-- HTTP adapters.
pub mod Compactor
pub mod Mission
pub mod Perm
pub mod Plan
pub mod Policies
pub mod Prelude
pub mod Runner
pub mod Session
pub mod Stuck
pub mod Template
pub mod Tools
pub mod Whiteboard
