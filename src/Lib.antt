-- ===== src/Lib.antt =====
-- Tavern Mnemosyne, a companion of a chat front end that keeps the story's memory. The chat's history is
-- a ledger of branches; reading the memory at a turn resolves a branch through its ancestors. Lore files
-- are changed by a transaction on files and ledger together. Calls of the provider go through a sealed
-- budget. The paths below start in tavern-mnemosyne/src.
--
-- Contracts.Json: contracts/hash.js. A value of JSON, its canonical text and what JSON.stringify prints;
--   a text is a list of UTF-16 units and a number is an integer.
-- Contracts.Identity: the checks of ids, hashes and time stamps in history/state-history.js.
-- History.Tables, History.Records: the tables of storage/chat-save-store.js that the history reads, each
--   the list of its rows in the order of insertion, and the queries on them. JSON columns that the code
--   parses again are kept as values; a constraint that fails is the error constraint_failed.
-- History.Resolver: resolveBranchSegments (`visit`, `resolve_branch_segments`) of
--   history/active-history-resolver.js; History.Records has selectActiveTurnMemoryRows. The search has
--   as fuel the number of the table's rows and two more, which is enough: each call visits an epoch that
--   has a row and was not visited, but for the last.
-- History.BranchRows, History.Branches: truncateBranch and restoreBranch of history/state-history.js
--   (`truncate_branch`, `restore_branch`) as functions from the ledger to a result and the ledger after.
-- History.Candidates: activateCandidate and deleteCandidate of history/state-history.js
--   (`activate_candidate`, `delete_candidate`), in the same form, with the guards and the replay of a
--   command that was answered before.
-- History.StateAt: the fold of stateAt (`fold_rows`, `current_state`); the locale's order is a parameter.
-- Proxy.Budget, Proxy.StepBudget: proxy/provider-step-budget.js, each exported function under its name.
--   The tokenizer is a parameter that gives a text's encoded length.
-- Storage.Disk, Storage.StagedFiles: storage/staged-file-transaction.js (`run_transaction`,
--   `recover_journal`). The files are a map from paths, the stage is two more, and the caller's validation and commit are
--   parameters. Two spellings of a path are two paths. The stage is a folder of its own, but for the first
--   removal under the admitted id `..`, which `clear_stage` has. A read of the active snapshot may fail in
--   the catch block; elsewhere it answers. A step that throws keeps what was done before it,
--   and Crash has the states that a process may stop in. The writer lock is held throughout; a stored
--   journal has the form that the code checks; the file system itself does not fail.
-- Memory.Uri, Memory.Reference: memory/memory-reference.js, with encodeURIComponent and decodeURIComponent
--   written out on UTF-16 units.
-- Memory.Cursor, Memory.Selector, Memory.Pages, Memory.Slices, Memory.BoundedRead:
--   memory/bounded-memory-read.js (`create_bounded_memory_read_result` is its main function). The HMAC,
--   sha256, base64url, JSON.parse and the counting of tokens are parameters. The search for the longest
--   page has as fuel the number of code points and one more, which is enough, since each round shrinks the
--   interval; its upper end is kept as the number after it (`past_high`), so that it never is negative. The
--   128 attempts at a stable count of tokens are the code's own.
-- Runs.RunJournal with Files and Listing: begin, checkpoint, read and list of harness/run-journal.js. The
--   store's answer, a chat's folder, is a parameter, and the journals are a list of rows by path. begin and
--   checkpoint read the files at one time and write them at a later one, so calls may overlap.
--   Runs.RunJournal.Spec is the abstract store: the hash of the request, the evidence and the events of
--   each run, with its past, from which a call may have read.
-- Craft.PromiseDue: craft/promise-due-ledger.js; the rows are those of History.Records.
-- Craft.BeatRhythm: craft/beat-rhythm-ledger.js, over the same rows.
-- Runtime.Coordinator: runtime/chat-write-coordinator.js, the calls of `run` as steps of the event loop.
-- Runtime.Tracker: runtime/runtime-operation-tracker.js.
-- Prelude has the shared names, tests, lists, integers and results; Tests has runs on small inputs.
--
-- sha256 is a parameter everywhere. Not modelled: the commit of turns and the choice of candidates by
-- their place in the host's chat, deltas and their projection, the search and coverage reports of the
-- memory reader, the run kernel, intake, the proxy's server, evaluation, inspection, and the extension of
-- the front end.
mod Prelude
mod Tests
pub mod Contracts
pub mod Craft
pub mod History
pub mod Proxy
pub mod Runtime
pub mod Storage
pub mod Memory
pub mod Runs
