-- ===== src/Lib.antt =====
-- Effexor WinDoctor: the recovery core with its boot doctor, the technician's session and the
-- shell's event queue.
--
-- The program keeps a recovery case as documents (a manifest, targets, evidence, findings, plans,
-- a workflow state and audit events). The coordinator's commands read the latest revision of a
-- case from the case store, check the command against it, make the next revision and write it with
-- the commit that they expect as its parent. The store validates the snapshot and its whole
-- history, and appends a commit record to the case's chain. The boot doctor is a pure analyzer: it
-- turns the boot topology that a case holds as evidence into findings, which the coordinator
-- commits as an analysis. The session and the UI queue stand apart from the case: the shell runs a
-- diagnosis in a worker, which hands progress and one result to the UI thread by the queue, and
-- the technician's symptoms and answers are kept in the session.
--
-- Parts, from the repository's root:
-- - Prelude: the libraries' names, with helpers on lists, texts, results and integers. No code of
--   the repository.
-- - Domain, of internal/recovery/domain. Checks and Patterns: validate_helpers.go (`requireMatch`
--   is `require_match`, and so on; `reCaseID` is `re_case_id`). Workflow: workflow_state.go,
--   workflow_manifest.go and the states of case_manifest.go. Events: coordinator_event.go and
--   coordinator_event_semantics.go. Semantics: workflow_semantics.go. Documents: case_manifest.go
--   and target.go. Evidence: artifact.go, evidence.go, finding.go. Plans: repair_plan.go. Records:
--   execution.go, verification.go, evidence_acquisition.go. Consultations: agent_consultation.go.
--   CrossRefs: crossrefs.go. Topology: windows_boot_topology.go. Each Go `Validate` is
--   `validate_<document>`, or `validate` in the document's own module, with the checks in the
--   source's order and its first error as the result.
-- - Domain.Json and Domain.Time: what the source uses of encoding/json (`json.Valid`) and of time
--   (`time.Parse`, `Before` and `Format` with RFC3339).
-- - CaseStore.Snapshot, of internal/recovery/casestore/snapshot.go and paths.go:
--   `Snapshot.Validate` is Validation.validate; its parts are in Transitions (workflow transition
--   integrity), Provenance (lifecycle documents and audit), References (an event's exact
--   references), Origin (acquisitions) and Artifacts.
-- - CaseStore.Chain, of commit.go, load.go, parent_expectation.go and acquisition_provenance.go:
--   `commitLocked` is `commit_locked` on the list of the case's records, oldest first.
-- - BootDoctor, of internal/recovery/bootdoctor. Codes and Catalog: catalog.go. Identity:
--   identity.go. Suppress: suppress.go. Queries, Drafts and Analyze: analyze.go (`collectDrafts`
--   is `collect_drafts`, whose calls of `add` are the list `calls`, a section each; `Analyze` is
--   `analyze`).
-- - Coordinator, of internal/recovery/coordinator: Access (reads and writes of the store), State
--   (state.go, audit.go), Refs, Merge (findings.go, plans.go), Transitions, and Commands with
--   Analysis, Plan, Closing and Opening. `next_analysis` and the like are a command's code between
--   its read and its write; `run_command` is the read and the write around it.
--   Commands.BootAnalysis is `CommitBootDoctorAnalysis` of bootdoctor.go: it decides on the latest
--   revision whether an earlier analysis is repeated or one is committed, and carries that out.
--   Commands.Consultation is `CommitAgentConsultation` of consultation.go, with the comparison of
--   consultations in Equal. Acquire is what the acquisition commands of acquire.go share, with
--   Acquire.RequestId for the grammar of request ids.
-- - Coordinator.ChainStore fills the coordinator's interface `Store` with the case store's chain,
--   for runs of the two together.
-- - Session, of internal/session/model.go and internal/diagnosis/model.go, and UiQueue, of
--   internal/shell/uiqueue/queue.go.
-- - Tests: concrete runs, and each theorem that has hypotheses at a concrete input.
--
-- State is passed explicitly. A Go error is an `err` or a `some`; a pointer that may be nil is an
-- Option; a slice whose nil and empty values the code tells apart is an Option of a list, any
-- other slice a list; a map or a set that the code only looks up is the list of its entries. An
-- enumeration of texts is a data type with `unset` for the empty text and `unknown` for a text
-- that the source does not name.
--
-- Numbers are natural; the commit sequence and the workflow revision wrap at 2^64 as uint64 does.
-- Every loop is structural recursion, so nothing runs out of fuel; only the decimal digits of a
-- number are counted down from the number itself, which has no more digits than that.
--
-- Parameters: the readings of the clock, the random bytes and ids, the hashes that name a snapshot
-- and a commit, SHA-256 in the names of findings and consultations, the decoder of a topology's
-- JSON, the importer of legacy reports, and, for the commands' theorems, the case store.
--
-- Not modelled: the store's files, locks, staging, fsync and canonical encodings (a record of the
-- chain holds its snapshot, and a record that is there is intact); the coordinator's acquisition
-- commands but for what they share; the canonical request that the boot analysis hashes and does
-- not use; the target resolver, read operations, the importer, the agent loop and runtime, triage
-- and diagnostics, which are further subsystems; the gateway, the collector, the shell's windows
-- and texts, and the commands' wiring, which are I/O. Paths are those of Windows in
-- `filepath.ToSlash`.
mod Prelude
pub mod UiQueue
pub mod Session
pub mod Domain
pub mod CaseStore
pub mod BootDoctor
pub mod Coordinator
pub mod Tests
