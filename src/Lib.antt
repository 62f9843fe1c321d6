-- ===== src/Lib.antt =====
-- Support triage copilot. An inbox of support messages is queued in SQLite; a worker claims one
-- message at a time, triages it, runs tools that gather evidence, holds back claims without
-- evidence, and leaves a draft and a report for a human, who answers. Intakes tie a message to a
-- tenant.
--
-- The parts, and the code that each file models:
--
-- * Base, Values: shared names; lists, options and results; Python's str operations on native
--   texts, with ASCII case and white space; the JSON values that rows and documents hold, and
--   `dict`.
-- * Queue (app/queue_db.py, table queue): Schema has the constants, Rows the table and its SELECT
--   and UPDATE statements, Ops the operations insert_message, claim_row, update_row_status (in
--   two halves, as it uses two connections: check_update, commit_update) and
--   set_learning_eligible. RowLaws, WellFormed, Claim, Insert, Update, Steps, Settled and Race
--   hold the theorems, Examples and RaceExamples witnesses.
-- * Worker (tools/triage_worker.py): Retry is the handlers of process_once, on the table of
--   Queue; Select the choice of tools and the partition of bundles; Draft the guard of the draft
--   and the statements added to it; TimeFrame the window that the tools are asked about; Gather
--   the loop that runs the tools through Evidence; Analysis what an exception of the triage leads
--   to; BadDate a theorem across the parser and the triage. Reading, Documents, World, Attempt,
--   Case and Conclude put the parts together into one attempt at a row, Process is process_once
--   over all the tables, and Drain the loop of main without --watch; AttemptLaws, IdentityLaws,
--   ColumnLaws, FinishLaws, SettleLaws, LinkLaws, Linked, ProcessLaws, Work, CallLaws, FailLaws
--   and DrainLaws hold its theorems.
-- * LogEvidence (tools/log_evidence.py): Entries and Run are run_log_evidence; Verdict, Isolation
--   and Window its theorems.
-- * ServiceStatus (tools/service_status.py and the breakers of app/queue_db.py): Breaker is the
--   table service_breakers, Cache the data and the cache of answers, Check run_service_status.
-- * Evidence (app/queue_db.py table evidence_runs, tools/evidence_runner.py): Runs is
--   record_evidence_run, Replay is run_tool_with_evidence and replay_evidence.
-- * Server (app/server.py, app/queue_db.py table replay_audit): Access has keys, roles, the
--   replay limits and the guarded changes of intakes.
-- * TimeWindow (app/time_window.py): Dates has the dates and times, Parse the parser, on the
--   matches of its regular expressions; Bounds and Raises its theorems, with what the log
--   evidence makes of its windows.
-- * Triage (app/triage_service.py, app/validation.py): Payload is the document, Infer the rules
--   on words, Time the reported times and the plausible window, Rules the triage by rules and the
--   confidence routing, Model the triage by the language model, Finish the function `triage`,
--   Extract the JSON in an answer; Attempts, Routing, Reported, Questions and Prose hold the
--   theorems.
-- * Report (app/report_service.py): Template is the template, Claims the claim checker, Generate
--   the function `generate_report` with its loop around the language model; Answers and Sources
--   its theorems.
-- * Registry (tools/registry.py): Tools is run_tool with the schemas' members; Incident its
--   theorems.
-- * Retention (tools/retention.py, app/cleanup.py): Scrub is purge and scrub_raw, on the table of
--   Queue; Laws its theorems. Cleanup is run_cleanup, on the tables of Evidence and Intake;
--   CleanupLaws its theorems.
-- * Feedback (app/feedback_utils.py): Footer is the footer of a case, RoundTrip its theorem.
-- * Intake (app/queue_db.py tables tenants and intakes): Tenants is resolve_tenant, Intakes the
--   updates, Handoffs the table handoff_packs.
--
-- How the model corresponds to the code. A table is a list of rows in order of insertion, and one
-- SQL transaction is one function on it; interleavings are explicit sequences of these. Ties in
-- an ORDER BY go to the first row. ISO time stamps are numbers in time order (but where a cleanup
-- compares evidence, which it does as the texts do), in the unit that a file names; the clock,
-- random ids, sha256, JSON printing and parsing, ISO parsing, most regular expressions, name
-- resolution and HTTP are arguments. An exception is an `err`. Statuses are texts, and case is
-- folded as the code does. Loops run over lists, or over the number of attempts or retries; the
-- loop of main runs on fuel, and more than the queued rows have tries left is enough.
--
-- What an attempt at a row has written to the intakes, the evidence runs and the handoff packs
-- stays when it fails, as in the code, where each call commits. What one part reads of another's
-- JSON document, the model reads from the same value (Worker/Reading.antt). Each call of the loop
-- of main has its own clock, random ids and answers of the tools and of the model. The language
-- model may answer each attempt differently: it is a function of the number of the attempt and
-- the prompt. An answer that is JSON is read by an argument, which gives the document or the
-- exception that it leads to. Confidences are in hundredths.
--
-- Not modelled: the latencies and the few-shot examples of the triage, the calls of model
-- servers, jsonschema and the regular expressions (arguments, but for the footer's, which is
-- short enough to be a definition), the sample tools, summaries for display, the other handlers
-- of the HTTP server, mail transport, metrics and the legacy programs.
pub mod Base
pub mod Evidence
pub mod Feedback
pub mod Intake
pub mod LogEvidence
pub mod Queue
pub mod Registry
pub mod Report
pub mod Retention
pub mod Server
pub mod ServiceStatus
pub mod TimeWindow
pub mod Triage
pub mod Values
pub mod Worker
