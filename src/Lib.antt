-- ===== src/Lib.antt =====
-- GARD keeps an inventory of network devices, compares their firmware with a catalogue of
-- targets, and plans uplifts: waves of devices that are drafted, submitted, approved by a second
-- person, and exceptions for devices that stay blocked. This library models the controllers under
-- gard/core, which read and write the tables of gard/models.
--
-- Parts, and where they are modelled:
--   gard/models/_enums.py                      Lifecycle: the states and their texts
--   gard/models/*.py, gard/core/audit.py       Db: the rows (Device, UpliftWave, ...), the tables
--                                              together (`Db`), and the append of an audit row
--   gard/core/envelope.py                      Envelope: blockers, reasons, verdicts
--   gard/core/scope_selector.py                Scope: `validate_keys`, `evaluate`, `specificity`;
--                                              Scope/Meaning says what a leaf asks of the facts
--   gard/core/compliance_controller.py         Compliance: `_facts_for`, `_active_targets`,
--                                              `_resolve_target`; Compliance/Controller: `evaluate`
--   gard/core/drift_rules.py                   Drift: one rule per drift type, their precedence
--   gard/core/rbac.py                          Rbac: permissions, roles, `Principal`
--   gard/core/recommended_actions.py           Actions: the builders and `build_actions_for`
--   gard/core/compliance_evaluation_controller.py
--                                              DriftEvaluation: inputs of the drift rules, the
--                                              stored verdict; Controller: `evaluate`; Batch:
--                                              `evaluate_many`
--   gard/core/prereq_predicates.py             Prereq: the evaluators and `evaluate_rule`; Order:
--                                              `sort_blockers`, `primary_blocker_of`
--   gard/core/upgrade_path_graph.py            UpgradePath: the cache and its queries
--   gard/core/readiness_evaluation_controller.py
--                                              Readiness: the verdict; Controller and Evaluate:
--                                              `evaluate` and its carve-outs; Batch:
--                                              `evaluate_many`; Summary: `fetch_summary`
--   gard/core/uplift_state_machine.py          Uplift/StateMachine: edge tables and decisions;
--                                              its Edges has the legal moves as relations
--   gard/core/uplift_wave_controller.py        Uplift/Wave: guarded update, change window, members;
--                                              Draft: `draft_wave`; Preview; Transitions: `submit`,
--                                              `approve`, `reject`, `cancel`,
--                                              `invalidate_affected_waves`
--   gard/core/uplift_exception_controller.py   Uplift/Exceptions; Operations: `file_exception`,
--                                              `approve_exception`, `reject_exception`,
--                                              `withdraw_exception`, `expire_overdue_exceptions`
--   gard/core/uplift_plan_controller.py        Uplift/Plans
--   `list_waves`, `list_exceptions`            Uplift/Listing, over the pages of Prelude/Paging
-- The other modules below these hold proofs, and so do Uplift/Archival, on plans, and
-- Uplift/Readers, on lists. Prelude has the shared types, tests and lemmas;
-- Scenarios runs the code on concrete databases.
--
-- How the parts interact: the wave and the compliance controller hand the facts of a device to
-- the selector; the wave and the exception controller ask the state machine before they write;
-- all write devices' lifecycle states and audit rows. The compliance evaluation calls the firmware
-- compliance controller and stores its verdict with the drift types; the readiness evaluation
-- sweeps the exceptions, reads the latest stored compliance row, and asks the rules and the
-- upgrade paths. A wave is drafted from the latest readiness verdicts, an exception cites a
-- blocker of one. networkx, which finds the upgrade paths, is a parameter: UpgradePath has a
-- record of the operations that are called and one of the laws that its documentation states.
-- Same compares what rows store, as JSON, with what a call has computed.
--
-- How the code is modelled: a controller function takes the database and gives an outcome, a
-- value or an exception, with the database after it (Prelude/Tx). An exception leaves the writes
-- made before it in place; the rollback of the caller's session is not modelled. `UPDATE ... WHERE
-- id AND state` changes the row only if it is in the expected state. Each call reads the clock
-- once (`Call.now`); times are microseconds, identifiers are numbers in the order of their texts,
-- and the identifier that an insert generates is an argument. `ORDER BY ... DESC LIMIT 1` is the
-- first row of a stable sort, and an unordered query gives the rows in the order of the table. A
-- formatted text is kept as its template and its arguments. `lower` is ASCII's, which slugs are.
-- All loops of the code are structural recursion over rows. A client that follows the cursors of a
-- list runs on fuel, one round a page: more rounds than there are rows are enough.
--
-- Of the constraints of the tables, the CHECK constraints of uplift_waves and uplift_exceptions on
-- times, kinds and the lengths of texts are modelled: a write that breaks one raises
-- check_violation. Texts are measured in characters, as the database does.
--
-- Not modelled: correlation identifiers of rows, logging, confidences, row hashes and the other
-- integrity errors of the database, such as the one for a plan's name that is taken; the reads that page
-- through devices and the compliance summary; imports and normalization;
-- catalogue loading; NetBox; tokens, settings and blobs; the REST, MCP and command line
-- interfaces, which map requests to the controllers.
pub mod Prelude
pub mod Lifecycle
pub mod Scope
pub mod Envelope
pub mod Db
pub mod Compliance
pub mod Drift
pub mod Prereq
pub mod UpgradePath
pub mod Rbac
pub mod Actions
pub mod Same
pub mod Readiness
pub mod DriftEvaluation
pub mod Uplift
pub mod Scenarios
