-- ===== src/Lib.antt =====
-- A verification library for the backend of NetSleuth AI, a network-forensics service
-- (backend/app). A capture goes through four engines: the packet engine (M1) turns it into flows,
-- protocol events and artifacts; the analysis engine (M2) turns those into findings; the
-- correlation engine (M3) turns findings into hypotheses, validates them, and derives root
-- causes, impacts and MITRE mappings; the reporting engine (M4) writes reports. A job service
-- runs them for an acquisition in the background, and a case service keeps the investigation
-- case. This library models the acquisition of a capture, M1 from the run of Zeek to the package,
-- the findings of M2, the whole of M3 from its input to the document of the case, the custody log
-- and the integrity check of M4, the jobs, the cases and the access to them.
--
-- Files and code (a path that begins with a folder of backend/app, such as engines or services,
-- stands under backend/app):
--
-- - Shared and its children: Boolean tests, lists, results, Python dictionaries as association
--   lists in insertion order, texts, sorting and sets. No code of the repository.
-- - Correlation.Domain and Correlation.Samples: contracts/network_intelligence.py,
--   contracts/analysis.py and engines/correlation/domain/input.py (records of backend/app), and
--   small packages for the tests.
-- - Correlation.Input: engines/correlation/adapters/m3_input_adapter.py, `M3InputAdapter.adapt`.
--   Index, Loops, Integrity and Contract have the theory of its tables, of its loops, of the
--   packages that it accepts, and its contract.
-- - Correlation.Investigation.Context: the records of engines/correlation/domain (hypothesis.py,
--   root_cause.py, impact.py, timeline.py).
-- - Correlation.Investigation.Generator:
--   engines/correlation/investigation/hypothesis_generator.py; `generate_one` is the body of its
--   loop over the groups.
-- - Correlation.Investigation.Rules and Validator:
--   engines/correlation/investigation/hypothesis_validator.py. `verdict` is the chain of rules,
--   `validate_one` the body of the loop.
-- - Correlation.Investigation.RootCauses: root_cause_analyzer.py of that folder, `root_cause` and
--   `analyze_one`.
-- - Correlation.Investigation.Impacts: impact_assessor.py of that folder, `impact`, `assess` and
--   `assess_one`.
-- - Correlation.Investigation.Pipeline: the three engines one after the other.
-- - Correlation.Mitre: engines/correlation/mitre/repository.py and models.py;
--   Correlation.Mitre.Mapper: mapper.py, `map_finding` and the rules of `_evaluate_technique`.
-- - Correlation.Entities: the records and checks of engines/correlation/domain (entity.py,
--   relationship.py, evidence.py, finding.py) and `InvestigationContext.add_entity`. Merging has
--   the theory of that merge, Identifiers that of the identifiers.
-- - Correlation.Rules: engines/correlation/correlation/rules.py and correlation_engine.py; Graph
--   says which relationships come out, Repeat what a second run does, Preservation what a run
--   leaves alone.
-- - Correlation.Observations and Correlation.Timeline: engines/correlation/timeline/builder.py;
--   Events and Order have its theory.
-- - Correlation.CaseBuilder: engines/correlation/investigation/case_builder.py. Document has the
--   dictionaries as records, Entries and Assessed their loops, AttackChain `_build_attack_chain`,
--   Build the method `build`.
-- - Correlation.Assembly: the correlation phase of orchestrator/pipeline.py
--   (`run_pipeline_from_m1`), which calls all of these in order; Evidence, Context, Sources and
--   Totality have its lemmas, Phase and Outcome its theorems.
-- - Access: auth/dependencies.py, router.py and passwords.py, and
--   persistence/repositories/identity_repository.py. Guard says who opens a case and what a
--   refusal leaves behind, Session that a login's token leads back to its user.
-- - Acquisition: engines/acquisition (validator.py, hasher.py, service.py). Hasher shows what
--   hashing in blocks gives, Contract what `acquire` returns.
-- - Analysis.Decision: the states of engines/analysis/decision/result.py. Analysis.Rationale:
--   `generate_rationale` of engines/analysis/findings/attribution.py; Values says when it
--   returns. Analysis.Findings: the rest of attribution.py, builder.py and generator.py;
--   Attribution, Generation, Window and Acceptance have its lemmas and theorems, and Outcome
--   joins it to the correlation phase.
-- - Jobs.Table: persistence/repositories/analysis_repository.py and the row of
--   persistence/models/investigation_models.py. Jobs.Service: services/analysis_orchestrator.py.
--   Jobs.Runs: the runs of the service, as a step relation on its tables.
-- - Packets.Json: the JSON values of the logs and the conversions to float, int, str and
--   datetime. Packets.Zeek: engines/packet_intelligence/zeek/reader.py, result.py and errors.py;
--   Entries says whose the records are. Packets.Runner: zeek/runner.py of that folder, `run_zeek`
--   is `run`; Guard says which captures it mounts.
-- - Packets.Adapters and its children Conn, Dns, Http and Tls:
--   engines/packet_intelligence/adapters. An adapter is `convert_conn` and so on; its result is
--   the object, an AdapterError that is returned, or an exception that passes. Packets.Conversion
--   says what the objects have, Packets.Containment when no exception passes.
-- - Packets.Process: engines/packet_intelligence/orchestrator.py,
--   `M1Orchestrator.process_acquisition`. Drawn, Flows, Parts, Events and Assembly have the
--   invariants of its two passes and of its checks, FlowRecord, EventRecord and Record what a
--   package holds, Outcome, Refusals and Answer what it returns and raises, and Pipeline joins it
--   to M2 and M3. Packets.Samples: a host and logs for the tests.
-- - Packets.Artifacts: engines/packet_intelligence/artifacts/extractor.py and
--   engines/packet_intelligence/provenance/validator.py; Packets.Provenance: how the two fit.
-- - Reporting.Custody: engines/reporting/chain_of_custody.py; Log and Contents have the theory of
--   its log. Reporting.Integrity: engines/reporting/integrity_verifier.py; Verdicts says what its
--   statuses mean.
-- - Cases.Service: services/case_service.py; Cases.Graph and Cases.Transitions: the life of a
--   case.
-- - The modules named Examples: runs on concrete values.
--
-- State. M1 keeps state within one call: its two passes thread the flows, the index from uids to
-- flows, the events, the artifacts and the number of identifiers that were drawn. The engines of
-- M3 are pure: each takes the input and the earlier engines' results and returns its own. The job
-- service keeps a table of jobs and an audit log; a background task is a sequence of
-- transactions, each of them one function on the tables, and tasks and requests interleave in any
-- order. A request is one step, so two requests that overlap within their transactions are
-- outside the model. The case service is modelled on one case; the database refuses there what
-- its checks of the columns do not allow. The login and the routes of a case are functions on the
-- tables of users, of accesses and of the audit log.
--
-- Numbers. Scores, confidences and features of the source are floats, of which some are rounded
-- to six places and some not at all. Here they are exact, finite hundredths (thousandths for a
-- mapping's confidence): a score with more places, the truncation and the rounding of such a
-- score in a text (`finding_event`, `generate_rationale`), rounding errors, and the OverflowError
-- of `int` on an infinite feature are outside the model. The decision of M2, whose comparisons
-- depend on such places, is an argument. A confidence that would fall below 0 is 0 here at once,
-- as the source makes it at the end. Times are numbers with a flag for the time zone; those of M1
-- count microseconds. The floats of the logs are exact millionths, and an int of the logs is in
-- the range of a float.
--
-- Texts. `lower` and `strip` are those of ASCII, and no text holds a lone surrogate. A set of
-- texts is a list without repeats; the order that Python gives a set is not fixed, and nothing
-- here depends on it where the source sorts.
--
-- Parameters, for what is outside the repository: what the file system says of a path, the hash
-- algorithm (a record of operations with the laws of hashlib), bcrypt, jose and uuid (a record),
-- the Pydantic validation of the two packages, the SHA-256 digest, the clock, whether an address
-- is private (the ipaddress module), the parser and printer of ISO 8601, the printer of times
-- (`isoformat`), the digests of hashlib, and the check against the JSON schema; of M1, json.loads
-- (which returns or raises a JSONDecodeError), how Python reads a text as a number and writes a
-- container, the largest time of the platform, whether Pydantic takes a duration that is not a
-- number, the answers of Docker and of the file system, and the sequence of identifiers that
-- uuid4 draws, of which the theorems ask that they are distinct and not empty. In the correlation
-- phase, the dump of both packages to JSON and their validation are taken to give the packages
-- back. The two readings of the logs in a run give the same. The job model takes the results of
-- the packet engine and of the pipeline as arguments, and leaves out that a transaction fails.
--
-- Loops are structural recursion on their lists, so nothing here runs on fuel, except for the
-- loop that hashes a file, which takes a byte at least in each round but the last and has one
-- round more than there are bytes, and for the digits of a number, which have the number plus one
-- as fuel: a number has no more digits than that.
--
-- Not modelled: the writing of M1's package to the database, the features, models and scores of
-- the analysis engine, the phases of the pipeline around the correlation, the reports, the
-- assistant, the other routes and the database itself. These are numerical code, calls of other
-- programs, layout, or input and output.
pub mod Shared
pub mod Correlation
pub mod Jobs
pub mod Cases
pub mod Reporting
pub mod Access
pub mod Acquisition
pub mod Analysis
pub mod Packets
