-- ===== src/Lib.antt =====
-- Verification of the leanSPHINCS benchmark harness, the Python programs under scripts/ that
-- admit, score and record submissions to the signature competition.
--
-- The program. A submission is a directory of Lean files with three metric files, sigma.txt,
-- hverify.txt and bound.txt. source_bundle.py captures it as bytes, once. benchmark_contract.py
-- reads the metrics and renders the theorem template that a comparator holds the submission to.
-- scoring_policy.py scores what was accepted, in the units of oracle_meter.py, and eligibility.py
-- lists what still bars a deployment. verify_submission.py runs all of this in stages, builds and
-- compares the submission, checks that nothing changed meanwhile, and writes a receipt; strict-
-- landrun.py confines the children it starts. ots_experiments.py counts the codebooks of four one-
-- time-signature graphs with exact generating functions, and prints their size/verification
-- frontiers.
--
-- The files.
--   Base, Base/*      shared types: exceptions as values, JSON values, decimal numerals, gcd,
--                     Fraction.
--   Meter             scripts/oracle_meter.py. hash_weight, meter_metadata. Laws in Meter/Weight.
--   Scoring           scripts/scoring_policy.py. product_score, additive_score,
--                     load_scoring_profile, score_entry. Laws in Scoring/Product and
--                     Scoring/Profile.
--   Bundle            scripts/source_bundle.py. capture, manifest, materialize; the admitted names
--                     in Bundle/Names. What capture accepts is in Bundle/Acceptance, over the
--                     single file of Bundle/Capture; the private copy in Bundle/Copy; the order
--                     of a listing in Bundle/Listing, and what a manifest binds in Bundle/Binding.
--   Eligibility       scripts/eligibility.py. load_resource_profile (Eligibility/Profile) and
--                     deployment_gates (Eligibility/Deployment).
--   Contract          scripts/benchmark_contract.py. scalar (Contract/Scalar), parse_bound
--                     (Contract/Terms), lean_bound and render (Contract/Render), metrics
--                     (Contract/Metrics). Each has its laws in the modules below it.
--   Verify            scripts/verify_submission.py. Verify/Report is the receipt and the
--                     computation that writes it, Verify/World what it reads of its surroundings,
--                     with check_dependencies (Verify/Pins); _verify_admitted is one function per
--                     stage in Verify/Stages, check_integrity in Verify/Checks, and its try with
--                     the handlers in Verify/Outcomes. stop_service is in Verify/Service, run in
--                     Verify/Process, verify with the slot of a worker in Verify/Admission, and
--                     write_receipt in Verify/Receipt, prepare_project in Verify/Project,
--                     termination_as_interrupt in Verify/Interrupt, the command line in
--                     Verify/Command; each has its laws in the modules below it.
--                     Verify/Runs, Phases and Integrity read a run backwards, Keeping and
--                     Undecided carry facts through it; Verified, Verdict, Rejection and Snapshot
--                     state the results, and Rejection/Fault what a refused source is. Verify/Acceptance goes forwards: what suffices for a run
--                     to accept.
--   Preflight         scripts/check-sandbox.py. check; what it has seen in Preflight/Enforced.
--   Sandbox           scripts/sandbox_profile.py and scripts/strict-landrun.py. landlock_abi,
--                     landrun_args and main (launch), with its results in Sandbox/Launch;
--                     systemd_command in Sandbox/Unit.
--   Worker            scripts/worker_admission.py. worker_slot, and a step relation on the
--                     processes of one checkout, with its paths (Steps); its invariant in Worker/Exclusion.
--   Artifacts         scripts/artifact_snapshot.py. capture_artifacts, freeze_artifacts; what the
--                     first accepts in Artifacts/Acceptance, and both together in Artifacts/Frozen.
--   Ots               scripts/ots_experiments.py. multiply and power (Ots/Poly), hash_cost
--                     (Ots/Cost), pareto (Ots/Pareto), shared_rows (Ots/Rows), families and
--                     experiments (Ots/Families) with its search loop (Ots/Search) and its choice
--                     of a candidate (Ots/Selection), rank_key (Ots/Rank).
--   Tests             runs on small inputs, and the theorems at concrete data.
--
-- The model. A Python exception is an `err` of the type Result, with the class and the message as
-- in the source. Python's integers are naturals where the code has checked the sign or counts, and
-- the signed type where a JSON number comes in. Bytes are lists of numbers; a text that the code
-- walks is a list of its code points. json.loads is a parameter `loads` of the functions that call
-- it, and a file is the result of reading it, which may be an error. A dict is an association list
-- in insertion order. The verification run is a state and exception computation over the report,
-- so that what a stage wrote before it raised is kept; its calls of programs, of git and of the
-- file system are fields of a record World, each with what it returns or raises. No function of
-- the model takes fuel: the loops recur on the list or on the number of rounds that are left.
--
-- A child process is the record of what its calls return, with the calls of run as a trace; the
-- directory of a receipt is a function from names to contents, with every state on the way. A call
-- that raises where its counterpart in the source has raised is an `err` there, so that the finally
-- blocks run as written. A call of another component (the preflight, the copies of prepare_project)
-- is a field of World, where the component has a model of its own too.
--
-- The body of a with block is, for termination_as_interrupt, a tree of the moments at which Python
-- may run a signal handler; the command line of a run has the interrupt as a call that raises.
--
-- Not modelled: argparse and printing; the JSON reader and the file system behind the reads; the
-- programs that a run starts; the files that the preflight writes for its probe;
-- polynomial_annex.py, a table of constants; write-score.py and the other small command lines over
-- modelled functions; the sandbox probe, the shell scripts and the test programs.
pub mod Base
pub mod Meter
pub mod Scoring
pub mod Ots
pub mod Contract
pub mod Bundle
pub mod Eligibility
pub mod Preflight
pub mod Verify
pub mod Sandbox
pub mod Worker
pub mod Artifacts
mod Tests
