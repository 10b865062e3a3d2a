-- ===== src/PerfJobs.antt =====
-- services/perf_analyzer/jobs.py and repositories/perf_jobs.py: the life of a benchmark run.
pub mod Runs
pub mod Passes
pub mod Transitions
pub mod History
pub mod Exclusive
pub mod Payload
pub mod Inputs
