-- ===== src/PerfJobs/Runs.antt =====
-- The row of a benchmark run: its data, its reservation and what ends it, and what the Kubernetes
-- calls of jobs_kubernetes.py answer in one pass, which is a parameter, `Cluster`.
use triton_control.Prelude.{
  ℕ, ◌*◌, ◌-◌, String, Bool, true, false, not, ◌&&◌, ◌||◌, Option, none, some, List, [], ◌∷◌, ◌++◌,
  find, is_some, beq, ltb, ◌^^◌, ◌==◌, if◌then◌else◌,
}
use triton_control.Errors.{AppError, Result, ok, err, conflict_error, not_found_error, uncaught}

pub data RunState : Type 0 where
  creating pending running stopping succeeded failed cancelled : RunState

pub record ModelPerfJobEntity : Type 0 where
  pub id : String
  pub instance_id : ℕ
  pub model_name : String
  pub model_version : String
  pub job_uid : Option String
  pub state : RunState
  pub message : String
  pub prepared : Bool
  pub stop_output_saved : Bool
  pub cleaned : Bool
  pub output : String
  pub exit_code : Option ℕ
  pub created_at : ℕ
  pub started_at : Option ℕ
  pub finished_at : Option ℕ

-- what the program reads of a Job; `failure` is the message or the reason of a `Failed` condition
pub record Job : Type 0 where
  pub uid : String
  pub is_deleting : Bool
  pub suspend : Bool
  pub is_complete : Bool
  pub failure : Option String

pub record Pod : Type 0 where
  pub phase : String
  pub exit_codes : List ℕ

pub record LogSnapshot : Type 0 where
  pub output : String
  pub warning : String

-- the answer to the creation of a Job
pub data Creation : Type 0 where
  created : Job → Creation
  rejected : (status : String) → Creation
  unavailable : (status : String) → Creation

-- what the calls of `Jobs` answer in one pass
pub record Cluster : Type 0 where
  pub read : Result (Option Job)
  pub pods : Result (List Pod)
  pub logs : Result LogSnapshot
  pub create : Creation
  pub delete_job : Result (Unit {0})
  pub resume : Result (Unit {0})
  pub cleanup : Result Bool
  pub pod_message : String
  -- deadline_seconds()
  pub deadline : ℕ

-- ACTIVE
abbrev pub is_active : RunState → Bool
is_active creating = true
is_active pending = true
is_active running = true
is_active stopping = true
is_active succeeded = false
is_active failed = false
is_active cancelled = false

abbrev pub Run : Type 0
Run = ModelPerfJobEntity

-- the filter of `active`
abbrev pub is_reserved_for : ℕ → String → Run → Bool
is_reserved_for i m r = beq r.instance_id i && r.model_name == m && is_active r.state

unfoldable pub active : ℕ → String → List Run → Option Run
active i m rows = find (is_reserved_for i m) rows

-- what the commit does: the index on the active runs of a model may be violated by another
-- transaction, whose rows are seen after the rollback
pub data Commit : Type 0 where
  committed : Commit
  integrity_error : List Run → Commit

abbrev already_active : Run → AppError
already_active existing =
    conflict_error ("A performance run is already active for this model: " ^^ existing.id)

abbrev rolled_back : Option Run → Result (List Run)
rolled_back none = err (uncaught "IntegrityError")
rolled_back (some existing) = err (already_active existing)

-- `session.add(row)`, and its commit
unfoldable pub add_row : Commit → Run → List Run → Result (List Run)
unfolding active
add_row committed row rows = ok (rows ++ row ∷ [])
add_row (integrity_error seen) row rows = rolled_back (active row.instance_id row.model_name seen)

abbrev pub add_unless : Option Run → Commit → Run → List Run → Result (List Run)
add_unless none commit row rows = add_row commit row rows
add_unless (some existing) commit row rows = err (already_active existing)

-- `reserve`, with whether the instance is there and is being deleted, and what the commit does
unfoldable pub reserve : (instance : Option Bool) → Commit → Run → List Run → Result (List Run)
unfolding active add_row
reserve none commit row rows = err (not_found_error "Instance not found")
reserve (some true) commit row rows = err (conflict_error "Instance deletion is in progress")
reserve (some false) commit row rows =
    add_unless (active row.instance_id row.model_name rows) commit row rows

-- the part of `stop` on the row
unfoldable pub stop_run : Run → Run
stop_run run =
    if is_active run.state
    then record run {
      state = stopping;
      message = "Stopping benchmark; waiting for its pods to terminate.";
    }
    else run

-- the part of `finish` on the row of the run
unfoldable pub finish : ℕ → RunState → String → Run → Run
finish now state message run = record run {
  state = state;
  message = message;
  finished_at = some now;
}

abbrev pub seconds : ℕ → ℕ
seconds n = n * 1000000

-- (datetime.utcnow() - run.created_at).total_seconds() > n
abbrev pub is_older : ℕ → ℕ → Run → Bool
is_older now n run = ltb (seconds n) (now - run.created_at)

-- the output of a run that is being stopped
unfoldable pub save_output : Result LogSnapshot → Run → Run
save_output (ok logs) run = record run {
  output = if logs.output == "" then run.output else logs.output;
  message = if logs.warning == "" then run.message else "Stopping benchmark. " ^^ logs.warning;
  stop_output_saved = true;
}
save_output (err e) run = record run {
  message = "Stopping benchmark. Could not read pod logs; keeping previously captured output.";
  stop_output_saved = true;
}

-- the HTTP status of an `ApiException`, or the class of another exception
abbrev pub code_of : AppError → String
code_of (uncaught code) = code
code_of _ = "AppError"

abbrev pub is_empty : List Pod → Bool
is_empty [] = true
is_empty (p ∷ ps) = false

abbrev pub last_exit : List ℕ → Option ℕ → Option ℕ
last_exit [] before = before
last_exit (c ∷ cs) before = last_exit cs (some c)

-- the loop over the containers that have terminated
abbrev pub exit_of : List Pod → Option ℕ → Option ℕ
exit_of [] before = before
exit_of (p ∷ ps) before = exit_of ps (last_exit p.exit_codes before)

abbrev pub is_live : Pod → Bool
is_live p = not (p.phase == "Succeeded" || p.phase == "Failed")

-- condition.message or condition.reason or the default
abbrev pub failure_message : Job → String
failure_message job = elim job.failure [
  | none ↦ "Benchmark failed."
  | some m ↦ if m == "" then "Benchmark failed." else m
]

abbrev pub overdue : Run → Run
overdue run = record run { message = "Benchmark exceeded its deadline; terminating its workload." }

abbrev pub working : ℕ → Run → Run
working now run = record run {
  state = running;
  message = "Benchmark running.";
  started_at = if is_some run.started_at then run.started_at else some now;
}
