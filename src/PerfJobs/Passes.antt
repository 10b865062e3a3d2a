-- ===== src/PerfJobs/Passes.antt =====
-- One pass of the reconciler over a run: `reconcile_active` and `reconcile`.
use triton_control.Prelude.{
  ℕ, ◌+◌, not, ◌&&◌, Option, none, some, List, [], ◌∷◌, any, is_some, ◌^^◌, ◌==◌, if◌then◌else◌,
}
use triton_control.Errors.{Result, ok, err, uncaught, ◌>>=◌}
use triton_control.PerfJobs.Runs.{
  Cluster, Creation, Job, LogSnapshot, Pod, Run, RunState, cancelled, code_of, created, creating,
  exit_of, failed, failure_message, finish, is_active, is_empty, is_live, is_older, overdue,
  pending, rejected, save_output, stop_run, stopping, succeeded, unavailable, working,
}

module _ (c : Cluster) (now : ℕ) where
  unfoldable pub stopping_pass : Option Job → List Pod → Run → Result Run
  unfolding save_output finish
  stopping_pass job pods run =
      if not run.stop_output_saved
      then ok (save_output c.logs run)
      else (c.delete_job >>= λ _. ok (
          if not (is_some job) && is_empty pods
          then finish now cancelled "Benchmark stopped." run
          else run))

  -- the Job exists: its identity is saved
  abbrev pub identified : Run → Job → Run
  identified run job = record run {
    job_uid = some job.uid;
    state = pending;
    message = "Waiting for benchmark pod.";
  }

  unfoldable pub create_job : Creation → Run → Result Run
  unfolding finish
  create_job (created job) run = ok (identified run job)
  create_job (rejected status) run =
      ok (finish now failed ("Kubernetes rejected benchmark Job creation (" ^^ status ^^ ").") run)
  create_job (unavailable status) run = err (uncaught status)

  unfoldable pub creating_pass : Option Job → Run → Result Run
  unfolding create_job finish
  creating_pass job run =
      if not run.prepared
      then ok (
          if is_older now 60 run
          then finish now failed "Benchmark preparation was interrupted. Start a new run." run
          else run)
      else elim job as (λ _. Result Run) [
        | none ↦ create_job c.create run
        | some j ↦ ok (identified run j)
      ]

  unfoldable pub missing_pass : List Pod → Run → Result Run
  unfolding finish
  missing_pass pods run = c.delete_job >>= λ _. ok (
      if is_empty pods
      then finish now failed
          "Benchmark Job disappeared; any unavailable output could not be recovered." run
      else run)

  -- the warning of the logs is added to the message
  abbrev pub warned : LogSnapshot → Run → Run
  warned logs run =
      if logs.warning == ""
      then run
      else record run { message = run.message ^^ " " ^^ logs.warning }

  -- the branch for what the Job and its pods show
  unfoldable pub observe : Job → List Pod → Run → Result Run
  unfolding finish
  observe job pods run =
      let live = any is_live pods in
      if not live && job.is_complete
      then ok (finish now succeeded "Benchmark completed." run)
      else if not live && is_some job.failure
      then ok (finish now failed (failure_message job) run)
      else if is_older now (c.deadline + 60) run
      then (c.delete_job >>= λ _. ok (overdue run))
      else if any (λ (p : Pod). p.phase == "Running") pods
      then ok (working now run)
      else ok (record run { message = c.pod_message })

  unfoldable pub job_pass : LogSnapshot → Job → List Pod → Run → Result Run
  unfolding observe finish
  job_pass logs job pods run =
      if job.is_deleting
      then ok (
          if is_empty pods
          then finish now failed "Benchmark Job was deleted externally." run
          else run)
      else if job.suspend
      then (c.resume >>= λ _. ok run)
      else (observe job pods (record run { exit_code = exit_of pods run.exit_code }) >>= λ r.
          ok (warned logs r))

  abbrev pub logged : LogSnapshot → Run → Run
  logged logs run = if logs.output == "" then run else record run { output = logs.output }

  unfoldable pub started_pass : LogSnapshot → Option Job → List Pod → Run → Result Run
  unfolding missing_pass job_pass
  started_pass logs none pods run = missing_pass pods run
  started_pass logs (some job) pods run = job_pass logs job pods run

  -- the branches of `reconcile_active`, by the state of the run
  unfoldable pub pass : RunState → Option Job → List Pod → Run → Result Run
  unfolding stopping_pass creating_pass started_pass
  pass stopping job pods run = stopping_pass job pods run
  pass creating job pods run = c.logs >>= λ logs. creating_pass job (logged logs run)
  pass state job pods run = c.logs >>= λ logs. started_pass logs job pods (logged logs run)

  unfoldable pub reconcile_active : Run → Result Run
  unfolding pass
  reconcile_active run = do job ← c.read; pods ← c.pods; pass run.state job pods run

  -- the body of the `try` in `reconcile`
  unfoldable pub reconcile_run : Run → Result Run
  unfolding reconcile_active
  reconcile_run run =
      if not (is_active run.state)
      then (c.cleanup >>= λ cleaned. ok (record run { cleaned = cleaned }))
      else reconcile_active run

  -- an exception is rolled back; only the message changes
  abbrev pub recovered : Run → Result Run → Run
  recovered run (ok r) = r
  recovered run (err e) = record run {
    message = "Unable to reconcile Kubernetes resources (" ^^ code_of e ^^ "); retrying.";
  }

  -- `reconcile` of a row that could be locked
  unfoldable pub reconcile : Run → Run
  unfolding reconcile_run
  reconcile run = if run.cleaned then run else recovered run (reconcile_run run)

-- What happens to a run: a pass of the reconciler at some time, or a request to stop it.
pub data Event : Type 0 where
  passes : Cluster → (now : ℕ) → Event
  stops : Event

unfoldable pub react : Event → Run → Run
unfolding reconcile stop_run
react (passes c now) run = reconcile c now run
react stops run = stop_run run

unfoldable pub history : List Event → Run → Run
unfolding react
history [] run = run
history (e ∷ es) run = history es (react e run)
