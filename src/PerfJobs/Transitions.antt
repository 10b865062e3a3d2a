-- ===== src/PerfJobs/Transitions.antt =====
-- The states that a benchmark run goes through.
use triton_control.Prelude.{
  ℕ, ◌≡◌, ◌+◌, ◌==◌, ◌&&◌, refl, ◌∙◌, String, Bool, true, false, not, Option, none, some, List,
  is_some, any, if◌then◌else◌,
}
use triton_control.Errors.{Result, ok, err, ◌>>=◌}
use triton_control.PerfJobs.Runs.{
  RunState, creating, pending, running, stopping, succeeded, failed, cancelled, Run, Job, Pod,
  LogSnapshot, Cluster, Creation, created, rejected, unavailable, is_active, is_live, exit_of,
  is_older, failure_message, overdue, working, finish, save_output,
}
use triton_control.PerfJobs.Passes.{
  logged, stopping_pass, create_job, creating_pass, missing_pass, observe, job_pass, started_pass,
  pass, reconcile_active, reconcile_run, recovered, reconcile, warned,
}

pub data Started : RunState → Type 0 where
  waits : Started pending
  works : Started running

-- the steps of the state machine
pub data Step : RunState → RunState → Type 0 where
  stays : {s : RunState} → Step s s
  queued : Step creating pending
  unprepared : Step creating failed
  starts : {s : RunState} → Started s → Step s running
  completes : {s : RunState} → Started s → Step s succeeded
  fails : {s : RunState} → Started s → Step s failed
  terminated : Step stopping cancelled

abbrev Reaches : RunState → Result Run → Type 0
Reaches s (ok r) = Step s r.state
Reaches s (err e) = Unit

-- if the pass does not raise, it takes one step
record Steps (s : RunState) (m : Result Run) : Type 0 where
  at : Reaches s m

Steps-ok : (s : RunState) (run : Run) → Step s run.state → Steps s (ok run)
Steps-ok s run step = record { at = step }

Steps-bind {ℓ} :
    {A : Type ℓ} (s : RunState) (m : Result A) (f : A → Result Run)
    → ((a : A) → Steps s (f a))
    → Steps s (m >>= f)
Steps-bind s (ok a) f h = h a
Steps-bind s (err e) f h = record { at = tt }

Steps-if :
    (b : Bool) (s : RunState) (x y : Result Run)
    → Steps s x
    → Steps s y
    → Steps s (if b then x else y)
Steps-if true s x y p q = p
Steps-if false s x y p q = q

stay : (run : Run) (s : RunState) → run.state ≡ s → Steps s (ok run)
stay run s p = record { at = rw p stays }

module _ (c : Cluster) (now : ℕ) where
  finished_choice :
      (b : Bool) (s t : RunState) (m : String) (run : Run)
      → run.state ≡ s
      → Step s t
      → Steps s (ok (if b then finish now t m run else run))
  unfolding finish
  finished_choice true s t m run p step = Steps-ok s _ step
  finished_choice false s t m run p step = stay run s p

  saved-Steps :
      (s : RunState) (logs : Result LogSnapshot) (run : Run)
      → run.state ≡ s
      → Steps s (ok (save_output logs run))
  unfolding save_output
  saved-Steps s (ok logs) run p = stay _ s p
  saved-Steps s (err e) run p = stay _ s p

  stopping-Steps :
      (job : Option Job) (pods : List Pod) (run : Run)
      → run.state ≡ stopping
      → Steps stopping (stopping_pass c now job pods run)
  unfolding stopping_pass
  stopping-Steps job pods run p = Steps-if _ stopping _ _ (saved-Steps stopping c.logs run p) (
      Steps-bind stopping c.delete_job _
        λ _. finished_choice _ stopping cancelled _ run p terminated)

  create-Steps :
      (answer : Creation) (run : Run)
      → run.state ≡ creating
      → Steps creating (create_job c now answer run)
  unfolding create_job finish
  create-Steps (created job) run p = Steps-ok creating _ queued
  create-Steps (rejected status) run p = Steps-ok creating _ unprepared
  create-Steps (unavailable status) run p = record { at = tt }

  creating-Steps :
      (job : Option Job) (run : Run)
      → run.state ≡ creating
      → Steps creating (creating_pass c now job run)
  unfolding creating_pass
  creating-Steps none run p =
      Steps-if _ creating _ _ (finished_choice _ creating failed _ run p unprepared)
        (create-Steps c.create run p)
  creating-Steps (some job) run p =
      Steps-if _ creating _ _ (finished_choice _ creating failed _ run p unprepared)
        (Steps-ok creating _ queued)

  observe-Steps :
      (s : RunState) (job : Job) (pods : List Pod) (run : Run)
      → Started s
      → run.state ≡ s
      → Steps s (observe c now job pods run)
  unfolding observe finish
  observe-Steps s job pods run st p =
      Steps-if (not (any is_live pods) && job.is_complete) s _ _
        (Steps-ok s (finish now succeeded "Benchmark completed." run) (completes st))
        (Steps-if (not (any is_live pods) && is_some job.failure) s _ _
          (Steps-ok s (finish now failed (failure_message job) run) (fails st))
          (Steps-if (is_older now (c.deadline + 60) run) s _ _
            (Steps-bind s c.delete_job (λ _. ok (overdue run)) λ _. stay (overdue run) s p)
            (Steps-if (any (λ (p : Pod). p.phase == "Running") pods) s _ _
              (Steps-ok s (working now run) (starts st))
              (stay (record run { message = c.pod_message }) s p))))

  warned_choice :
      (b : Bool) (s : RunState) (run other : Run)
      → Step s run.state
      → other.state ≡ run.state
      → Step s (if b then run else other).state
  warned_choice true s run other step p = step
  warned_choice false s run other step p = rw p step

  warned-Steps :
      (s : RunState) (logs : LogSnapshot) (m : Result Run)
      → Steps s m
      → Steps s (m >>= λ r. ok (warned c now logs r))
  warned-Steps s logs (ok r) h = Steps-ok s _ (warned_choice _ s r _ h.at refl)
  warned-Steps s logs (err e) h = h

  started_pass-Steps :
      (s : RunState) (logs : LogSnapshot) (job : Option Job) (pods : List Pod) (run : Run)
      → Started s
      → run.state ≡ s
      → Steps s (started_pass c now logs job pods run)
  unfolding started_pass missing_pass job_pass
  started_pass-Steps s logs none pods run st p =
      Steps-bind s c.delete_job _ λ _. finished_choice _ s failed _ run p (fails st)
  started_pass-Steps s logs (some job) pods run st p =
      Steps-if _ s _ _ (finished_choice _ s failed _ run p (fails st)) (
        Steps-if _ s _ _ (Steps-bind s c.resume _ λ _. stay run s p) (
          warned-Steps s logs _ (
            observe-Steps s job pods (record run { exit_code = exit_of pods run.exit_code }) st p)))

  logged_choice :
      (b : Bool) (run other : Run)
      → other.state ≡ run.state
      → (if b then run else other).state ≡ run.state
  logged_choice true run other p = refl
  logged_choice false run other p = p

  pass-Steps :
      (s : RunState) (job : Option Job) (pods : List Pod) (run : Run)
      → is_active s ≡ true
      → run.state ≡ s
      → Steps s (pass c now s job pods run)
  unfolding pass
  pass-Steps creating job pods run a p =
      Steps-bind creating c.logs _
        λ logs. creating-Steps job (logged c now logs run) (logged_choice _ run _ refl ∙ p)
  pass-Steps pending job pods run a p = Steps-bind pending c.logs _ λ logs.
      started_pass-Steps pending logs job pods (logged c now logs run) waits
        (logged_choice _ run _ refl ∙ p)
  pass-Steps running job pods run a p = Steps-bind running c.logs _ λ logs.
      started_pass-Steps running logs job pods (logged c now logs run) works
        (logged_choice _ run _ refl ∙ p)
  pass-Steps stopping job pods run a p = stopping-Steps job pods run p
  pass-Steps succeeded job pods run a p = cc
  pass-Steps failed job pods run a p = cc
  pass-Steps cancelled job pods run a p = cc

  recovered-Step :
      (run : Run) (m : Result Run)
      → Steps run.state m
      → Step run.state (recovered c now run m).state
  recovered-Step run (ok r) h = h.at
  recovered-Step run (err e) h = stays

  active_choice :
      (b : Bool) (run : Run) → is_active run.state ≡ b → Steps run.state (reconcile_run c now run)
  unfolding reconcile_run reconcile_active
  active_choice true run p = rw p (
      Steps-bind _ c.read _
        λ job. Steps-bind _ c.pods _ λ pods. pass-Steps run.state job pods run p refl)
  active_choice false run p = rw p (Steps-bind _ c.cleanup _ λ cleaned. Steps-ok _ _ stays)

  cleaned_choice :
      (b : Bool) (run other : Run)
      → Step run.state other.state
      → Step run.state (if b then run else other).state
  cleaned_choice true run other step = stays
  cleaned_choice false run other step = step

  -- A pass of the reconciler, whatever the cluster answers and also when a call of it raises, takes a
  -- run along one step of the state machine, or leaves its state: a queued run is not started
  -- before its Job is known, and a run that is being stopped ends as cancelled only.
  pub reconcile-Step : (run : Run) → Step run.state (reconcile c now run).state
  unfolding reconcile
  reconcile-Step run =
      cleaned_choice run.cleaned run _ (recovered-Step run _ (active_choice _ run refl))
