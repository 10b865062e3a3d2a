-- ===== src/PerfJobs/History.antt =====
-- What stays true of a run over all passes and requests to stop it.
use triton_control.Prelude.{
  ◌≡◌, refl, ap, ◌∙◌, Bool, true, false, List, [], ◌∷◌, ◌⊎◌, inl, inr, if◌then◌else◌,
}
use triton_control.PerfJobs.Runs.{RunState, stopping, cancelled, Run, is_active, stop_run}
use triton_control.PerfJobs.Passes.{Event, passes, stops, react, history}
use triton_control.PerfJobs.Transitions.{
  Step, stays, queued, unprepared, starts, completes, fails, terminated, waits, works,
  reconcile-Step,
}

kept_final : (s t : RunState) → is_active s ≡ false → Step s t → t ≡ s
kept_final s t p stays = refl
kept_final s t p queued = cc
kept_final s t p unprepared = cc
kept_final s t p (starts waits) = cc
kept_final s t p (starts works) = cc
kept_final s t p (completes waits) = cc
kept_final s t p (completes works) = cc
kept_final s t p (fails waits) = cc
kept_final s t p (fails works) = cc
kept_final s t p terminated = cc

react_final :
    (e : Event) (run : Run) → is_active run.state ≡ false → (react e run).state ≡ run.state
unfolding react stop_run
react_final (passes c now) run p = kept_final _ _ p (reconcile-Step c now run)
react_final stops run p = rw p refl

-- A run that has succeeded, failed or was cancelled keeps that state, whatever passes and requests
-- to stop it follow.
pub history-final :
    (es : List Event) (run : Run) → is_active run.state ≡ false → (history es run).state ≡ run.state
unfolding history
history-final [] run p = refl
history-final (e ∷ es) run p =
    let q = react_final e run p in history-final es (react e run) (ap is_active q ∙ p) ∙ q

-- being stopped, or cancelled
abbrev pub Ending : RunState → Type 0
Ending s = (s ≡ stopping) ⊎ (s ≡ cancelled)

Ending-Step : (s t : RunState) → Ending s → Step s t → Ending t
Ending-Step s t e stays = e
Ending-Step s t (inl p) queued = cc
Ending-Step s t (inr p) queued = cc
Ending-Step s t (inl p) unprepared = cc
Ending-Step s t (inr p) unprepared = cc
Ending-Step s t (inl p) (starts waits) = cc
Ending-Step s t (inl p) (starts works) = cc
Ending-Step s t (inr p) (starts waits) = cc
Ending-Step s t (inr p) (starts works) = cc
Ending-Step s t (inl p) (completes waits) = cc
Ending-Step s t (inl p) (completes works) = cc
Ending-Step s t (inr p) (completes waits) = cc
Ending-Step s t (inr p) (completes works) = cc
Ending-Step s t (inl p) (fails waits) = cc
Ending-Step s t (inl p) (fails works) = cc
Ending-Step s t (inr p) (fails waits) = cc
Ending-Step s t (inr p) (fails works) = cc
Ending-Step s t e terminated = inr refl

stop_choice :
    (b : Bool) (run other : Run)
    → other.state ≡ stopping
    → Ending run.state
    → Ending (if b then other else run).state
stop_choice true run other p e = inl p
stop_choice false run other p e = e

react-Ending : (e : Event) (run : Run) → Ending run.state → Ending (react e run).state
unfolding react stop_run
react-Ending (passes c now) run h = Ending-Step _ _ h (reconcile-Step c now run)
react-Ending stops run h = stop_choice _ run _ refl h

Ending-history : (es : List Event) (run : Run) → Ending run.state → Ending (history es run).state
unfolding history
Ending-history [] run h = h
Ending-history (e ∷ es) run h = Ending-history es (react e run) (react-Ending e run h)

-- Once the stop of an active run was requested, the run is being stopped or was cancelled after
-- whatever passes and requests follow: it neither runs again nor counts as succeeded or failed.
pub history-Ending :
    (es : List Event) (run : Run)
    → is_active run.state ≡ true
    → Ending (history es (stop_run run)).state
unfolding stop_run
history-Ending es run p = Ending-history es (stop_run run) (rw p (inl refl))
