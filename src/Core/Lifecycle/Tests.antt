-- ===== src/Core/Lifecycle/Tests.antt =====
-- The lifecycle's theorems at the sample execution.
use micra.Common.{
  ◌+◌, ◌*◌, ◌≤◌, length, all_below, true, Option, none, some, List, [], ◌∷◌, ◌++◌, ◌≡◌, refl, ◌⊎◌,
  ℕ_discrete,
}
use micra.Errors.{Sentinel, Err, sentinel, external, joined, cons, errs_of, join, is?}
use micra.Core.Lifecycle.{
  Goroutine, Pc, State, Event, Action, initial, run, step, stop_error, has_exited,
}
use micra.Core.Lifecycle.Phases.{InitFailed, returned_order}
use micra.Core.Lifecycle.Trigger.{InitError, returned_error}
use micra.Core.Lifecycle.Provenance.{Caused}
use micra.Core.Lifecycle.Provenance.Reachable.{trigger-Caused}
use micra.Core.Lifecycle.Channel.{send_never_blocks}
use micra.Core.Lifecycle.Termination.{Rests, CanGoOn, run_terminates}
use micra.Core.Lifecycle.Drained.{returned_drains}
use micra.Core.Lifecycle.StopErrors.{errors_of, answers, run-answers}
use micra.Core.Lifecycle.Schedules.{
  sample, starting, stopped, waiting_state, stopped_state, stopped_reached, sending_state,
  sending_reached,
}

abbrev stopped_errors : List Err
stopped_errors =
    stop_error "http" (external 7) ∷ stop_error "db" (sentinel Sentinel.stop_timeout) ∷ []

abbrev stopped_result : Option Err
stopped_result = some (joined (cons (sentinel Sentinel.canceled) (errs_of stopped_errors)))

stopped_ends : stopped_state.pc ≡ Pc.returned stopped_result
unfolding run initial ℕ_discrete join
stopped_ends = refl

returned_order_example :
    InitFailed sample stopped_result stopped_state.log
    ⊎ (stopped_state.log
        ≡ Event.stop_called 0
          ∷ Event.stop_called 1
          ∷ Event.start_launched 1
          ∷ Event.start_launched 0
          ∷ Event.init_called 0
          ∷ [])
unfolding run initial ℕ_discrete
returned_order_example = returned_order sample stopped_result stopped_reached stopped_ends

returned_error_example :
    (InitError sample stopped_result × (stopped_state.trigger ≡ none))
    ⊎ ((e : Err) × (stopped_state.trigger ≡ some e)
        × (stopped_result ≡ join (e ∷ stopped_state.stop_errs)))
unfolding run initial ℕ_discrete
returned_error_example = returned_error sample stopped_result stopped_reached stopped_ends

trigger-Caused_example :
    Caused sample stopped_state.parent stopped_state.starts stopped_state.trigger
trigger-Caused_example = trigger-Caused sample stopped_reached

send_never_blocks_example :
    (t : State) × (step sample (Action.start_sends 1) sending_state ≡ some t)
    × (t.starts 1 ≡ Goroutine.exited (some (external 3)))
    × (t.results ≡ sending_state.results ++ (1, some (external 3)) ∷ [])
unfolding run initial ℕ_discrete
send_never_blocks_example = send_never_blocks sample 1 (some (external 3)) sending_reached refl

run_terminates_example :
    (length starting ≤ 7 * 2 + 12)
    × (Rests sample Pc.waiting waiting_state ⊎ CanGoOn sample waiting_state)
unfolding run initial ℕ_discrete
run_terminates_example = run_terminates sample starting waiting_state refl

returned_drains_example :
    (all_below 2 (λ j. has_exited (stopped_state.starts j)) ≡ true)
    ⊎ (is? Sentinel.stop_timeout stopped_result ≡ true)
unfolding run initial ℕ_discrete
returned_drains_example =
    returned_drains sample stopped_result (sentinel Sentinel.canceled) stopped_reached stopped_ends
      refl

run-answers_example :
    stopped_result
    ≡ join (sentinel Sentinel.canceled ∷ errors_of sample 2 (answers (starting ++ stopped)))
unfolding run initial ℕ_discrete join
run-answers_example =
    run-answers sample (starting ++ stopped) stopped_state stopped_result _ refl refl refl
