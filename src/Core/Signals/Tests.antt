-- ===== src/Core/Signals/Tests.antt =====
-- Two calls of the stop function that overlap, after a signal.
use micra.Common.{
  ℕ, ◌+◌, ◌*◌, ◌≤◌, true, false, Option, none, some, List, [], ◌∷◌, ◌≡◌, ◌⊎◌, refl, Holds,
  ℕ_discrete,
}
use micra.Core.Signals.{
  exited, idle, fresh, selecting, State, Action, signal, take_signal, watch, call, proceed,
  on_signal, on_take_signal, on_see_end, on_watch, on_call, on_once, on_await, on_proceed, trap,
  step, run, Reach, start, later,
}
use micra.Core.Signals.Invariant.{HasEnded}
use micra.Core.Signals.Reachable.{returned_lem}
use micra.Core.Signals.Termination.{is_settled, Enabled, Run, here, then_step, stop_returns}

-- SIGINT and SIGTERM
abbrev two_signals : List ℕ
two_signals = 2 ∷ 15 ∷ []

run-step-Reach :
    (a : Action) (rest : List Action) (s : State) (o : Option State)
    → Reach two_signals 2 s
    → step two_signals 2 a s ≡ o
    → ((t : State) → Reach two_signals 2 t → Holds (Reach two_signals 2) (run two_signals 2 rest t))
    → Holds (Reach two_signals 2) (elim o [ none ↦ none | some t ↦ run two_signals 2 rest t ])
run-step-Reach a rest s none r e go = tt
run-step-Reach a rest s (some t) r e go = go t (later a r e)

run-Reach :
    (actions : List Action) (s : State)
    → Reach two_signals 2 s
    → Holds (Reach two_signals 2) (run two_signals 2 actions s)
unfolding run
run-Reach [] s r = r
run-Reach (a ∷ rest) s r =
    run-step-Reach a rest s (step two_signals 2 a s) r refl (λ t. run-Reach rest t)

abbrev or_else : State → Option State → State
or_else s none = s
or_else s (some t) = t

abbrev begun : State
begun = record {
  registered = true;
  buffered = true;
  received = true;
  ended = none;
  watcher = selecting;
  once = fresh;
  callers = λ (i : ℕ). idle;
}

-- The first call is inside the once when the second comes.
abbrev schedule : List Action
schedule =
    signal 15
    ∷ take_signal
    ∷ call 0
    ∷ proceed 0
    ∷ call 1
    ∷ proceed 0
    ∷ watch
    ∷ proceed 0
    ∷ watch
    ∷ proceed 0
    ∷ proceed 1
    ∷ []

abbrev trapped : State
trapped = record begun { buffered = false; received = false }

abbrev stopped : State
stopped = or_else begun (run two_signals 2 schedule trapped)

trapped-Reach : Reach two_signals 2 trapped
unfolding trap
trapped-Reach = start refl

stopped-Reach : Reach two_signals 2 stopped
unfolding run step on_signal on_take_signal on_see_end on_watch on_call on_once on_await on_proceed
    ℕ_discrete
stopped-Reach = run-Reach schedule trapped trapped-Reach

no_signals : trap [] none ≡ none
unfolding trap
no_signals = refl

returned_lem_example :
    ((k : ℕ) → step two_signals 2 (signal k) stopped ≡ some stopped)
    × HasEnded stopped.ended
    × (stopped.watcher ≡ exited)
unfolding run step on_signal on_take_signal on_see_end on_watch on_call on_once on_await on_proceed
    ℕ_discrete
returned_lem_example = returned_lem two_signals 2 stopped 0 stopped-Reach refl

-- A signal has come, and the first call is inside the once.
abbrev waiting : State
waiting = or_else begun (run two_signals 2 (signal 15 ∷ call 0 ∷ proceed 0 ∷ []) trapped)

waiting-Reach : Reach two_signals 2 waiting
unfolding run step on_signal on_take_signal on_see_end on_watch on_call on_once on_await on_proceed
    ℕ_discrete
waiting-Reach = run-Reach (signal 15 ∷ call 0 ∷ proceed 0 ∷ []) trapped trapped-Reach

abbrev nearly : State
nearly = or_else begun (run two_signals 2 (proceed 0 ∷ take_signal ∷ watch ∷ []) waiting)

nearly-Run : Run two_signals 2 waiting 3 nearly
unfolding run step on_signal on_take_signal on_see_end on_watch on_call on_once on_await on_proceed
    ℕ_discrete
nearly-Run =
    then_step watch refl
      (then_step take_signal refl (then_step (proceed 0) refl (here waiting) refl) refl) refl

stop_returns_example :
    (3 ≤ 3 + 4 * 2) × ((is_settled 2 nearly ≡ true) ⊎ Enabled two_signals 2 nearly)
stop_returns_example = stop_returns two_signals 2 waiting nearly 3 waiting-Reach nearly-Run
