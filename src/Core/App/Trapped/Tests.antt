-- ===== src/Core/App/Trapped/Tests.antt =====
-- A SIGTERM in a run of the sample service, after a signal that it does not trap.
use micra.Common.{ℕ, true, false, Option, none, some, List, [], ◌∷◌, ◌++◌, map, ℕ_discrete}
use micra.Errors.{Sentinel, Err, sentinel}
use micra.Core.Lifecycle
use micra.Core.Lifecycle.Schedules.{starting}
use micra.Core.Signals
use micra.Core.Signals.{selecting}
use micra.Core.App.{App, new, apply, finish, build_items, trapped}
use micra.Core.App.Trapped.{State, Action, trap_acts, engine_acts, run, start}

abbrev service : App
unfolding new apply finish
service = record (new []) {
  components =
      record { name = "db"; init = some 10; start = 11; stop = 12 }
      ∷ record { name = "http"; init = none; start = 21; stop = 22 }
      ∷ [];
  names = "db" ∷ "http" ∷ [];
}

abbrev late : Err
late = sentinel Sentinel.timeout

-- Trap has returned, and Run calls the engine.
abbrev begun : State
begun = record {
  trap = record {
    registered = true;
    buffered = false;
    received = false;
    ended = none;
    watcher = Signals.selecting;
    once = Signals.fresh;
    callers = λ (i : ℕ). Signals.idle;
  };
  engine = Lifecycle.initial;
}

abbrev until_waiting : List Action
until_waiting = map engine_acts starting ++ trap_acts (Signals.signal 10) ∷ []

abbrev state_or : Option State → State → State
state_or none s = s
state_or (some t) s = t

abbrev waiting : State
unfolding run trapped new apply finish build_items Lifecycle.initial Lifecycle.step Signals.step
    ℕ_discrete Signals.on_signal
waiting = state_or (run service late until_waiting begun) begun
