-- ===== src/Core/Detach/Tests.antt =====
-- A detached task that panics after its request's context has ended.
use micra.Common.{ℕ, Bool, true, false, some, [], ◌∷◌, ◌≡◌, refl, if◌then◌else◌, ◌==◌}
use micra.Core.Logger.{backed, flag, logger_from, with_attrs}
use micra.Core.Detach.{
  Context, background, with_cancel, with_deadline, with_logger, with_value, is_done, deadline,
  logger_value, value, detached_context, detached_logger,
}

abbrev request : Context
request = with_value (with_logger (with_deadline (with_cancel background 1) 50 2) (backed 0 [])) 7 9

abbrev all_ended_but : ℕ → ℕ → Bool
all_ended_but own id = if id == own then false else true

request_isolated :
    (is_done (all_ended_but 3) request ≡ true)
    × (is_done (all_ended_but 3) (detached_context 40 3 request) ≡ false)
    × (deadline request ≡ some 50)
    × (deadline (detached_context 40 3 request) ≡ some 10_000_000_040)
    × (logger_value (detached_context 40 3 request)
        ≡ some (backed 0 (("detached", flag true) ∷ [])))
    × (value 7 (detached_context 40 3 request) ≡ some 9)
unfolding is_done deadline logger_value value detached_context detached_logger logger_from
    with_attrs
request_isolated = (refl, refl, refl, refl, refl, refl)
