-- ===== src/Errors.antt =====
-- Go's `error` values, as the repository builds and inspects them: package-level sentinels,
-- fmt.Errorf with and without %w, errors.Join and errors.Is.
-- A result of type `error` is an `Option Err`, with nil as `none`.
use Prim.Native.Nat.{ℕ}
use micra.Common.{String, Bool, true, false, ◌||◌, Option, none, some, List, [], ◌∷◌}
pub mod Laws

-- The variables that errors.Is compares with. (`timeout` is context.DeadlineExceeded.)
pub data Sentinel : Type 0 where
  canceled timeout stop_timeout already_started duplicate : Sentinel
  redis_nil server_stopped server_closed : Sentinel

abbrev pub same : Sentinel → Sentinel → Bool
same canceled canceled = true
same timeout timeout = true
same stop_timeout stop_timeout = true
same already_started already_started = true
same duplicate duplicate = true
same redis_nil redis_nil = true
same server_stopped server_stopped = true
same server_closed server_closed = true
same _ _ = false

-- `external n` is an error of other code that wraps nothing. `formatted` is errors.New or
-- fmt.Errorf without %w, `wrapped` is fmt.Errorf with %w: the format, its other arguments, and the
-- cause. `joined` is any error with `Unwrap() []error`.
mutual
  pub data Err : Type 0 where
    sentinel : Sentinel → Err
    external : ℕ → Err
    formatted : String → List String → Err
    wrapped : String → List String → Err → Err
    joined : Errs → Err

  pub data Errs : Type 0 where
    nil : Errs
    cons : Err → Errs → Errs

abbrev pub members : Errs → List Err
members nil = []
members (cons e es) = e ∷ members es

abbrev pub errs_of : List Err → Errs
errs_of [] = nil
errs_of (e ∷ es) = cons e (errs_of es)

-- errors.Is
unfoldable mutual
  pub is : Sentinel → Err → Bool
  is s (sentinel t) = same s t
  is s (external n) = false
  is s (formatted f args) = false
  is s (wrapped f args e) = is s e
  is s (joined es) = is_any s es

  pub is_any : Sentinel → Errs → Bool
  is_any s nil = false
  is_any s (cons e es) = is s e || is_any s es

-- errors.Join of values that are not nil
unfoldable pub join : List Err → Option Err
join [] = none
join (e ∷ es) = some (joined (cons e (errs_of es)))

-- errors.Is on a value that may be nil
abbrev pub is? : Sentinel → Option Err → Bool
is? s none = false
is? s (some e) = is s e
