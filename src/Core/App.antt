-- ===== src/Core/App.antt =====
-- core/app.go and core/errors.go: the App, its options, Register, Run and RunOnce.
-- Each method holds the App's mutex, so a call is one step from one App to the next.
use micra.Common.{
  ℕ, String, Bool, true, false, not, ◌||◌, Option, none, some, List, [], ◌∷◌, ◌++◌, map, str_eq,
  if◌then◌else◌, ℤ, pos,
}
use micra.Errors.{Sentinel, Err, sentinel, wrapped, joined, members, is, join}
use micra.Core.Lifecycle.{Item, Outcome, returns, panics}
use micra.Core.Logger.{Logger, noop, Attrs, text, with_attrs}
pub mod Registry
pub mod Results
pub mod Trapped
pub mod OneShot
pub mod Clean
mod Tests

-- A Component, and an Initializer where `init` is not `none`. Functions are known by number.
pub record Component : Type 0 where
  pub name : String
  pub init : Option ℕ
  pub start : ℕ
  pub stop : ℕ

pub record AppConfig : Type 0 where
  pub name : String
  pub version : String
  pub raw_logger : Option Logger
  pub logger : Logger
  pub stop_timeout : ℤ
  pub signals : List ℕ
  pub no_signals : Bool

pub record App : Type 0 where
  pub cfg : AppConfig
  pub components : List Component
  pub names : List String  -- the keys of the map, in the order of insertion
  pub started : Bool

abbrev pub AppOption : Type 0
AppOption = AppConfig → AppConfig

unfoldable pub with_name : String → AppOption
with_name name c = record c { name = name }

unfoldable pub with_version : String → AppOption
with_version version c = record c { version = version }

unfoldable pub with_logger : Option Logger → AppOption
with_logger l c = record c { raw_logger = l }

unfoldable pub with_stop_timeout : ℤ → AppOption
with_stop_timeout d c = record c { stop_timeout = d }

-- An empty list changes nothing.
unfoldable pub with_signals : List ℕ → AppOption
with_signals [] c = c
with_signals (sig ∷ sigs) c = record c { signals = sig ∷ sigs; no_signals = false }

unfoldable pub without_signals : AppOption
without_signals c = record c { no_signals = true }

-- 30 * time.Second, in nanoseconds
abbrev pub default_stop_timeout : ℤ
default_stop_timeout = pos 30_000_000_000

-- syscall.SIGINT and syscall.SIGTERM
abbrev pub default_signals : List ℕ
default_signals = 2 ∷ 15 ∷ []

unfoldable pub apply : List AppOption → AppConfig → AppConfig
apply [] c = c
apply (o ∷ os) c = apply os (o c)

abbrev pub tag : String → String → Attrs
tag key value = if str_eq value "" then [] else (key, text value) ∷ []

abbrev pub tagged : Logger → Attrs → Logger
tagged l [] = l
tagged l (t ∷ ts) = with_attrs l (t ∷ ts)

abbrev pub raw_or_noop : Option Logger → Logger
raw_or_noop none = noop
raw_or_noop (some l) = l

-- The rest of `New`, after the options were applied.
unfoldable pub finish : AppConfig → App
finish c = record {
  cfg = record c {
    raw_logger = some (raw_or_noop c.raw_logger);
    logger = tagged (raw_or_noop c.raw_logger) (tag "service" c.name ++ tag "version" c.version);
  };
  components = [];
  names = [];
  started = false;
}

unfoldable pub new : List AppOption → App
unfolding apply finish
new options = finish (
    apply options (record {
      name = "";
      version = "";
      raw_logger = none;
      logger = noop;
      stop_timeout = default_stop_timeout;
      signals = default_signals;
      no_signals = false;
    }))

unfoldable pub contains : List String → String → Bool
contains [] k = false
contains (x ∷ xs) k = str_eq x k || contains xs k

unfoldable pub register : Component → App → App × Option Err
unfolding contains
register c a =
    if a.started
    then (a, some (sentinel Sentinel.already_started))
    else if contains a.names c.name
    then (a, some (wrapped "%w: %q" (c.name ∷ []) (sentinel Sentinel.duplicate)))
    else (record a { names = a.names ++ c.name ∷ []; components = a.components ++ c ∷ [] }, none)

unfoldable pub mark_started : App → App × Option Err
mark_started a =
    if a.started
    then (a, some (sentinel Sentinel.already_started))
    else (record a { started = true }, none)

abbrev pub item_of : Component → Item
item_of c = record { name = c.name; init = c.init; start = c.start; stop = c.stop }

unfoldable pub build_items : App → List Item
build_items a = map item_of a.components

-- The members that are not context.Canceled.
unfoldable pub kept : List Err → List Err
kept [] = []
kept (e ∷ es) = if is Sentinel.canceled e then kept es else e ∷ kept es

unfoldable pub without_canceled : Option Err → Option Err
unfolding kept
without_canceled none = none
without_canceled (some (joined es)) = join (kept (members es))
without_canceled (some e) = if is Sentinel.canceled e then none else some e

-- The signals that end the run's context.
unfoldable pub trapped : AppConfig → List ℕ
trapped c = if c.no_signals then [] else c.signals

-- What a call of lifecycle.Run is given: the logger that its context carries, the signals that
-- cancel it, the items and the timeout.
pub record Call : Type 0 where
  pub logger : Logger
  pub signals : List ℕ
  pub items : List Item
  pub stop_timeout : ℤ

abbrev pub call_of : App → List Item → Call
call_of a items = record {
  logger = a.cfg.logger;
  signals = trapped a.cfg;
  items = items;
  stop_timeout = a.cfg.stop_timeout;
}

-- What follows markStarted, when it returned nil.
abbrev pub after_mark : App × Option Err → (App → Option Err) → App × Option Err
after_mark (a, some e) go = (a, some e)
after_mark (a, none) go = (a, go a)

-- `lifecycle` is the result of lifecycle.Run in this execution (module Lifecycle).
unfoldable pub run : (Call → Option Err) → App → App × Option Err
unfolding mark_started build_items trapped without_canceled
run lifecycle a =
    after_mark (mark_started a) λ b. without_canceled (lifecycle (call_of b (build_items b)))

-- The variables that RunOnce's closure writes: `none` while fnDone is false, else fnErr.
abbrev pub Cell : Type 0
Cell = Option (Option Err)

-- The synthetic Start, by how `fn` ends: what it leaves in the cell, whether it calls cancel(), and
-- how it ends itself. A panic of `fn` passes through.
unfoldable pub run_fn : Outcome → Cell × Bool × Outcome
run_fn (returns e) = (some e, true, returns none)
run_fn (panics value stack) = (none, false, panics value stack)

abbrev pub fn_item : ℕ → ℕ → Item
fn_item start stop = record { name = "__runonce_fn__"; init = none; start = start; stop = stop }

-- The end of RunOnce, with lifecycle's error stripped.
unfoldable pub combine : Cell → Option Err → Option Err
combine (some (some captured)) (some lifecycle_err) = join (captured ∷ lifecycle_err ∷ [])
combine (some (some captured)) none = some captured
combine (some none) lifecycle_err = lifecycle_err
combine none lifecycle_err = lifecycle_err

-- `lifecycle` gives lifecycle.Run's result and what it left in the cell. `start` and `stop` are the
-- numbers of the two closures.
unfoldable pub run_once : (Call → Option Err × Cell) → ℕ → ℕ → App → App × Option Err
unfolding mark_started build_items trapped without_canceled combine
run_once lifecycle start stop a = after_mark (mark_started a) λ b.
    let (err, cell) = lifecycle (call_of b (build_items b ++ fn_item start stop ∷ [])) in
    combine cell (without_canceled err)

-- The getters of an App.
abbrev pub name : App → String
name a = a.cfg.name

abbrev pub version : App → String
version a = a.cfg.version

abbrev pub logger : App → Logger
logger a = a.cfg.logger
