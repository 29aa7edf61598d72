-- ===== src/Examples.antt =====
-- examples: the programs that are built from the library. What the engine returns in a run is an
-- argument, as it is for Core.App; the numbers of a component's functions stand for its methods.
use micra.Common.{ℕ, String, Option, none, some}
use micra.Errors.{Err}
use micra.Core.App.{Component, App}
pub mod Modes
pub mod CacheDemo
mod Tests

-- The exit status of a program whose App returned `err`.
unfoldable pub code : Option Err → ℕ
code none = 0
code (some e) = 1

-- A component by its name and the numbers of its Init, Start and Stop.
abbrev pub component : String → ℕ → Component
component name n = record { name = name; init = some n; start = n; stop = n }

-- A Register whose error ends the program with status 1.
abbrev pub or_exit : App × Option Err → (App → ℕ) → ℕ
or_exit (app, none) go = go app
or_exit (app, some e) go = 1
