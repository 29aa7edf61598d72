-- ===== src/Core.antt =====
-- core: the App, its components and their lifecycle, and its helpers for loggers and signals.
pub mod Lifecycle
pub mod Logger
pub mod Level
pub mod Detach
pub mod Signals
pub mod App
