-- ===== src/Core/Level/Tests.antt =====
-- Texts for levels.
use micra.Common.{[], ◌∷◌, ◌≡◌, refl, none, some, codes, map, same_bytes}
use micra.Core.Logger.{level_debug, level_info, level_warn, level_error}
use micra.Core.Level.{
  is_space, lower, to_lower, trim_left, trim_right, trim_space, level_of, parse_level,
}

levels_read :
    map
      (λ s. parse_level (codes s))
      ("debug" ∷ "DEBUG" ∷ " Info " ∷ "" ∷ "warn" ∷ "Warning" ∷ "error" ∷ "trace" ∷ [])
    ≡ (level_debug, none)
      ∷ (level_debug, none)
      ∷ (level_info, none)
      ∷ (level_info, none)
      ∷ (level_warn, none)
      ∷ (level_warn, none)
      ∷ (level_error, none)
      ∷ (level_info, some (codes "trace"))
      ∷ []
unfolding parse_level level_of same_bytes trim_space trim_left trim_right to_lower lower is_space
levels_read = refl
