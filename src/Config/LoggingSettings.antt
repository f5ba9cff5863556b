-- ===== src/Config/LoggingSettings.antt =====
-- `LoggingConfig::validate` of proxy/src/config.rs.
use den_browser.Prelude.{
  Bool, not, ◌&&◌, List, [], ◌∷◌, Text, text, trim, to_ascii_lowercase, split, all, list_eq, nat_eq,
  contains,
}
use den_browser.Prelude.Result.{Result, guard, ◌>>◌}
use den_browser.Config.{LoggingConfig}
use den_browser.Config.ProxySettings.{is_blank}

-- The errors, with the value that they print.
pub data LoggingError : Type 0 where
  bad_rotation : Text → LoggingError
  no_file_prefix : LoggingError
  empty_level : LoggingError
  bad_level : Text → LoggingError

unfoldable pub log_rotations : List Text
log_rotations = text "minutely" ∷ text "hourly" ∷ text "daily" ∷ text "never" ∷ []

unfoldable pub log_levels : List Text
log_levels =
    text "trace" ∷ text "debug" ∷ text "info" ∷ text "warn" ∷ text "error" ∷ text "off" ∷ []

unfoldable pub file_enabled : LoggingConfig → Bool
unfolding is_blank
file_enabled cfg = not (is_blank cfg.dir)

-- Whether a level names no directive.
unfoldable pub is_silent : Text → Bool
unfolding is_blank all split
is_silent level = all is_blank (split b',' level)

-- Whether a level is a bare word that is no level name.
unfoldable pub is_unknown_word : Text → Bool
is_unknown_word level =
    not (contains b',' level)
    && not (contains b'=' level)
    && not (contains (to_ascii_lowercase level) log_levels)

unfoldable pub validate : LoggingConfig → Result (Unit {0}) LoggingError
unfolding file_enabled is_silent is_unknown_word
validate cfg = do
  guard (contains cfg.rotation log_rotations) (bad_rotation cfg.rotation)
  guard (not (file_enabled cfg && is_blank cfg.file_prefix)) no_file_prefix
  guard (not (is_silent (trim cfg.level))) empty_level
  guard (not (is_unknown_word (trim cfg.level))) (bad_level cfg.level)
