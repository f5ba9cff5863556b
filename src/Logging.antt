-- ===== src/Logging.antt =====
-- proxy/src/logging.rs: the subscriber that `init` installs. The filters of tracing_subscriber, the
-- appender and the file system are parameters.
pub mod JsonLines
pub mod Installed
pub mod Verbatim
use den_browser.Prelude.{
  ℕ, ◌≡◌, Bool, true, false, not, ◌&&◌, List, [], ◌∷◌, Option, none, some, Text, text, trim, ltb,
  ◌==◌, list_eq, nat_eq, if◌then◌else◌,
}
use den_browser.Prelude.Result.{Result, ok, err, map_err, ◌>>=◌, ◌>>◌}
use den_browser.Config.{LoggingConfig}
use den_browser.Config.Env.{Lookup}
use den_browser.Config.ProxySettings.{is_blank}
use den_browser.Config.LoggingSettings.{LoggingError, file_enabled, validate}

pub data Rotation : Type 0 where
  minutely hourly daily never : Rotation

-- `tracing::Level`, and `log::LevelFilter`.
pub data TracingLevel : Type 0 where
  error warn info debug trace : TracingLevel

pub data LevelFilter : Type 0 where
  error warn info debug trace off : LevelFilter

-- What the appender is built with; without `max_files` it keeps every file.
pub record Appender : Type 0 where
  pub dir : Text
  pub rotation : Rotation
  pub filename_prefix : Text
  pub max_files : Option ℕ

-- The crates, and the file system at startup; a `Text` error is a message of theirs.
pub record Tracing : Type 1 where
  pub EnvFilter : Type 0
  pub try_new : Text → Result EnvFilter Text
  pub create_dir_all : Text → Result (Unit {0}) Text
  -- `build`, which opens the first file
  pub build : Appender → Result (Unit {0}) Text
  -- `try_init` of the subscriber
  pub try_init : EnvFilter → Result (Unit {0}) Text
  -- `LevelFilter::current()` once the filter is installed
  pub current : EnvFilter → Option TracingLevel

pub data InitError : Type 0 where
  invalid_settings : LoggingError → InitError
  invalid_rust_log : Text → Text → InitError
  invalid_level : Text → Text → InitError
  cannot_create_dir : Text → Text → InitError
  unsupported_rotation : Text → InitError
  cannot_open : Text → Text → InitError
  cannot_install : Text → InitError

unfoldable pub rotation_from_str : Text → Result Rotation InitError
rotation_from_str rotation =
    if rotation == text "minutely"
    then ok minutely
    else if rotation == text "hourly"
    then ok hourly
    else if rotation == text "daily"
    then ok daily
    else if rotation == text "never"
    then ok never
    else err (unsupported_rotation rotation)

unfoldable pub sync_log_bridge_level : Option TracingLevel → LevelFilter
sync_log_bridge_level (some TracingLevel.error) = LevelFilter.error
sync_log_bridge_level (some TracingLevel.warn) = LevelFilter.warn
sync_log_bridge_level (some TracingLevel.info) = LevelFilter.info
sync_log_bridge_level (some TracingLevel.debug) = LevelFilter.debug
sync_log_bridge_level (some TracingLevel.trace) = LevelFilter.trace
sync_log_bridge_level none = LevelFilter.off

-- What the builder is told. `max_log_files` is left unset at 0.
unfoldable pub appender : LoggingConfig → Rotation → Appender
appender cfg rotation = record {
  dir = trim cfg.dir;
  rotation = rotation;
  filename_prefix = trim cfg.file_prefix;
  max_files = if ltb 0 cfg.max_files then some cfg.max_files else none;
}

module _ (lib : Tracing) where
  open lib use {EnvFilter, try_new, create_dir_all, build, try_init, current}

  -- What is installed: the appender of the file layer, and whether there is a stderr layer.
  pub record Subscriber : Type 0 where
    pub filter : EnvFilter
    pub file : Option Appender
    pub stderr : Bool
    pub log_level : LevelFilter

  unfoldable pub level_filter : LoggingConfig → Result EnvFilter InitError
  level_filter cfg = map_err (invalid_level cfg.level) (try_new (trim cfg.level))

  unfoldable pub build_filter : Lookup → LoggingConfig → Result EnvFilter InitError
  unfolding level_filter
  build_filter lookup cfg = elim (lookup (text "RUST_LOG")) [
    | ok var ↦
        if not (is_blank var)
        then map_err (invalid_rust_log var) (try_new var)
        else level_filter cfg
    | err e ↦ level_filter cfg
  ]

  unfoldable pub build_file_writer : LoggingConfig → Result Appender InitError
  unfolding appender
  build_file_writer cfg = do
    map_err (cannot_create_dir (trim cfg.dir)) (create_dir_all (trim cfg.dir))
    rotation ← rotation_from_str cfg.rotation
    map_err (cannot_open (trim cfg.dir)) (build (appender cfg rotation))
    ok (appender cfg rotation)

  unfoldable pub file_layer : LoggingConfig → Result (Option Appender) InitError
  file_layer cfg =
      if file_enabled cfg
      then (do appender ← build_file_writer cfg; ok (some appender))
      else ok none

  unfoldable pub init : Lookup → LoggingConfig → Result Subscriber InitError
  unfolding file_layer
  init lookup cfg = do
    map_err invalid_settings (validate cfg)
    filter ← build_filter lookup cfg
    file ← file_layer cfg
    map_err cannot_install (try_init filter)
    ok (record {
      filter = filter;
      file = file;
      stderr = cfg.stderr;
      log_level = sync_log_bridge_level (current filter);
    })
