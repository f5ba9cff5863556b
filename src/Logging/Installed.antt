-- ===== src/Logging/Installed.antt =====
-- What holds once `init` (proxy/src/logging.rs) has installed a subscriber.
use den_browser.Prelude.{
  ◌≡◌, refl, subst, true, false, Option, none, some, Text, text, trim, ltb, ◌==◌, list_eq, nat_eq,
  contains, arith, beq_comm, Bool-cases, ◌⊎◌, inl, inr, ◌↔◌, ◌<◌,
}
use den_browser.Prelude.Result.{ok, err, map_err, map_err-eq-ok, Result-cases}
use den_browser.Config.{LoggingConfig}
use den_browser.Config.Env.{Lookup, VarError}
use den_browser.Config.ProxySettings.{is_blank}
use den_browser.Config.LoggingSettings.{
  file_enabled, validate, log_rotations, is_silent, is_unknown_word,
}
use den_browser.Logging.{
  invalid_rust_log, appender, Rotation, minutely, hourly, daily, never, Appender, Tracing,
  Subscriber, rotation_from_str, level_filter, build_filter, build_file_writer, file_layer, init,
}

-- `LOG_ROTATIONS` and `rotation_from_str` agree: `validate` accepts exactly the words that have a
-- rotation.
pub rotation_from_str_iff :
    (word : Text)
    → (contains word log_rotations ≡ true) ↔ ((r : Rotation) × (rotation_from_str word ≡ ok r))
unfolding rotation_from_str log_rotations contains
rotation_from_str_iff word =
    let m_ = beq_comm word (text "minutely") in
    let h_ = beq_comm word (text "hourly") in
    let d_ = beq_comm word (text "daily") in
    let n_ = beq_comm word (text "never") in
    (
      (λ h. elim (Bool-cases (word == text "minutely")) [
        | inl e ↦ (minutely, ground (arith, e))
        | inr m ↦ elim (Bool-cases (word == text "hourly")) [
          | inl e ↦ (hourly, ground (arith, m, e))
          | inr o ↦ elim (Bool-cases (word == text "daily")) [
            | inl e ↦ (daily, ground (arith, m, o, e))
            | inr d ↦ (never, ground (arith, m, o, d, h, m_, h_, d_, n_))
          ]
        ]
      ]),
      (λ h. ground (arith, h.1, m_, h_, d_, n_)),
    )

pub record IsAccepted (cfg : LoggingConfig) : Type 0 where
  pub rotation : contains cfg.rotation log_rotations ≡ true
  pub prefix : file_enabled cfg ≡ true → is_blank cfg.file_prefix ≡ false
  pub audible : is_silent (trim cfg.level) ≡ false
  pub known : is_unknown_word (trim cfg.level) ≡ false

pub validate-IsAccepted : (cfg : LoggingConfig) → validate cfg ≡ ok tt → IsAccepted cfg
unfolding validate
validate-IsAccepted cfg h = ground (arith, h)

module _ (lib : Tracing) where
  open lib use {EnvFilter, try_new, create_dir_all, build, try_init}

  -- RUST_LOG cannot be read, or it is blank.
  abbrev pub IsUnset : Lookup → Type 0
  IsUnset lookup =
      ((e : VarError) × (lookup (text "RUST_LOG") ≡ err e))
      ⊎ ((var : Text) × (lookup (text "RUST_LOG") ≡ ok var) × (is_blank var ≡ true))

  -- Where the filter comes from: RUST_LOG, or the level of the file, which then has a directive and,
  -- if it is a bare word, is the name of a level.
  abbrev pub IsSource : Lookup → LoggingConfig → Text → Type 0
  IsSource lookup cfg source =
      ((lookup (text "RUST_LOG") ≡ ok source) × (is_blank source ≡ false))
      ⊎ (IsUnset lookup
          × (source ≡ trim cfg.level)
          × (is_silent source ≡ false)
          × (is_unknown_word source ≡ false))

  -- An appender that has opened its first file as the section says, with a limit above zero.
  pub record IsOpened (cfg : LoggingConfig) (a : Appender) : Type 0 where
    pub dir : a.dir ≡ trim cfg.dir
    pub prefix : a.filename_prefix ≡ trim cfg.file_prefix
    pub named : is_blank cfg.file_prefix ≡ false
    pub rotation : rotation_from_str cfg.rotation ≡ ok a.rotation
    pub opened : build a ≡ ok tt
    pub limit :
        ((cfg.max_files ≡ 0) × (a.max_files ≡ none))
        ⊎ ((0 < cfg.max_files) × (a.max_files ≡ some cfg.max_files))

  pub record IsInstalled (lookup : Lookup) (cfg : LoggingConfig) (s : Subscriber lib) : Type 0 where
    pub source : (t : Text) × IsSource lookup cfg t × (try_new t ≡ ok s.filter)
    pub file :
        ((file_enabled cfg ≡ false) × (s.file ≡ none))
        ⊎ ((a : Appender) × (s.file ≡ some a) × (file_enabled cfg ≡ true) × IsOpened cfg a)
    pub mirrored : s.stderr ≡ cfg.stderr

  level_filter-IsSource :
      (lookup : Lookup) (cfg : LoggingConfig) (f : EnvFilter)
      → IsUnset lookup
      → IsAccepted cfg
      → level_filter lib cfg ≡ ok f
      → (t : Text) × IsSource lookup cfg t × (try_new t ≡ ok f)
  unfolding level_filter
  level_filter-IsSource lookup cfg f idle acc h =
      (trim cfg.level, inr (idle, refl, acc.audible, acc.known), map_err-eq-ok _ _ h)

  build_filter-IsSource :
      (lookup : Lookup) (cfg : LoggingConfig) (f : EnvFilter)
      → IsAccepted cfg
      → build_filter lib lookup cfg ≡ ok f
      → (t : Text) × IsSource lookup cfg t × (try_new t ≡ ok f)
  unfolding build_filter
  build_filter-IsSource lookup cfg f acc h = elim (Result-cases (lookup (text "RUST_LOG"))) [
    | inr (e, unset) ↦
        let used : level_filter lib cfg ≡ ok f = ground (arith, h, unset) in
        level_filter-IsSource lookup cfg f (inl (e, unset)) acc used
    | inl (var, found) ↦ elim (Bool-cases (is_blank var)) [
      | inl blank ↦
          let used : level_filter lib cfg ≡ ok f = ground (arith, h, found, blank) in
          level_filter-IsSource lookup cfg f (inr (var, found, blank)) acc used
      | inr named ↦
          let used : map_err (invalid_rust_log var) (try_new var) ≡ ok f =
            ground (arith, h, found, named) in
          (var, inl (found, named), map_err-eq-ok _ _ used)
    ]
  ]

  max_files-cases :
      (cfg : LoggingConfig) (r : Rotation)
      → ((cfg.max_files ≡ 0) × ((appender cfg r).max_files ≡ none))
        ⊎ ((0 < cfg.max_files) × ((appender cfg r).max_files ≡ some cfg.max_files))
  unfolding appender
  max_files-cases cfg r = elim (Bool-cases (ltb 0 cfg.max_files)) [
    | inl some_limit ↦ inr (ground (arith, some_limit), ground (arith, some_limit))
    | inr no_limit ↦ inl (ground (arith, no_limit), ground (arith, no_limit))
  ]

  appender-IsOpened :
      (cfg : LoggingConfig) (r : Rotation)
      → is_blank cfg.file_prefix ≡ false
      → rotation_from_str cfg.rotation ≡ ok r
      → build (appender cfg r) ≡ ok tt
      → IsOpened cfg (appender cfg r)
  unfolding appender
  appender-IsOpened cfg r named rotates opens = record {
    dir = refl;
    prefix = refl;
    named = named;
    rotation = rotates;
    opened = opens;
    limit = max_files-cases cfg r;
  }

  build_file_writer-IsOpened :
      (cfg : LoggingConfig) (a : Appender)
      → is_blank cfg.file_prefix ≡ false
      → build_file_writer lib cfg ≡ ok a
      → IsOpened cfg a
  unfolding build_file_writer
  build_file_writer-IsOpened cfg a named h = elim (Result-cases (create_dir_all (trim cfg.dir))) [
    | inr (e, failed) ↦ absurd (ground (arith, h, failed))
    | inl (u, made) ↦ elim (Result-cases (rotation_from_str cfg.rotation)) [
      | inr (e, failed) ↦ absurd (ground (arith, h, made, failed))
      | inl (r, rotates) ↦ elim (Result-cases (build (appender cfg r))) [
        | inr (e, failed) ↦ absurd (ground (arith, h, made, rotates, failed))
        | inl (v, opens) ↦
            let same : appender cfg r ≡ a = ground (arith, h, made, rotates, opens) in
            subst (IsOpened cfg) same (appender-IsOpened cfg r named rotates opens)
      ]
    ]
  ]

  -- What the file layer is.
  abbrev IsLayer : LoggingConfig → Option Appender → Type 0
  IsLayer cfg file =
      ((file_enabled cfg ≡ false) × (file ≡ none))
      ⊎ ((a : Appender) × (file ≡ some a) × (file_enabled cfg ≡ true) × IsOpened cfg a)

  file_layer-IsLayer :
      (cfg : LoggingConfig) (file : Option Appender)
      → IsAccepted cfg
      → file_layer lib cfg ≡ ok file
      → IsLayer cfg file
  unfolding file_layer
  file_layer-IsLayer cfg file acc h = elim (Bool-cases (file_enabled cfg)) [
    | inr off ↦ inl (off, ground (arith, h, off))
    | inl on ↦ elim (Result-cases (build_file_writer lib cfg)) [
      | inr (e, failed) ↦ absurd (ground (arith, h, on, failed))
      | inl (a, built) ↦ inr (
        a,
        ground (arith, h, on, built),
        on,
        build_file_writer-IsOpened cfg a (acc.prefix on) built,
      )
    ]
  ]

  -- Once `init` returns, the filter is the one of RUST_LOG, if that can be read and is not blank, and
  -- otherwise of the level in the file, which then names a directive and, if it is a bare word, a
  -- level; a file is written exactly if a directory is named, it is open, its prefix is not blank,
  -- its rotation is the one configured, and a limit on the number of files is above zero.
  pub init-IsInstalled :
      (lookup : Lookup) (cfg : LoggingConfig) (s : Subscriber lib)
      → init lib lookup cfg ≡ ok s
      → IsInstalled lookup cfg s
  unfolding init
  init-IsInstalled lookup cfg s h = elim (Result-cases (validate cfg)) [
    | inr (e, failed) ↦ absurd (ground (arith, h, failed))
    | inl (u, valid) ↦ elim (Result-cases (build_filter lib lookup cfg)) [
      | inr (e, failed) ↦ absurd (ground (arith, h, valid, failed))
      | inl (filter, filtered) ↦ elim (Result-cases (file_layer lib cfg)) [
        | inr (e, failed) ↦ absurd (ground (arith, h, valid, filtered, failed))
        | inl (file, layered) ↦ elim (Result-cases (try_init filter)) [
          | inr (e, failed) ↦ absurd (ground (arith, h, valid, filtered, layered, failed))
          | inl (v, started) ↦
              let acc = validate-IsAccepted cfg valid in
              let same : s.filter ≡ filter = ground (arith, h, valid, filtered, layered, started) in
              let kept : s.file ≡ file = ground (arith, h, valid, filtered, layered, started) in
              record {
                source = rw same (build_filter-IsSource lookup cfg filter acc filtered);
                file = rw kept (file_layer-IsLayer cfg file acc layered);
                mirrored = ground (arith, h, valid, filtered, layered, started);
              }
        ]
      ]
    ]
  ]
