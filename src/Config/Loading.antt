-- ===== src/Config/Loading.antt =====
-- `Config::load` of proxy/src/config.rs. The parser of the toml crate and the file system are
-- parameters.
use den_browser.Prelude.{List, [], ◌∷◌, Option, Text, text, ◌++◌}
use den_browser.Prelude.Result.{Result, map_err, ok_or, ◌>>=◌}
use den_browser.Config.{Config}
use den_browser.Config.Env.{Lookup}
use den_browser.Config.Env.Tree.{Table, expand}

pub record Toml : Type 1 where
  -- the values that hold no string
  pub Plain : Type 0
  -- `toml::from_str::<Config>`, `toml::from_str::<Table>`, and `try_into` a `Config`
  pub parse_config : Text → Result Config Text
  pub parse_table : Text → Result (Table Plain) Text
  pub try_into : Table Plain → Option Config

unfoldable pub secret_settings : List Text
secret_settings = text "[proxy].tls_key_passphrase" ∷ []

unfoldable pub not_after_expansion : Text
not_after_expansion =
    text "the config parsed before environment variables were expanded but not after; "
    ++ text "this is a bug in the proxy"

module _ (toml : Toml) where
  open toml use {parse_config, parse_table, try_into}

  unfoldable pub parse : Text → Lookup → Result Config Text
  parse content lookup = do
    typed ← parse_config content
    table ← parse_table content
    expanded ← expand lookup secret_settings table
    ok_or (try_into expanded) not_after_expansion

  unfoldable pub load : (Text → Result Text Text) → Lookup → Text → Result Config Text
  unfolding parse
  load read_to_string lookup path = do
    content ←
        map_err (λ e. text "cannot read config " ++ (path ++ (text ": " ++ e)))
          (read_to_string path)
    map_err (λ e. text "cannot parse config " ++ (path ++ (text ": " ++ e))) (parse content lookup)
