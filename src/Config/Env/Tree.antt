-- ===== src/Config/Env/Tree.antt =====
-- The walk of proxy/src/config/env.rs through a parsed TOML file: `expand_value` and `expand`. The
-- values of the toml crate that hold no string are a parameter.
pub mod Walk
pub mod Escaped
use den_browser.Prelude.{
  ℕ, ◌+◌, ◌≡◌, refl, Bool, true, false, List, [], ◌∷◌, ◌++◌, Text, text, join_with, contains,
  list_eq, nat_eq,
}
use den_browser.Prelude.Decimal.{show_ℕ}
use den_browser.Prelude.Result.{Result, ok, err}
use den_browser.Config.Env.{Lookup, expand_str}

-- `toml::Value`; `plain` is an integer, a float, a Boolean or a datetime.
mutual
  pub data Value (P : Type 0) : Type 0 where
    string : Text → Value P
    array : Items P → Value P
    table : Table P → Value P
    plain : P → Value P

  pub data Items (P : Type 0) : Type 0 where
    nil : Items P
    cons : Value P → Items P → Items P

  pub data Table (P : Type 0) : Type 0 where
    end : Table P
    entry : Text → Value P → Table P → Table P

-- The names of settings as errors print them.
unfoldable pub section_path : Text → Text
section_path key = text "[" ++ (key ++ text "]")

unfoldable pub item_path : Text → ℕ → Text
item_path path i = path ++ (text "[" ++ (show_ℕ i ++ text "]"))

unfoldable pub key_path : Text → Text → Text
key_path path key = path ++ (text "." ++ key)

-- The expanded file, or every error joined.
abbrev pub reported {ℓ} : {A : Type ℓ} → A → List Text → Result A Text
reported after [] = ok after
reported after (e ∷ es) = err (join_with (text "; ") (e ∷ es))

module _ {P : Type 0} (lookup : Lookup) (secrets : List Text) where
  -- A string after its expansion, and the errors so far.
  unfoldable pub expand_string : Text → Text → List Text → Value P × List Text
  expand_string s path errors = elim (expand_str lookup (contains path secrets) s) [
    | ok expanded ↦ (string expanded, errors)
    | err e ↦ (string s, errors ++ ((path ++ (text ": " ++ e)) ∷ []))
  ]

  -- Each function returns the value as it is left, and the errors with those pushed.
  unfoldable mutual
    unfolding expand_string

    pub expand_value : Value P → Text → List Text → Value P × List Text
    expand_value (string s) path errors = expand_string s path errors
    expand_value (array items) path errors =
        let (after, failed) = expand_items items path 0 errors in (array after, failed)
    expand_value (table entries) path errors =
        let (after, failed) = expand_table entries path errors in (table after, failed)
    expand_value (plain p) path errors = (plain p, errors)

    pub expand_items : Items P → Text → ℕ → List Text → Items P × List Text
    expand_items nil path i errors = (nil, errors)
    expand_items (cons item items) path i errors =
        let (head, failed) = expand_value item (item_path path i) errors in
        let (tail, all_failed) = expand_items items path (i + 1) failed in
        (cons head tail, all_failed)

    pub expand_table : Table P → Text → List Text → Table P × List Text
    expand_table end path errors = (end, errors)
    expand_table (entry key item entries) path errors =
        let (head, failed) = expand_value item (key_path path key) errors in
        let (tail, all_failed) = expand_table entries path failed in
        (entry key head tail, all_failed)

  -- The sections of the file.
  unfoldable pub expand_sections : Table P → List Text → Table P × List Text
  unfolding expand_value
  expand_sections end errors = (end, errors)
  expand_sections (entry key item entries) errors =
      let (head, failed) = expand_value item (section_path key) errors in
      let (tail, all_failed) = expand_sections entries failed in (entry key head tail, all_failed)

  unfoldable pub expand : Table P → Result (Table P) Text
  unfolding expand_sections
  expand sections = let (after, errors) = expand_sections sections [] in reported after errors
