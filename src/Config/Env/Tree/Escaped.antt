-- ===== src/Config/Env/Tree/Escaped.antt =====
-- A whole file written with the escape `$$`, and `expand` of proxy/src/config/env.rs on it.
use den_browser.Prelude.{ℕ, ◌+◌, ◌≡◌, refl, ap, ◌∙◌, List, [], Text, contains, list_eq, nat_eq}
use den_browser.Prelude.Result.{ok}
use den_browser.Config.Env.{Lookup}
use den_browser.Config.Env.Escape.{escape}
use den_browser.Config.Env.Escape.Passes.{expand_str-escape}
use den_browser.Config.Env.Tree.{
  Value, string, array, table, plain, Items, nil, cons, Table, end, entry, section_path, item_path,
  key_path, expand_string, expand_value, expand_items, expand_table, expand_sections, expand,
  reported,
}
use den_browser.Config.Env.Tree.Walk.{fill, fill_items, fill_table, fill_all}

-- Each string with its escapes, whatever its path.
abbrev pub escaped : Text → Text → Text
escaped path s = escape s

module _ {P : Type 0} (lookup : Lookup) (secrets : List Text) where
  expand_string-escape :
      (s path : Text) (errors : List Text)
      → expand_string {P = P} lookup secrets (escape s) path errors ≡ (string s, errors)
  unfolding expand_string
  expand_string-escape s path errors =
      rw (expand_str-escape lookup (contains path secrets) s, expand_string) refl

  mutual
    unfolding expand_value fill

    expand_value-escaped :
        (v : Value P) (path : Text) (errors : List Text)
        → expand_value lookup secrets (fill escaped v path) path errors ≡ (v, errors)
    expand_value-escaped (string s) path errors = expand_string-escape s path errors
    expand_value-escaped (array items) path errors =
        ap (λ r. (array r.0, r.1)) (expand_items-escaped items path 0 errors)
    expand_value-escaped (table entries) path errors =
        ap (λ r. (table r.0, r.1)) (expand_table-escaped entries path errors)
    expand_value-escaped (plain p) path errors = refl

    expand_items-escaped :
        (items : Items P) (path : Text) (i : ℕ) (errors : List Text)
        → expand_items lookup secrets (fill_items escaped items path i) path i errors
          ≡ (items, errors)
    expand_items-escaped nil path i errors = refl
    expand_items-escaped (cons item items) path i errors =
        let tail = fill_items escaped items path (i + 1) in
        ap
          (λ r. (
            cons r.0 (expand_items lookup secrets tail path (i + 1) r.1).0,
            (expand_items lookup secrets tail path (i + 1) r.1).1,
          ))
          (expand_value-escaped item (item_path path i) errors)
        ∙ ap (λ r. (cons item r.0, r.1)) (expand_items-escaped items path (i + 1) errors)

    expand_table-escaped :
        (entries : Table P) (path : Text) (errors : List Text)
        → expand_table lookup secrets (fill_table escaped entries path) path errors
          ≡ (entries, errors)
    expand_table-escaped end path errors = refl
    expand_table-escaped (entry key item entries) path errors =
        let tail = fill_table escaped entries path in
        ap
          (λ r. (
            entry key r.0 (expand_table lookup secrets tail path r.1).0,
            (expand_table lookup secrets tail path r.1).1,
          ))
          (expand_value-escaped item (key_path path key) errors)
        ∙ ap (λ r. (entry key item r.0, r.1)) (expand_table-escaped entries path errors)

  expand_sections-escaped :
      (entries : Table P) (errors : List Text)
      → expand_sections lookup secrets (fill_all escaped entries) errors ≡ (entries, errors)
  unfolding expand_sections fill_all
  expand_sections-escaped end errors = refl
  expand_sections-escaped (entry key item entries) errors =
      let tail = fill_all escaped entries in
      ap
        (λ r. (
          entry key r.0 (expand_sections lookup secrets tail r.1).0,
          (expand_sections lookup secrets tail r.1).1,
        ))
        (expand_value-escaped item (section_path key) errors)
      ∙ ap (λ r. (entry key item r.0, r.1)) (expand_sections-escaped entries errors)

  -- Every file can be written so that `expand` gives it back, whatever the environment: with each `$`
  -- of a run before `{` written twice in every string, and all else as it is.
  pub expand-escaped :
      (sections : Table P) → expand lookup secrets (fill_all escaped sections) ≡ ok sections
  unfolding expand
  expand-escaped sections = ap (λ r. reported r.0 r.1) (expand_sections-escaped sections [])
