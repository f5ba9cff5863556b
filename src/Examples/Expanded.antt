-- ===== src/Examples/Expanded.antt =====
-- Settings with references, for proxy/src/config/env.rs.
use den_browser.Prelude.{
  [], some, arith, ◌≡◌, refl, true, false, ◌++◌, Text, text, ◌==◌, list_eq, list_beq, nat_eq,
  if◌then◌else◌,
}
use den_browser.Prelude.Result.{ok, err}
use den_browser.Config.Env.{
  Lookup, not_present, expand_str, expand_loop, unterminated, is_not_set, dollars, split_at,
  is_valid_name, is_padding, starts_padded, ends_padded, var,
}
use den_browser.Config.Env.Expansion.{expand_loop-eq-expand_str}
use den_browser.Config.Env.Escape.{escape}
use den_browser.Config.Env.Tree.Escaped.{escaped, expand-escaped}
use den_browser.Config.Env.Substitution.{prepend, with_reference, expand_str-reference}
use den_browser.Config.Env.Errors.{
  IsExplained, IsWithheld, expand_str-IsExplained, expand_str-IsWithheld,
}
use den_browser.Prelude.{contains, join_with}
use den_browser.Config.Env.Tree.{
  key_path, section_path, Table, end, entry, table, string, plain, expand, reported,
}
use den_browser.Config.Env.Tree.Walk.{all_strings, fill_all, result, reports, expand-reported}

abbrev environment : Lookup
environment name = if name == text "HOST" then ok (text "backend") else err not_present

abbrev setting : Text
setting = text "https://${HOST}/"

expand_loop-eq-expand_str_example :
    expand_loop environment false 20 [] setting ≡ some (expand_str environment false setting)
unfolding text
expand_loop-eq-expand_str_example =
    expand_loop-eq-expand_str environment false 20 setting (omega arith)

missing_port :
    expand_str environment false (text "${PORT}") ≡ err (var false (text "PORT") ++ is_not_set)
unfolding expand_str text var list_beq
missing_port = refl

expand_str-IsExplained_example :
    IsExplained environment false (text "${PORT}") (var false (text "PORT") ++ is_not_set)
expand_str-IsExplained_example =
    expand_str-IsExplained environment false (text "${PORT}")
      (var false (text "PORT") ++ is_not_set) missing_port

unclosed : expand_str environment true (text "a${b") ≡ err unterminated
unfolding expand_str text
unclosed = refl

expand_str-IsWithheld_example : IsWithheld unterminated
expand_str-IsWithheld_example =
    expand_str-IsWithheld environment (text "a${b") unterminated unclosed

expand_str-reference_example :
    expand_str environment false (with_reference (text "https://") (text "HOST") (text ":$${X}"))
    ≡ prepend (text "https://" ++ text "backend") (expand_str environment false (text ":$${X}"))
unfolding text split_at is_valid_name is_padding starts_padded ends_padded list_beq
expand_str-reference_example =
    expand_str-reference environment false (text "https://") (text "HOST") (text "backend")
      (text ":$${X}") refl refl refl refl refl

abbrev file : Table (Unit {0})
file =
    entry (text "proxy")
      (table (
        entry (text "listen") (string (text "${MISSING}"))
          (entry (text "upstream") (string setting) (entry (text "port") (plain tt) end))))
      end

expand-reported_example :
    expand environment [] file
    ≡ reported (fill_all (result environment []) file) (reports environment [] (all_strings file))
expand-reported_example = expand-reported environment [] file

expand-escaped_example : expand environment [] (fill_all escaped file) ≡ ok file
expand-escaped_example = expand-escaped environment [] file

file_errors :
    expand environment [] file
    ≡ err (text "[proxy].listen: environment variable `MISSING` is not set")
unfolding expand text expand_str list_beq is_not_set contains join_with key_path section_path
file_errors = refl

escape_open : escape (text "a$b$${x}") ≡ text "a$b$$$${x}"
unfolding escape text dollars
escape_open = refl

one_variable : Lookup
one_variable name = if name == text "X" then ok (text "val") else err not_present

expand_cases :
    (expand_str one_variable false (text "$${X}") ≡ ok (text "${X}"))
    × (expand_str one_variable false (text "$$${X}") ≡ ok (text "$val"))
    × (expand_str one_variable false (text "pa$$word$") ≡ ok (text "pa$$word$"))
    × (expand_str one_variable false (text "${MISSING}")
        ≡ err (text "environment variable `MISSING` is not set"))
unfolding expand_str one_variable text is_not_set list_beq
expand_cases = (refl, refl, refl, refl)
