-- ===== src/Config/Env/Tree/Walk.antt =====
-- `expand` of proxy/src/config/env.rs against a description of it that has no accumulator.
use den_browser.Prelude.{
  ℕ, ◌+◌, ◌≡◌, ap, ◌∙◌, sym, List, [], ◌∷◌, ◌++◌, Text, text, contains, list_eq, nat_eq, arith, inl,
  inr,
}
use mathlib.Core.List.{append_assoc, append-nil}
use den_browser.Prelude.Result.{ok, err, Result-cases}
use den_browser.Config.Env.{Lookup, expand_str}
use den_browser.Config.Env.Tree.{
  Value, string, array, table, plain, Items, nil, cons, Table, end, entry, section_path, item_path,
  key_path, expand_string, expand_value, expand_items, expand_table, expand_sections, expand,
  reported,
}

module _ (lookup : Lookup) (secrets : List Text) where
  -- What a string becomes, and the error that is reported about it.
  unfoldable pub result : Text → Text → Text
  result path s = elim (expand_str lookup (contains path secrets) s) [ ok t ↦ t | err e ↦ s ]

  unfoldable pub report : Text × Text → List Text
  report (path, s) = elim (expand_str lookup (contains path secrets) s) [
    | ok t ↦ []
    | err e ↦ (path ++ (text ": " ++ e)) ∷ []
  ]

  unfoldable pub reports : List (Text × Text) → List Text
  reports [] = []
  reports (setting ∷ settings) = report setting ++ reports settings

  reports-append :
      (errors : List Text) (xs ys : List (Text × Text))
      → (errors ++ reports xs) ++ reports ys ≡ errors ++ reports (xs ++ ys)
  unfolding reports
  reports-append errors [] ys = ap (λ t. t ++ reports ys) (append-nil errors)
  reports-append errors (x ∷ xs) ys =
      ap (λ t. t ++ reports ys) (sym (append_assoc errors (report x) (reports xs)))
      ∙ reports-append (errors ++ report x) xs ys
      ∙ append_assoc errors (report x) (reports (xs ++ ys))

module _ {P : Type 0} where
  -- The strings below a value, each with its path, in the order of the tables.
  unfoldable mutual
    pub strings : Value P → Text → List (Text × Text)
    strings (string s) path = (path, s) ∷ []
    strings (array items) path = item_strings items path 0
    strings (table entries) path = table_strings entries path
    strings (plain p) path = []

    pub item_strings : Items P → Text → ℕ → List (Text × Text)
    item_strings nil path i = []
    item_strings (cons item items) path i =
        strings item (item_path path i) ++ item_strings items path (i + 1)

    pub table_strings : Table P → Text → List (Text × Text)
    table_strings end path = []
    table_strings (entry key item entries) path =
        strings item (key_path path key) ++ table_strings entries path

  unfoldable pub all_strings : Table P → List (Text × Text)
  unfolding strings
  all_strings end = []
  all_strings (entry key item entries) = strings item (section_path key) ++ all_strings entries

  -- A value with each string replaced, by its path and what it was.
  unfoldable mutual
    pub fill : (Text → Text → Text) → Value P → Text → Value P
    fill f (string s) path = string (f path s)
    fill f (array items) path = array (fill_items f items path 0)
    fill f (table entries) path = table (fill_table f entries path)
    fill f (plain p) path = plain p

    pub fill_items : (Text → Text → Text) → Items P → Text → ℕ → Items P
    fill_items f nil path i = nil
    fill_items f (cons item items) path i =
        cons (fill f item (item_path path i)) (fill_items f items path (i + 1))

    pub fill_table : (Text → Text → Text) → Table P → Text → Table P
    fill_table f end path = end
    fill_table f (entry key item entries) path =
        entry key (fill f item (key_path path key)) (fill_table f entries path)

  unfoldable pub fill_all : (Text → Text → Text) → Table P → Table P
  unfolding fill
  fill_all f end = end
  fill_all f (entry key item entries) =
      entry key (fill f item (section_path key)) (fill_all f entries)

module _ {P : Type 0} (lookup : Lookup) (secrets : List Text) where
  expand_string-eq :
      (s path : Text) (errors : List Text)
      → expand_string {P = P} lookup secrets s path errors
        ≡ (string (result lookup secrets path s), errors ++ reports lookup secrets ((path, s) ∷ []))
  unfolding expand_string result report reports
  expand_string-eq s path errors =
      elim (Result-cases (expand_str lookup (contains path secrets) s)) [
        | inl (t, done) ↦ ground (arith, done, append-nil errors)
        | inr (e, failed) ↦ ground (arith, failed)
      ]

  mutual
    unfolding expand_value strings fill reports

    expand_value-eq :
        (v : Value P) (path : Text) (errors : List Text)
        → expand_value lookup secrets v path errors
          ≡ (fill (result lookup secrets) v path, errors ++ reports lookup secrets (strings v path))
    expand_value-eq (string s) path errors = expand_string-eq s path errors
    expand_value-eq (array items) path errors =
        ap (λ r. (array r.0, r.1)) (expand_items-eq items path 0 errors)
    expand_value-eq (table entries) path errors =
        ap (λ r. (table r.0, r.1)) (expand_table-eq entries path errors)
    expand_value-eq (plain p) path errors = ap (λ e. (plain p, e)) (sym (append-nil errors))

    expand_items-eq :
        (items : Items P) (path : Text) (i : ℕ) (errors : List Text)
        → expand_items lookup secrets items path i errors ≡ (
          fill_items (result lookup secrets) items path i,
          errors ++ reports lookup secrets (item_strings items path i),
        )
    expand_items-eq nil path i errors = ap (λ e. (nil, e)) (sym (append-nil errors))
    expand_items-eq (cons item items) path i errors =
        let here = strings item (item_path path i) in
        let head = fill (result lookup secrets) item (item_path path i) in
        let later = item_strings items path (i + 1) in
        let tail = fill_items (result lookup secrets) items path (i + 1) in
        ap
          (λ r. (
            cons r.0 (expand_items lookup secrets items path (i + 1) r.1).0,
            (expand_items lookup secrets items path (i + 1) r.1).1,
          ))
          (expand_value-eq item (item_path path i) errors)
        ∙ ap (λ r. (cons head r.0, r.1))
            (expand_items-eq items path (i + 1) (errors ++ reports lookup secrets here))
        ∙ ap (λ e. (cons head tail, e)) (reports-append lookup secrets errors here later)

    expand_table-eq :
        (entries : Table P) (path : Text) (errors : List Text)
        → expand_table lookup secrets entries path errors ≡ (
          fill_table (result lookup secrets) entries path,
          errors ++ reports lookup secrets (table_strings entries path),
        )
    expand_table-eq end path errors = ap (λ e. (end, e)) (sym (append-nil errors))
    expand_table-eq (entry key item entries) path errors =
        let here = strings item (key_path path key) in
        let head = fill (result lookup secrets) item (key_path path key) in
        let later = table_strings entries path in
        let tail = fill_table (result lookup secrets) entries path in
        ap
          (λ r. (
            entry key r.0 (expand_table lookup secrets entries path r.1).0,
            (expand_table lookup secrets entries path r.1).1,
          ))
          (expand_value-eq item (key_path path key) errors)
        ∙ ap (λ r. (entry key head r.0, r.1))
            (expand_table-eq entries path (errors ++ reports lookup secrets here))
        ∙ ap (λ e. (entry key head tail, e)) (reports-append lookup secrets errors here later)

  expand_sections-eq :
      (entries : Table P) (errors : List Text)
      → expand_sections lookup secrets entries errors ≡ (
        fill_all (result lookup secrets) entries,
        errors ++ reports lookup secrets (all_strings entries),
      )
  unfolding expand_sections all_strings fill_all reports
  expand_sections-eq end errors = ap (λ e. (end, e)) (sym (append-nil errors))
  expand_sections-eq (entry key item entries) errors =
      let here = strings item (section_path key) in
      let head = fill (result lookup secrets) item (section_path key) in
      let later = all_strings entries in
      let tail = fill_all (result lookup secrets) entries in
      ap
        (λ r. (
          entry key r.0 (expand_sections lookup secrets entries r.1).0,
          (expand_sections lookup secrets entries r.1).1,
        ))
        (expand_value-eq item (section_path key) errors)
      ∙ ap (λ r. (entry key head r.0, r.1))
          (expand_sections-eq entries (errors ++ reports lookup secrets here))
      ∙ ap (λ e. (entry key head tail, e)) (reports-append lookup secrets errors here later)

  -- `expand` returns the file with every string replaced by its expansion, and all else as it was,
  -- if every string expands; otherwise it returns the errors of all strings that do not, in the
  -- order of the tables, each with the path of its setting.
  pub expand-reported :
      (sections : Table P)
      → expand lookup secrets sections
        ≡ reported
            (fill_all (result lookup secrets) sections)
            (reports lookup secrets (all_strings sections))
  unfolding expand
  expand-reported sections = ap (λ r. reported r.0 r.1) (expand_sections-eq sections [])
