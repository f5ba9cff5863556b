-- ===== src/Logging/Verbatim.antt =====
-- Which events `JsonLines` (proxy/src/logging.rs) writes as they are.
use den_browser.Prelude.{
  ◌≡◌, refl, ◌≢◌, false, List, [], ◌∷◌, ◌++◌, none, some, Text, text, ◌==◌, eq_iff, eq_refl,
  list_eq, nat_eq, arith, Bool-cases, Option-cases, inl, inr,
}
use den_browser.Prelude.Result.{ok}
use den_browser.Audit.Record.{AuditRecord, Level}
use den_browser.Logging.JsonLines.{
  Json, Fields, FieldValue, str, debug, i64, u64, bool, f64, SystemRecord, Event, audit_target,
  record_field, new, put, record_str, record_value, visit, wrap, system_record, format_event, emit,
}

module _ (lib : Json) where
  open lib use {F64, Value, of_str, to_string, audit_to_string}

  -- Fields that hold no record, of an event that may not supply one.
  record IsPlain (f : Fields lib) : Type 0 where
    pub other : f.audit ≡ false
    pub empty : f.audit_record ≡ none

  put-IsPlain :
      (f : Fields lib) (name : Text) (value : Value) → IsPlain f → IsPlain (put lib f name value)
  unfolding put
  put-IsPlain f name value p = ground (arith, p.other, p.empty)

  record_str-IsPlain :
      (f : Fields lib) (name value : Text) → IsPlain f → IsPlain (record_str lib f name value)
  unfolding record_str
  record_str-IsPlain f name value p =
      ground (arith, p.other, p.empty, put-IsPlain f name (of_str value) p)

  record_value-IsPlain :
      (f : Fields lib) (name : Text) (value : FieldValue F64)
      → IsPlain f
      → IsPlain (record_value lib f name value)
  unfolding record_value
  record_value-IsPlain f name (str value) p = record_str-IsPlain f name value p
  record_value-IsPlain f name (debug value) p = record_str-IsPlain f name value p
  record_value-IsPlain f name (i64 value) p = put-IsPlain f name _ p
  record_value-IsPlain f name (u64 value) p = put-IsPlain f name _ p
  record_value-IsPlain f name (bool value) p = put-IsPlain f name _ p
  record_value-IsPlain f name (f64 value) p = put-IsPlain f name _ p

  visit-IsPlain :
      (f : Fields lib) (fields : List (Text × FieldValue F64))
      → IsPlain f
      → IsPlain (visit lib f fields)
  unfolding visit
  visit-IsPlain f [] p = p
  visit-IsPlain f ((name, value) ∷ rest) p =
      visit-IsPlain (record_value lib f name value) rest (record_value-IsPlain f name value p)

  -- The line of a record that serde_json has written, of the kind `system`.
  abbrev pub IsWrapped : Text → Type 0
  IsWrapped line =
      (r : SystemRecord Value) × (body : Text) × (r.kind ≡ text "system")
      × (to_string r ≡ some body)
      × (line ≡ body ++ (10 ∷ []))

  wrap-IsWrapped :
      (timestamp line : Text) (e : Event lib) (f : Fields lib)
      → wrap lib timestamp e f ≡ some line
      → IsWrapped line
  unfolding wrap system_record
  wrap-IsWrapped timestamp line e f h =
      let logger : Text = elim f.log_target [ none ↦ e.target | some origin ↦ origin ] in
      let r = system_record lib timestamp e.level logger f.message f.extra in
      elim (Option-cases (to_string r)) [
        | inl failed ↦ absurd (ground (arith, h, failed))
        | inr (body, shown) ↦ (r, body, refl, shown, ground (arith, h, shown))
      ]

  -- Whatever fields an event carries, its line is a `system` record that serde_json wrote, with a
  -- line end, unless its target is that of the audit records.
  pub format_event-IsWrapped :
      (timestamp line : Text) (e : Event lib)
      → e.target ≢ audit_target
      → format_event lib timestamp e ≡ some line
      → IsWrapped line
  unfolding format_event new
  format_event-IsWrapped timestamp line e other h = elim (Bool-cases (e.target == audit_target)) [
    | inl same ↦ absurd (other ((eq_iff e.target audit_target).0 same))
    | inr differs ↦
        let f = visit lib (new lib (e.target == audit_target)) e.fields in
        let plain : IsPlain f =
          visit-IsPlain (new lib (e.target == audit_target)) e.fields
            (record { other = differs; empty = refl }) in
        wrap-IsWrapped timestamp line e f (ground (arith, h, plain.empty))
  ]

  -- A record that serde_json can write is written by `emit` as its JSON, with a line end.
  pub format_event-emit :
      (timestamp body : Text) (level : Level) (r : AuditRecord)
      → audit_to_string r ≡ ok body
      → format_event lib timestamp (emit lib level r) ≡ some (body ++ (10 ∷ []))
  unfolding emit format_event new visit record_value record_str
  format_event-emit timestamp body level r shown =
      ground (arith, shown, eq_refl audit_target, eq_refl record_field)
