-- ===== src/Logging/JsonLines.antt =====
-- `JsonLines` of proxy/src/logging.rs, with `SystemRecord` and `emit` of proxy/src/audit.rs. What
-- serde_json does, and how an event names its fields, are parameters.
use den_browser.Prelude.{
  ℕ, Bool, ◌&&◌, List, [], ◌∷◌, ◌++◌, Option, none, some, Text, text, ◌==◌, list_eq, nat_eq,
  if◌then◌else◌,
}
use den_browser.Prelude.Int.{ℤ}
use den_browser.Prelude.Result.{Result, ok, err}
use den_browser.Audit.Record.{AuditRecord, Level}

abbrev pub audit_target : Text
unfolding text
audit_target = text "denbrowser_proxy::audit"

abbrev pub record_field : Text
unfolding text
record_field = text "audit_record"

-- A value of an event, as it is handed to `Visit`; `debug` has the text of its `Debug`.
pub data FieldValue (F : Type 0) : Type 0 where
  str debug : Text → FieldValue F
  i64 : ℤ → FieldValue F
  u64 : ℕ → FieldValue F
  bool : Bool → FieldValue F
  f64 : F → FieldValue F

pub record SystemRecord (V : Type 0) : Type 0 where
  pub timestamp : Text
  pub schema_version : Text
  pub level : Text
  pub logger : Text
  pub kind : Text
  pub message : Text
  pub fields : List (Text × V)

-- serde_json; `none` is an error of `to_string`.
pub record Json : Type 1 where
  pub F64 : Type 0
  pub Value : Type 0
  pub of_str : Text → Value
  pub of_i64 : ℤ → Value
  pub of_u64 : ℕ → Value
  pub of_bool : Bool → Value
  pub null : Value
  -- `Number::from_f64`
  pub from_f64 : F64 → Option Value
  -- the text of a `Value::String`
  pub as_string : Value → Option Text
  pub show : Value → Text
  pub to_string : SystemRecord Value → Option Text
  pub audit_to_string : AuditRecord → Result Text Text

module _ (lib : Json) where
  open lib use {
    F64, Value, of_str, of_i64, of_u64, of_bool, null, from_f64, as_string, show, to_string,
    audit_to_string,
  }

  pub record Fields : Type 0 where
    pub audit : Bool
    pub audit_record : Option Text
    pub message : Text
    pub log_target : Option Text
    pub extra : List (Text × Value)

  unfoldable pub new : Bool → Fields
  new audit = record {
    audit = audit;
    audit_record = none;
    message = [];
    log_target = none;
    extra = [];
  }

  -- `Map::insert`, which replaces the value of a key that is there; the order of the map is not
  -- modelled.
  unfoldable pub insert : Text → Value → List (Text × Value) → List (Text × Value)
  insert name value [] = (name, value) ∷ []
  insert name value ((k, v) ∷ rest) =
      let later = insert name value rest in
      if k == name then (name, value) ∷ rest else (k, v) ∷ later

  unfoldable pub put : Fields → Text → Value → Fields
  unfolding insert
  put f name value =
      if name == text "message"
      then record f { message = elim (as_string value) [ some s ↦ s | none ↦ show value ] }
      else if name == text "log.module_path"
      then f
      else if name == text "log.file"
      then f
      else if name == text "log.line"
      then f
      else record f { extra = insert name value f.extra }

  unfoldable pub record_str : Fields → Text → Text → Fields
  record_str f name value =
      if name == record_field && f.audit
      then record f { audit_record = some value }
      else if name == text "log.target"
      then record f { log_target = some value }
      else put f name (of_str value)

  -- One call of `Visit`.
  unfoldable pub record_value : Fields → Text → FieldValue F64 → Fields
  record_value f name (str value) = record_str f name value
  record_value f name (debug value) = record_str f name value
  record_value f name (i64 value) = put f name (of_i64 value)
  record_value f name (u64 value) = put f name (of_u64 value)
  record_value f name (bool value) = put f name (of_bool value)
  record_value f name (f64 value) = put f name (elim (from_f64 value) [ some n ↦ n | none ↦ null ])

  -- `event.record(&mut fields)`.
  unfoldable pub visit : Fields → List (Text × FieldValue F64) → Fields
  visit f [] = f
  visit f ((name, value) ∷ rest) = visit (record_value f name value) rest

  unfoldable pub system_record :
      Text → Text → Text → Text → List (Text × Value) → SystemRecord Value
  system_record timestamp level logger message fields = record {
    timestamp = timestamp;
    schema_version = text "1.0";
    level = level;
    logger = logger;
    kind = text "system";
    message = message;
    fields = fields;
  }

  -- An event: its target, its level, its fields. The result is the line, or an error.
  pub record Event : Type 0 where
    pub target : Text
    pub level : Text
    pub fields : List (Text × FieldValue F64)

  abbrev pub newline : Option Text → Option Text
  newline none = none
  newline (some line) = some (line ++ (10 ∷ []))

  unfoldable pub wrap : Text → Event → Fields → Option Text
  unfolding system_record
  wrap timestamp e f =
      let logger : Text = elim f.log_target [ none ↦ e.target | some origin ↦ origin ] in
      newline (to_string (system_record timestamp e.level logger f.message f.extra))

  unfoldable pub format_event : Text → Event → Option Text
  unfolding wrap new visit
  format_event timestamp e =
      let f = visit (new (e.target == audit_target)) e.fields in
      elim f.audit_record [ some line ↦ some (line ++ (10 ∷ [])) | none ↦ wrap timestamp e f ]

  unfoldable pub level_text : Level → Text
  level_text Level.info = text "INFO"
  level_text Level.warn = text "WARN"

  -- The event of an audit record, or of the error in writing one; `error!` has the module as its
  -- target, which is that of the audit records.
  unfoldable pub emit : Level → AuditRecord → Event
  unfolding level_text
  emit level r = elim (audit_to_string r) [
    | err e ↦ record {
      target = audit_target;
      level = text "ERROR";
      fields = (text "message", debug (text "cannot serialize audit record: " ++ e)) ∷ [];
    }
    | ok line ↦ record {
      target = audit_target;
      level = level_text level;
      fields = (record_field, str line) ∷ [];
    }
  ]
