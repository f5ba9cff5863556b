-- ===== src/Audit/Finish.antt =====
-- The end of a request in proxy/src/audit.rs: `record`, `finish` and `classify_proxy_error`.
use den_browser.Prelude.{
  ℕ, ◌-◌, ◌/◌, ◌^◌, Bool, true, false, Option, none, some, [], Text, text, ◌++◌, leb, if◌then◌else◌,
}
use den_browser.Attest.Window.{Instant}
use den_browser.Machine.{Trust, presented_subject_dn}
use den_browser.Audit.Reason.{Reason, Risk, stage, risk}
use den_browser.Audit.Record.{
  Action, Outcome, Level, endpoint, client_fields, MachineFields, Connection, AuditRecord,
}
use den_browser.Audit.Request.{RequestAudit, option_map, bounded, outcome, level, u64_max}

-- The error that the record reports: pingora's, or a missing decision.
unfoldable pub reported : Option Action → Option (Reason × Text) → Option (Reason × Text)
reported none none =
    some (Reason.internal_error, text "request ended before an access decision was recorded")
reported action error = error

-- A refusal keeps its own reason over any later transport error.
unfoldable pub settle : RequestAudit → Option (Reason × Text) → RequestAudit
settle a none = a
settle a (some (reason, message)) =
    let failed : Action → RequestAudit =
      λ action. record a { action = some action; reason = some reason; message = some message } in
    elim a.action [
      | none ↦ failed Action.error
      | some Action.forward ↦ failed Action.forward
      | some Action.bypass ↦ failed Action.bypass
      | some _ ↦ a
    ]

module _ (lib : Trust) where
  -- The subject of a certificate that was presented and not verified.
  unfoldable pub name_presented : RequestAudit → RequestAudit
  name_presented a = elim a.machine.subject_dn [
    | some dn ↦ a
    | none ↦ elim a.presented_machine_cert [
      | none ↦ a
      | some cert ↦
          let named : MachineFields = record (a.machine) {
            subject_dn = option_map (λ dn. bounded dn 1024) (presented_subject_dn lib cert);
          } in
          record a { machine = named; presented_machine_cert = none }
    ]
  ]

  -- The line of a settled request, and what `take` leaves behind.
  unfoldable pub line : RequestAudit → Connection → Level → Outcome → Text → ℕ → AuditRecord
  line a conn lvl out timestamp duration_ms = record {
    timestamp = timestamp;
    schema_version = text "1.0";
    level = lvl;
    logger = text "denbrowser_proxy::audit";
    event = record {
      kind = text "audit";
      action = elim a.action [ none ↦ Action.error | some action ↦ action ];
      outcome = out;
      stage = option_map stage a.reason;
      reason = a.reason;
      risk = elim a.reason [ none ↦ Risk.info | some reason ↦ risk reason ];
      duration_ms = duration_ms;
    };
    message = elim a.message [ none ↦ [] | some message ↦ message ];
    proxy = endpoint conn.proxy;
    client = client_fields lib.show_ip conn.client;
    server_address = a.host;
    tls_client_subject = option_map (λ dn. bounded dn 1024) conn.tls_client_subject;
    machine = a.machine;
    attestation = a.attestation;
    request_method = a.method;
    response_status_code = conn.status_code;
    request_body_bytes = conn.request_body_bytes;
    response_body_bytes = conn.response_body_bytes;
  }

  unfoldable pub record_of :
      RequestAudit → Connection → Option (Reason × Text) → Text → ℕ → RequestAudit × AuditRecord
  unfolding name_presented line reported settle
  record_of a conn error timestamp duration_ms =
      let found = reported a.action error in
      let failed : Bool = elim found [ none ↦ false | some e ↦ true ] in
      let done = name_presented (settle a found) in
      (
        record done { message = none; method = none; host = none },
        line done conn (level a failed) (outcome a failed) timestamp duration_ms,
      )

  -- `enabled` is the answer of the `tracing` filter for the level.
  unfoldable pub finish :
      (Level → Bool)
      → RequestAudit
      → Connection
      → Option (Reason × Text)
      → Text
      → Instant
      → RequestAudit × Option AuditRecord
  unfolding record_of
  finish enabled a conn error timestamp now =
      let failed : Bool = elim error [ none ↦ false | some e ↦ true ] in
      let millis = (now - a.started) / 10 ^ 6 in
      let duration_ms = if leb millis u64_max then millis else u64_max in
      let written = record_of a conn error timestamp duration_ms in
      if enabled (level a failed) then (written.0, some written.1) else (a, none)

-- `ErrorSource`, and whether the type of the error is `InvalidHTTPHeader`.
pub data ErrorSource : Type 0 where
  upstream downstream internal unset : ErrorSource

pub record PingoraError : Type 0 where
  pub esource : ErrorSource
  pub is_invalid_header : Bool
  pub etype : Text

unfoldable pub classify_proxy_error : PingoraError → Reason × Text
classify_proxy_error e =
    let described : Reason → Text → Reason × Text =
      λ reason side. (reason, side ++ text " error: " ++ e.etype) in
    elim e.esource [
      | upstream ↦ described Reason.upstream_error (text "upstream")
      | downstream ↦
          if e.is_invalid_header
          then described Reason.request_malformed (text "malformed request")
          else described Reason.downstream_error (text "client connection")
      | internal ↦ described Reason.internal_error (text "internal")
      | unset ↦ described Reason.internal_error (text "internal")
    ]
