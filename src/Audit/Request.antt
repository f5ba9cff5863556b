-- ===== src/Audit/Request.antt =====
-- `RequestAudit` of proxy/src/audit.rs: the audit state of one request, and its record. The
-- calendar of the `time` crate is a parameter.
use den_browser.Prelude.{
  ℕ, zero, suc, ◌+◌, ◌-◌, ◌^◌, Bool, true, false, [], ◌∷◌, ◌++◌, Option, none, some, Text, text,
  as_bytes, trim, length, take, leb, if◌then◌else◌,
}
use den_browser.Prelude.Int.{ℤ, pos, negsuc}
use den_browser.Prelude.Decimal.{show_ℕ, parse_i64}
use den_browser.Attest.Window.{Instant}
use den_browser.Machine.Error.{MachineError}
use den_browser.Machine.Error
use den_browser.Machine.{Trust, VerifiedMachine}
use den_browser.Audit.Reason.{Reason, stage, is_attestation, rate_limited}
use den_browser.Audit.Record.{
  Action, Outcome, AttestationStatus, MachineStatus, Binding, Level, MachineFields,
  AttestationFields,
}

-- `None` as an `Option Reason`'s stage and risk, and an `Option` mapped.
abbrev pub option_map {ℓ κ} : {A : Type ℓ} {B : Type κ} → (A → B) → Option A → Option B
option_map f none = none
option_map f (some a) = some (f a)

abbrev pub u64_max : ℕ
u64_max = 2 ^ 64 - 1

-- `OffsetDateTime` in UTC, read by its fields; the year is not negative here.
pub record Calendar : Type 1 where
  pub OffsetDateTime : Type 0
  pub from_unix_timestamp : ℤ → Option OffsetDateTime
  pub year : OffsetDateTime → ℕ
  pub month : OffsetDateTime → ℕ
  pub day : OffsetDateTime → ℕ
  pub hour : OffsetDateTime → ℕ
  pub minute : OffsetDateTime → ℕ
  pub second : OffsetDateTime → ℕ
  pub millisecond : OffsetDateTime → ℕ

-- `s`, cut to `max_chars` characters with an ellipsis when cut.
unfoldable pub bounded : Text → ℕ → Text
bounded s max_chars = if leb (length s) max_chars then s else take max_chars s ++ text "…"

zeros : ℕ → Text
zeros zero = []
zeros (suc n) = b'0' ∷ zeros n

-- `{:0width}` of a number.
pad : ℕ → ℕ → Text
unfolding zeros
pad width n = zeros (width - length (show_ℕ n)) ++ show_ℕ n

module _ (cal : Calendar) where
  unfoldable pub format_utc : cal.OffsetDateTime → Text
  unfolding pad
  format_utc t =
      pad 4 (cal.year t)
      ++ text "-"
      ++ pad 2 (cal.month t)
      ++ text "-"
      ++ pad 2 (cal.day t)
      ++ text "T"
      ++ pad 2 (cal.hour t)
      ++ text ":"
      ++ pad 2 (cal.minute t)
      ++ text ":"
      ++ pad 2 (cal.second t)
      ++ text "."
      ++ pad 3 (cal.millisecond t)
      ++ text "Z"

  unfoldable pub unix_timestamp : ℤ → Option Text
  unix_timestamp (negsuc n) = none
  unix_timestamp (pos n) =
      if leb n 253402300799 then option_map format_utc (cal.from_unix_timestamp (pos n)) else none

pub record RequestAudit : Type 0 where
  pub started : Instant
  pub action : Option Action
  pub reason : Option Reason
  pub message : Option Text
  pub method : Option Text
  pub host : Option Text
  pub attestation : AttestationFields
  pub is_token_verified : Bool
  pub machine : MachineFields
  pub presented_machine_cert : Option Text
  pub response_body_bytes : ℕ

unfoldable pub new : Bool → Instant → RequestAudit
new machine_identity_enabled now = record {
  started = now;
  action = none;
  reason = none;
  message = none;
  method = none;
  host = none;
  attestation = record {
    status = AttestationStatus.not_evaluated;
    nonce = none;
    client_timestamp = none;
    body_binding = none;
  };
  is_token_verified = false;
  machine = record {
    status =
        if machine_identity_enabled then MachineStatus.not_evaluated else MachineStatus.disabled;
    subject_dn = none;
    hostname = none;
    chain_verified = false;
  };
  presented_machine_cert = none;
  response_body_bytes = 0;
}

unfoldable pub request : RequestAudit → Text → Option Text → RequestAudit
request a method host = record a {
  method = some (bounded method 32);
  host = option_map (λ h. bounded h 256) host;
}

unfoldable pub attestation_headers :
    Calendar → RequestAudit → Option Text → Option Text → RequestAudit
attestation_headers cal a ts nonce =
    let parsed : Option ℤ = elim ts [ none ↦ none | some t ↦ parse_i64 (as_bytes (trim t)) ] in
    let seen : AttestationFields = record (a.attestation) {
      nonce = option_map (λ n. bounded n 64) nonce;
      client_timestamp = elim parsed [ none ↦ none | some t ↦ unix_timestamp cal t ];
    } in
    record a { attestation = seen }

unfoldable pub machine_cert_presented : RequestAudit → Text → RequestAudit
machine_cert_presented a cert_b64 = record a { presented_machine_cert = some cert_b64 }

unfoldable pub machine_absent : RequestAudit → RequestAudit
machine_absent a = record a { machine = record (a.machine) { status = MachineStatus.absent } }

unfoldable pub machine_verified : RequestAudit → VerifiedMachine → RequestAudit
machine_verified a id = record a {
  machine = record {
    status = MachineStatus.verified;
    subject_dn = some (bounded id.subject_dn 1024);
    hostname = some id.hostname;
    chain_verified = true;
  };
  presented_machine_cert = none;
}

unfoldable pub token_verified : RequestAudit → Binding → RequestAudit
token_verified a binding = record a {
  is_token_verified = true;
  attestation = record (a.attestation) { body_binding = some binding };
}

-- The action and the attestation status that a refusal sets.
unfoldable pub refusal_action : Reason → Action
refusal_action rate_limited = Action.rate_limit
refusal_action _ = Action.reject

unfoldable pub refusal_status : Reason → Bool → AttestationStatus
refusal_status reason token_passed =
    if is_attestation (stage reason)
    then AttestationStatus.failed
    else if token_passed
    then AttestationStatus.incomplete
    else AttestationStatus.not_evaluated

unfoldable pub reject : RequestAudit → Reason → Text → RequestAudit
unfolding refusal_action refusal_status
reject a reason message = record a {
  action = some (refusal_action reason);
  reason = some reason;
  message = some message;
  attestation = record (a.attestation) { status = refusal_status reason a.is_token_verified };
}

unfoldable pub machine_rejected : Trust → RequestAudit → MachineError → RequestAudit
unfolding reject
machine_rejected lib a e =
    let failed : RequestAudit = record a {
      machine = record (a.machine) {
        status = MachineStatus.failed;
        chain_verified = Error.chain_verified e;
      };
    } in
    reject failed (Error.reason e) (Error.to_string lib.show_ip e)

unfoldable pub forward_message : Option Binding → Text
forward_message (some Binding.unbound) =
    text "attested upload forwarded; body streamed unbound (not hash-verified)"
forward_message _ = text "attested request forwarded"

unfoldable pub forward : RequestAudit → RequestAudit
unfolding forward_message
forward a = record a {
  action = some Action.forward;
  message = some (forward_message a.attestation.body_binding);
  attestation = record (a.attestation) { status = AttestationStatus.verified };
}

unfoldable pub bypass : RequestAudit → Text → RequestAudit
bypass a subject = record a {
  action = some Action.bypass;
  message = some (
      text "attestation bypassed for allowlisted client certificate subject "
      ++ bounded subject 1024);
  attestation = record (a.attestation) { status = AttestationStatus.bypassed };
}

unfoldable pub response_body : RequestAudit → ℕ → RequestAudit
response_body a len =
    let sum = a.response_body_bytes + len in
    record a { response_body_bytes = if leb sum u64_max then sum else u64_max }

unfoldable pub outcome : RequestAudit → Bool → Outcome
outcome a failed = elim a.action [
  | some Action.forward ↦ if failed then Outcome.failure else Outcome.success
  | some Action.bypass ↦ if failed then Outcome.failure else Outcome.success
  | _ ↦ Outcome.failure
]

unfoldable pub level : RequestAudit → Bool → Level
unfolding outcome
level a failed = elim (outcome a failed) [
  | Outcome.success ↦ Level.info
  | Outcome.failure ↦ Level.warn
]
