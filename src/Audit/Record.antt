-- ===== src/Audit/Record.antt =====
-- The audit record of proxy/src/audit.rs: the enums it writes and the fields of one line.
use den_browser.Prelude.{ℕ, Bool, Option, none, some, Text}
use den_browser.Net.{IpAddr, SocketAddr}
use den_browser.Attest.Token.{BodyBinding}
use den_browser.Audit.Reason.{Reason, Stage, Risk}

pub data Action : Type 0 where
  forward bypass reject rate_limit error : Action

pub data Outcome : Type 0 where
  success failure : Outcome

pub data AttestationStatus : Type 0 where
  verified failed bypassed incomplete not_evaluated : AttestationStatus

pub data MachineStatus : Type 0 where
  verified failed absent not_evaluated disabled : MachineStatus

pub data Binding : Type 0 where
  bound unbound : Binding

-- `tracing::Level`, as far as an audit line uses it.
pub data Level : Type 0 where
  info warn : Level

-- `From<&BodyBinding> for Binding`.
unfoldable pub binding_of : BodyBinding → Binding
binding_of (BodyBinding.hash expected) = bound
binding_of BodyBinding.unbound = unbound

pub record AuditEvent : Type 0 where
  pub kind : Text
  pub action : Action
  pub outcome : Outcome
  pub stage : Option Stage
  pub reason : Option Reason
  pub risk : Risk
  pub duration_ms : ℕ

pub record Endpoint : Type 0 where
  pub ip : Option IpAddr
  pub port : Option ℕ

unfoldable pub endpoint : Option SocketAddr → Endpoint
endpoint none = record { ip = none; port = none }
endpoint (some a) = record { ip = some a.ip; port = some a.port }

pub record ClientFields : Type 0 where
  pub address : Option Text
  pub ip : Option IpAddr
  pub port : Option ℕ

-- `to_string` of an address is an argument.
unfoldable pub client_fields : (IpAddr → Text) → Option SocketAddr → ClientFields
client_fields show_ip none = record { address = none; ip = none; port = none }
client_fields show_ip (some a) = record {
  address = some (show_ip a.ip);
  ip = some a.ip;
  port = some a.port;
}

pub record MachineFields : Type 0 where
  pub status : MachineStatus
  pub subject_dn : Option Text
  pub hostname : Option Text
  pub chain_verified : Bool

pub record AttestationFields : Type 0 where
  pub status : AttestationStatus
  pub nonce : Option Text
  pub client_timestamp : Option Text
  pub body_binding : Option Binding

-- The facts that the session gives when the exchange is over.
pub record Connection : Type 0 where
  pub proxy : Option SocketAddr
  pub client : Option SocketAddr
  pub tls_client_subject : Option Text
  pub status_code : Option ℕ
  pub request_body_bytes : ℕ
  pub response_body_bytes : ℕ

-- The nested structs of the fields that hold one value each are those values.
pub record AuditRecord : Type 0 where
  pub timestamp : Text
  pub schema_version : Text
  pub level : Level
  pub logger : Text
  pub event : AuditEvent
  pub message : Text
  pub proxy : Endpoint
  pub client : ClientFields
  pub server_address : Option Text
  pub tls_client_subject : Option Text
  pub machine : MachineFields
  pub attestation : AttestationFields
  pub request_method : Option Text
  pub response_status_code : Option ℕ
  pub request_body_bytes : ℕ
  pub response_body_bytes : ℕ
