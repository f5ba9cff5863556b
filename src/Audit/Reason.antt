-- ===== src/Audit/Reason.antt =====
-- The enums of proxy/src/audit.rs, and the table of the `reasons!` macro.
use den_browser.Prelude.{Bool, true, false, Text, text}

pub data Risk : Type 0 where
  info low medium high critical : Risk

pub data Stage : Type 0 where
  rate_limit attestation_headers machine_identity attestation_token attestation_body upstream
        downstream internal :
      Stage

unfoldable pub is_attestation : Stage → Bool
is_attestation attestation_headers = true
is_attestation attestation_token = true
is_attestation attestation_body = true
is_attestation _ = false

pub data Reason : Type 0 where
  rate_limited no_attestation_headers incomplete_attestation_headers machine_cert_missing
        machine_cert_malformed machine_cert_no_common_name machine_cert_unsafe_common_name
        machine_hostname_not_allowed machine_cert_expired machine_cert_not_yet_valid
        machine_cert_untrusted machine_hostname_unresolvable machine_address_mismatch
        machine_no_client_address timestamp_invalid timestamp_out_of_window nonce_invalid
        nonce_replay token_malformed token_decrypt_failed token_request_mismatch body_too_large
        body_hash_mismatch body_read_failed request_malformed upstream_error downstream_error
        internal_error :
      Reason

unfoldable pub code : Reason → Text
code rate_limited = text "rate_limited"
code no_attestation_headers = text "no_attestation_headers"
code incomplete_attestation_headers = text "incomplete_attestation_headers"
code machine_cert_missing = text "machine_cert_missing"
code machine_cert_malformed = text "machine_cert_malformed"
code machine_cert_no_common_name = text "machine_cert_no_common_name"
code machine_cert_unsafe_common_name = text "machine_cert_unsafe_common_name"
code machine_hostname_not_allowed = text "machine_hostname_not_allowed"
code machine_cert_expired = text "machine_cert_expired"
code machine_cert_not_yet_valid = text "machine_cert_not_yet_valid"
code machine_cert_untrusted = text "machine_cert_untrusted"
code machine_hostname_unresolvable = text "machine_hostname_unresolvable"
code machine_address_mismatch = text "machine_address_mismatch"
code machine_no_client_address = text "machine_no_client_address"
code timestamp_invalid = text "timestamp_invalid"
code timestamp_out_of_window = text "timestamp_out_of_window"
code nonce_invalid = text "nonce_invalid"
code nonce_replay = text "nonce_replay"
code token_malformed = text "token_malformed"
code token_decrypt_failed = text "token_decrypt_failed"
code token_request_mismatch = text "token_request_mismatch"
code body_too_large = text "body_too_large"
code body_hash_mismatch = text "body_hash_mismatch"
code body_read_failed = text "body_read_failed"
code request_malformed = text "request_malformed"
code upstream_error = text "upstream_error"
code downstream_error = text "downstream_error"
code internal_error = text "internal_error"

unfoldable pub stage : Reason → Stage
stage rate_limited = rate_limit
stage no_attestation_headers = attestation_headers
stage incomplete_attestation_headers = attestation_headers
stage machine_cert_missing = machine_identity
stage machine_cert_malformed = machine_identity
stage machine_cert_no_common_name = machine_identity
stage machine_cert_unsafe_common_name = machine_identity
stage machine_hostname_not_allowed = machine_identity
stage machine_cert_expired = machine_identity
stage machine_cert_not_yet_valid = machine_identity
stage machine_cert_untrusted = machine_identity
stage machine_hostname_unresolvable = machine_identity
stage machine_address_mismatch = machine_identity
stage machine_no_client_address = machine_identity
stage timestamp_invalid = attestation_token
stage timestamp_out_of_window = attestation_token
stage nonce_invalid = attestation_token
stage nonce_replay = attestation_token
stage token_malformed = attestation_token
stage token_decrypt_failed = attestation_token
stage token_request_mismatch = attestation_token
stage body_too_large = attestation_body
stage body_hash_mismatch = attestation_body
stage body_read_failed = downstream
stage request_malformed = downstream
stage upstream_error = upstream
stage downstream_error = downstream
stage internal_error = internal

unfoldable pub risk : Reason → Risk
risk rate_limited = medium
risk no_attestation_headers = low
risk incomplete_attestation_headers = high
risk machine_cert_missing = medium
risk machine_cert_malformed = high
risk machine_cert_no_common_name = high
risk machine_cert_unsafe_common_name = high
risk machine_hostname_not_allowed = high
risk machine_cert_expired = medium
risk machine_cert_not_yet_valid = medium
risk machine_cert_untrusted = high
risk machine_hostname_unresolvable = medium
risk machine_address_mismatch = high
risk machine_no_client_address = medium
risk timestamp_invalid = high
risk timestamp_out_of_window = medium
risk nonce_invalid = high
risk nonce_replay = high
risk token_malformed = high
risk token_decrypt_failed = high
risk token_request_mismatch = critical
risk body_too_large = medium
risk body_hash_mismatch = critical
risk body_read_failed = low
risk request_malformed = high
risk upstream_error = medium
risk downstream_error = low
risk internal_error = medium
