-- ===== src/Attest/Error.antt =====
-- `AttestError` of proxy/src/attest.rs, its message and its audit reason.
use den_browser.Prelude.{◌++◌, Text, text}
use den_browser.Prelude.Int.{ℤ}
use den_browser.Prelude.Decimal.{show_ℤ}
use den_browser.Audit.Reason.{Reason}

pub data AttestError : Type 0 where
  bad_timestamp : AttestError
  timestamp_drift : ℤ → AttestError
  commit_too_late : ℤ → AttestError
  invalid_nonce : Text → AttestError
  nonce_replay : AttestError
  invalid_token : Text → AttestError
  decrypt_failed : AttestError
  plaintext_mismatch : AttestError
  body_hash_mismatch : AttestError

-- The `Display` of an error; 30 s and 90 s are the limits of `Window`.
unfoldable pub to_string : AttestError → Text
to_string bad_timestamp = text "X-DenBrowser-Ts is not a valid integer"
to_string (timestamp_drift d) = text "timestamp drift " ++ show_ℤ d ++ text "s exceeds 30s window"
to_string (commit_too_late d) =
    text "nonce committed "
    ++ show_ℤ d
    ++ text
        "s after X-DenBrowser-Ts, past the 90s commit window — the body or the checks before forwarding took too long"
to_string (invalid_nonce r) = text "invalid X-DenBrowser-Nonce: " ++ r
to_string nonce_replay = text "nonce already seen — replay rejected"
to_string (invalid_token r) = text "invalid token: " ++ r
to_string decrypt_failed = text "AES-128-GCM authentication failed"
to_string plaintext_mismatch = text "plaintext mismatch"
to_string body_hash_mismatch = text "body hash mismatch"

unfoldable pub reason : AttestError → Reason
reason bad_timestamp = Reason.timestamp_invalid
reason (timestamp_drift d) = Reason.timestamp_out_of_window
reason (commit_too_late d) = Reason.timestamp_out_of_window
reason (invalid_nonce r) = Reason.nonce_invalid
reason nonce_replay = Reason.nonce_replay
reason (invalid_token r) = Reason.token_malformed
reason decrypt_failed = Reason.token_decrypt_failed
reason plaintext_mismatch = Reason.token_request_mismatch
reason body_hash_mismatch = Reason.body_hash_mismatch
