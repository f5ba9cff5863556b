-- ===== src/Machine/Error.antt =====
-- `MachineError` of proxy/src/machine.rs: its message, its audit reason, and how far the
-- certificate had got. The text of an address is an argument of the message.
use den_browser.Prelude.{
  Bool, true, false, [], ◌∷◌, ◌++◌, Text, text, ◌==◌, nat_eq, ◌||◌, if◌then◌else◌,
}
use den_browser.Net.{IpAddr}
use den_browser.Audit.Reason.{Reason}

pub data MachineError : Type 0 where
  missing not_base64 not_der : MachineError
  untrusted_chain : Text → MachineError
  cert_expired cert_not_yet_valid no_common_name unsafe_common_name : MachineError
  hostname_not_allowed : Text → MachineError
  hostname_address_mismatch : Text → IpAddr → MachineError
  hostname_unresolvable : Text → MachineError
  no_client_address : MachineError

escaped : Text → Text
escaped [] = []
escaped (c ∷ cs) =
    let later = escaped cs in if c == b'"' || c == b'\\' then b'\\' ∷ c ∷ later else c ∷ later

-- `{cn:?}` of a name of visible ASCII characters, the only ones that reach a message.
unfoldable pub debug : Text → Text
unfolding escaped
debug name = b'"' ∷ (escaped name ++ text "\"")

unfoldable pub to_string : (IpAddr → Text) → MachineError → Text
to_string show_ip missing = text "X-DenBrowser-Machine-Cert is missing"
to_string show_ip not_base64 = text "X-DenBrowser-Machine-Cert is not valid base64"
to_string show_ip not_der = text "machine certificate is not parseable DER"
to_string show_ip (untrusted_chain r) =
    text "machine certificate does not chain to machine_ca: " ++ r
to_string show_ip cert_expired = text "machine certificate (or its issuing CA) has expired"
to_string show_ip cert_not_yet_valid =
    text "machine certificate (or its issuing CA) is not yet valid"
to_string show_ip no_common_name = text "machine certificate has no Common Name"
to_string show_ip unsafe_common_name =
    text "machine certificate Common Name contains illegal characters"
to_string show_ip (hostname_not_allowed cn) =
    text "machine hostname " ++ debug cn ++ text " matches no allowed_hostnames pattern"
to_string show_ip (hostname_address_mismatch cn ip) =
    text "machine hostname "
    ++ debug cn
    ++ text " does not resolve to the connecting address "
    ++ show_ip ip
to_string show_ip (hostname_unresolvable cn) =
    text "machine hostname " ++ debug cn ++ text " could not be resolved"
to_string show_ip no_client_address =
    text "connection has no peer address to verify the machine hostname against"

unfoldable pub reason : MachineError → Reason
reason missing = Reason.machine_cert_missing
reason not_base64 = Reason.machine_cert_malformed
reason not_der = Reason.machine_cert_malformed
reason (untrusted_chain r) = Reason.machine_cert_untrusted
reason cert_expired = Reason.machine_cert_expired
reason cert_not_yet_valid = Reason.machine_cert_not_yet_valid
reason no_common_name = Reason.machine_cert_no_common_name
reason unsafe_common_name = Reason.machine_cert_unsafe_common_name
reason (hostname_not_allowed cn) = Reason.machine_hostname_not_allowed
reason (hostname_address_mismatch cn ip) = Reason.machine_address_mismatch
reason (hostname_unresolvable cn) = Reason.machine_hostname_unresolvable
reason no_client_address = Reason.machine_no_client_address

-- Whether the certificate had already chained to `machine_ca`.
unfoldable pub chain_verified : MachineError → Bool
chain_verified (hostname_address_mismatch cn ip) = true
chain_verified (hostname_unresolvable cn) = true
chain_verified _ = false
