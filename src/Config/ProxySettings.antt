-- ===== src/Config/ProxySettings.antt =====
-- `ProxyConfig::validate` of proxy/src/config.rs.
use den_browser.Prelude.{
  ◌≡◌, Bool, true, false, not, ◌&&◌, List, [], ◌∷◌, Text, text, trim, ◌==◌, eq_iff, list_eq, nat_eq,
  arith, Bool-cases, inl, inr, ◌⊎◌, ◌↔◌,
}
use den_browser.Prelude.Result.{Result, ok, guard, ◌>>◌}
use den_browser.Config.{ProxyConfig}

-- The errors, with the name of the setting.
pub data ProxyError : Type 0 where
  required : Text → ProxyError
  two_passphrases : ProxyError

-- `value.trim().is_empty()`.
unfoldable pub is_blank : Text → Bool
is_blank value = trim value == []

unfoldable pub check_required : List (Text × Text) → Result (Unit {0}) ProxyError
check_required [] = ok tt
check_required ((name, value) ∷ rest) = do
  guard (not (is_blank value)) (required name)
  check_required rest

unfoldable pub validate : ProxyConfig → Result (Unit {0}) ProxyError
unfolding check_required
validate cfg = do
  check_required (
      (text "listen", cfg.listen)
      ∷ (text "upstream", cfg.upstream)
      ∷ (text "tls_cert", cfg.tls_cert)
      ∷ (text "tls_key", cfg.tls_key)
      ∷ [])
  guard (not (not (cfg.tls_key_passphrase == []) && not (cfg.tls_key_passphrase_file == [])))
      two_passphrases

-- Every required setting has text in it, and there is one passphrase at most.
pub record IsComplete (cfg : ProxyConfig) : Type 0 where
  pub listen : is_blank cfg.listen ≡ false
  pub upstream : is_blank cfg.upstream ≡ false
  pub tls_cert : is_blank cfg.tls_cert ≡ false
  pub tls_key : is_blank cfg.tls_key ≡ false
  pub one_passphrase : (cfg.tls_key_passphrase ≡ []) ⊎ (cfg.tls_key_passphrase_file ≡ [])

one_empty : (a b : Text) → (not (not (a == []) && not (b == [])) ≡ true) ↔ ((a ≡ []) ⊎ (b ≡ []))
one_empty a b = (
  (λ h. elim (Bool-cases (a == [])) [
    | inl e ↦ inl ((eq_iff a []).0 e)
    | inr e ↦ inr ((eq_iff b []).0 (ground (arith, h, e)))
  ]),
  (λ h. elim h [ inl e ↦ rw ((eq_iff a []).1 e) | inr e ↦ rw ((eq_iff b []).1 e) (ground arith) ]),
)

-- `validate` accepts a section exactly if its four required settings are not blank and at most one
-- source of the passphrase is set.
pub validate_iff : (cfg : ProxyConfig) → (validate cfg ≡ ok tt) ↔ IsComplete cfg
unfolding validate
validate_iff cfg =
    let one = one_empty cfg.tls_key_passphrase cfg.tls_key_passphrase_file in
    (
      (λ h. record {
        listen = ground (arith, h);
        upstream = ground (arith, h);
        tls_cert = ground (arith, h);
        tls_key = ground (arith, h);
        one_passphrase = one.0 (ground (arith, h));
      }),
      (λ c. ground (arith, c.listen, c.upstream, c.tls_cert, c.tls_key, one.1 c.one_passphrase)),
    )
