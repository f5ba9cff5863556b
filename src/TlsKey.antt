-- ===== src/TlsKey.antt =====
-- proxy/src/tls_key.rs: the private key of the listener and its passphrase. OpenSSL and the file
-- system are parameters.
pub mod Loading
use den_browser.Prelude.{
  ℕ, ◌≡◌, Bool, true, false, not, ◌&&◌, [], ◌∷◌, Option, none, some, Text, Bytes, as_bytes,
  before_first, length, leb, ◌==◌, list_eq, nat_eq, if◌then◌else◌,
}
use den_browser.Prelude.Result.{Result, ok, err, map_err, guard, ◌>>=◌, ◌>>◌}
use den_browser.Config.{ProxyConfig}

-- `std::fs::read`, with the message of its error.
abbrev pub Read : Type 0
Read = Text → Result Bytes Text

-- What OpenSSL is given to ask for a passphrase: from the size of its buffer, the bytes written.
abbrev pub Callback : Type 0
Callback = ℕ → Bytes

-- What `private_key_from_pem_callback` returns, and whether it has called the callback.
pub record Parsed (K : Type 0) : Type 0 where
  pub key : Result K Text
  pub asked : Bool

pub record OpenSsl : Type 1 where
  pub PKey : Type 0
  pub private_key_from_pem_callback : Bytes → Callback → Parsed PKey

-- The errors, with the paths and messages that they print.
pub data LoadError : Type 0 where
  cannot_read_key : Text → Text → LoadError
  cannot_read_passphrase_file : Text → Text → LoadError
  empty_passphrase_file : Text → LoadError
  no_passphrase : Text → LoadError
  cannot_decrypt : Text → Text → LoadError
  cannot_parse : Text → Text → LoadError

-- `strip_suffix(b"\r")`, or the line itself.
unfoldable pub strip_cr : Bytes → Bytes
strip_cr [] = []
strip_cr (b ∷ []) = if b == 13 then [] else b ∷ []
strip_cr (b ∷ c ∷ cs) = b ∷ strip_cr (c ∷ cs)

unfoldable pub first_line : Bytes → Bytes
unfolding strip_cr before_first
first_line contents = strip_cr (before_first 10 contents)

unfoldable pub passphrase : Read → ProxyConfig → Result (Option Bytes) LoadError
passphrase read cfg =
    if not (cfg.tls_key_passphrase == [])
    then ok (some (as_bytes cfg.tls_key_passphrase))
    else if cfg.tls_key_passphrase_file == []
    then ok none
    else do
      let path = cfg.tls_key_passphrase_file
      contents ← map_err (cannot_read_passphrase_file path) (read path)
      guard (not (first_line contents == [])) (empty_passphrase_file path)
      ok (some (first_line contents))

-- The closure: the passphrase, or nothing where the buffer is too small for it.
unfoldable pub supply : Option Bytes → Callback
supply none size = []
supply (some pass) size = if leb (length pass) size then pass else []

-- A key, and whether the warning about a passphrase that was not used is logged.
pub record LoadedKey (K : Type 0) : Type 0 where
  pub key : K
  pub warned : Bool

unfoldable pub is_some : Option Bytes → Bool
is_some none = false
is_some (some pass) = true

-- The verdict on what OpenSSL returned.
unfoldable pub judge :
    {K : Type 0} → Text → Option Bytes → Bool → Result K Text → Result (LoadedKey K) LoadError
unfolding is_some
judge path pass asked (ok key) = ok (record { key = key; warned = is_some pass && not asked })
judge path pass true (err e) =
    if not (is_some pass) then err (no_passphrase path) else err (cannot_decrypt path e)
judge path pass false (err e) = err (cannot_parse path e)

unfoldable pub load : (lib : OpenSsl) → Read → ProxyConfig → Result (LoadedKey lib.PKey) LoadError
unfolding supply judge
load lib read cfg = do
  pem ← map_err (cannot_read_key cfg.tls_key) (read cfg.tls_key)
  pass ← passphrase read cfg
  let parsed = lib.private_key_from_pem_callback pem (supply pass)
  judge cfg.tls_key pass parsed.asked parsed.key
