-- ===== src/Proxy/Logged.antt =====
-- The audit line at the end of every exchange (proxy/src/main.rs and proxy/src/audit.rs).
use den_browser.Prelude.{
  ℕ, ◌+◌, ◌-◌, ◌/◌, ◌^◌, ◌≤◌, ◌≡◌, ◌∙◌, refl, sym, ap, Bool, true, false, List, [], ◌∷◌, Option,
  none, some, Text, Bytes, length, arith, ◌⊎◌, inl, inr, leb, if◌then◌else◌,
}
use Prim.Native.Nat.{min}
use den_browser.Attest.Window.{Instant}
use den_browser.Audit.Reason.{Reason}
use den_browser.Audit.Record.{Action, Outcome, Level, AuditRecord, Connection}
use den_browser.Audit.Request.{
  RequestAudit, new, response_body, outcome, level, option_map, u64_max,
}
use den_browser.Audit.Finish.{
  PingoraError, classify_proxy_error, reported, settle, name_presented, line, record_of, finish,
}
use den_browser.Machine.{Trust}
use den_browser.Proxy.Http.{Session}
use den_browser.Proxy.State.{Deps, Meets, DenBrowserProxy, Shared, Filtered}
use den_browser.Proxy.Filter.{request_filter}
use den_browser.Proxy.Refusals.{IsRefused, IsDecided, refused, passed}
use den_browser.Proxy.Counting.{request_filter-count}
use den_browser.Proxy.Decision.{request_filter-IsDecided}
use den_browser.Proxy.Audited.{SaysRefused, record_of-IsRefused}
use den_browser.Proxy.Exchange.{
  Closing, response_body_filter, response_bodies, connection, new_ctx, logging, exchange,
}

-- The bytes of the chunks of a response.
unfoldable pub total : List (Option Bytes) → ℕ
total [] = 0
total (none ∷ bodies) = total bodies
total (some chunk ∷ bodies) = length chunk + total bodies

-- Counting a response changes nothing of what was decided, and saturates at the largest u64.
record IsCounted (ctx after : RequestAudit) (bytes : ℕ) : Type 0 where
  pub action : after.action ≡ ctx.action
  pub reason : after.reason ≡ ctx.reason
  pub counted : after.response_body_bytes ≡ min (ctx.response_body_bytes + bytes) u64_max

response_bodies-IsCounted :
    (ctx : RequestAudit) (bodies : List (Option Bytes))
    → ctx.response_body_bytes ≤ u64_max
    → IsCounted ctx (response_bodies ctx bodies) (total bodies)
unfolding response_bodies response_body_filter response_body total
response_bodies-IsCounted ctx [] h = record { action = refl; reason = refl; counted = omega arith }
response_bodies-IsCounted ctx (none ∷ bodies) h = response_bodies-IsCounted ctx bodies h
response_bodies-IsCounted ctx (some chunk ∷ bodies) h =
    let next = response_body ctx (length chunk) in
    let bound : next.response_body_bytes ≤ u64_max = ground arith in
    let here : next.response_body_bytes ≡ min (ctx.response_body_bytes + length chunk) u64_max =
      ground arith in
    let later = response_bodies-IsCounted next bodies bound in
    record {
      action = later.action;
      reason = later.reason;
      counted = omega (arith, later.counted, here);
    }

-- What the line says of an exchange, from the decision and from pingora's error.
pub data IsLogged (deps : Deps) (f : Filtered deps) (error : Option PingoraError) (l : AuditRecord)
    : Type 0 where
  refusal : (r : IsRefused deps f) → SaysRefused r.reason l → IsLogged deps f error l
  success :
      f.answered ≡ false
      → error ≡ none
      → f.ctx.action ≡ some l.event.action
      → l.event.outcome ≡ Outcome.success
      → l.level ≡ Level.info
      → IsLogged deps f error l
  failure :
      (e : PingoraError)
      → f.answered ≡ false
      → error ≡ some e
      → f.ctx.action ≡ some l.event.action
      → l.event.reason ≡ some (classify_proxy_error e).0
      → l.event.outcome ≡ Outcome.failure
      → l.level ≡ Level.warn
      → IsLogged deps f error l

all_levels :
    (enabled : Level → Bool)
    → enabled Level.info ≡ true
    → enabled Level.warn ≡ true
    → (l : Level) → enabled l ≡ true
all_levels enabled info warn Level.info = info
all_levels enabled info warn Level.warn = warn

finish-some :
    (lib : Trust) (enabled : Level → Bool) (a : RequestAudit) (conn : Connection)
    (error : Option (Reason × Text)) (timestamp : Text) (now : Instant)
    → enabled Level.info ≡ true
    → enabled Level.warn ≡ true
    → (ms : ℕ) × ((finish lib enabled a conn error timestamp now).1
        ≡ some (record_of lib a conn error timestamp ms).1)
unfolding finish
finish-some lib enabled a conn error timestamp now info warn =
    let millis = (now - a.started) / 10 ^ 6 in
    let ms = if leb millis u64_max then millis else u64_max in
    let failed : Bool = elim error [ none ↦ false | some e ↦ true ] in
    let on = all_levels enabled info warn (level a failed) in (ms, ground (arith, on))

module _ (lib : Trust) (a : RequestAudit) (conn : Connection) (timestamp : Text) (ms : ℕ) where
  record_of-success :
      (act : Action)
      → (act ≡ Action.forward) ⊎ (act ≡ Action.bypass)
      → a.action ≡ some act
      → ((record_of lib a conn none timestamp ms).1.event.action ≡ act)
        × ((record_of lib a conn none timestamp ms).1.event.outcome ≡ Outcome.success)
        × ((record_of lib a conn none timestamp ms).1.level ≡ Level.info)
  unfolding record_of line settle reported name_presented outcome level
  record_of-success act (inl e) h =
      (ground (arith, h, e), ground (arith, h, e), ground (arith, h, e))
  record_of-success act (inr e) h =
      (ground (arith, h, e), ground (arith, h, e), ground (arith, h, e))

  record_of-failure :
      (act : Action) (r : Reason) (m : Text)
      → (act ≡ Action.forward) ⊎ (act ≡ Action.bypass)
      → a.action ≡ some act
      → ((record_of lib a conn (some (r, m)) timestamp ms).1.event.action ≡ act)
        × ((record_of lib a conn (some (r, m)) timestamp ms).1.event.reason ≡ some r)
        × ((record_of lib a conn (some (r, m)) timestamp ms).1.event.outcome ≡ Outcome.failure)
        × ((record_of lib a conn (some (r, m)) timestamp ms).1.level ≡ Level.warn)
  unfolding record_of line settle reported name_presented outcome level
  record_of-failure act r m (inl e) h =
      (ground (arith, h, e), ground (arith, h, e), ground (arith, h, e), ground (arith, h, e))
  record_of-failure act r m (inr e) h =
      (ground (arith, h, e), ground (arith, h, e), ground (arith, h, e), ground (arith, h, e))

module _ (deps : Deps) where
  open deps use {trust}

  -- The line of an exchange that was decided, when `a` is the audit state at its end.
  record_of-IsLogged :
      (f : Filtered deps) (a : RequestAudit) (conn : Connection) (error : Option PingoraError)
      (timestamp : Text) (ms : ℕ)
      → a.action ≡ f.ctx.action
      → a.reason ≡ f.ctx.reason
      → IsDecided deps f
      → IsLogged deps f error
          (record_of trust a conn (option_map classify_proxy_error error) timestamp ms).1
  record_of-IsLogged f a conn error timestamp ms same kept (refused r) = refusal r (
      record_of-IsRefused deps (record f { ctx = a })
        (record {
          reason = r.reason;
          recorded = same ∙ r.recorded;
          recorded_reason = kept ∙ r.recorded_reason;
          status = r.status;
          kept = r.kept;
        })
        conn (option_map classify_proxy_error error) timestamp ms)
  record_of-IsLogged f a conn none timestamp ms same kept (passed act open_ends h none_sent up) =
      let says = record_of-success trust a conn timestamp ms act open_ends (same ∙ h) in
      success up refl (h ∙ ap some (sym says.0)) says.1 says.2
  record_of-IsLogged f a conn (some e) timestamp ms same kept
        (passed act open_ends h none_sent up) =
      let says =
        record_of-failure trust a conn timestamp ms act (classify_proxy_error e).0
          (classify_proxy_error e).1 open_ends (same ∙ h) in
      failure e up refl (h ∙ ap some (sym says.0)) says.1 says.2 says.3

  record_of-bytes :
      (a : RequestAudit) (conn : Connection) (error : Option (Reason × Text)) (timestamp : Text)
      (ms : ℕ)
      → (record_of trust a conn error timestamp ms).1.response_body_bytes ≡ conn.response_body_bytes
  unfolding record_of line
  record_of-bytes a conn error timestamp ms = refl

  -- If the log takes both levels, every exchange ends with one line. It gives the refusal, if the
  -- request was refused; the forward or the bypass, as a success at `info`, if pingora reports no
  -- error; and otherwise the forward or the bypass as a failure at `warn`, with the reason of
  -- pingora's error. It counts the bytes of the response, up to the largest u64.
  pub exchange-IsLogged :
      (proxy : DenBrowserProxy deps) (meets : Meets (Shared deps)) (shared : Shared deps)
      (s : Session) (started : Instant) (bodies : List (Option Bytes)) (closing : Closing)
      → closing.enabled Level.info ≡ true
      → closing.enabled Level.warn ≡ true
      → (l : AuditRecord) × ((exchange deps proxy meets shared s started bodies closing).1 ≡ some l)
        × IsLogged deps
            (exchange deps proxy meets shared s started bodies closing).0
            closing.error
            l
        × (l.response_body_bytes ≡ min (total bodies) u64_max)
  unfolding exchange logging connection new_ctx new
  exchange-IsLogged proxy meets shared s started bodies closing info warn =
      let ctx = new_ctx deps proxy started in
      let f = request_filter deps proxy meets shared ctx s in
      let zero_count = request_filter-count deps proxy meets shared ctx s in
      let counted = response_bodies-IsCounted f.ctx bodies (omega (arith, zero_count)) in
      let a = response_bodies f.ctx bodies in
      let conn = connection s closing a in
      let error = option_map classify_proxy_error closing.error in
      let written =
        finish-some trust closing.enabled a conn error closing.timestamp closing.at info warn in
      (
        (record_of trust a conn error closing.timestamp written.0).1,
        written.1,
        record_of-IsLogged f a conn closing.error closing.timestamp written.0 counted.action
            counted.reason (request_filter-IsDecided deps proxy meets shared ctx s),
        record_of-bytes a conn error closing.timestamp written.0
            ∙ omega (arith, counted.counted, zero_count),
      )
