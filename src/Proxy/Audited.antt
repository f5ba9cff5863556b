-- ===== src/Proxy/Audited.antt =====
-- The audit line that `logging` of proxy/src/main.rs writes after `request_filter`.
use den_browser.Prelude.{ℕ, ◌≡◌, ◌∙◌, Bool, true, false, Option, none, some, Text, arith}
use den_browser.Machine.{Trust}
use den_browser.Audit.Reason.{Reason, stage, risk}
use den_browser.Audit.Record.{Action, Outcome, Level, Connection, AuditRecord}
use den_browser.Audit.Request.{RequestAudit, refusal_action, outcome, level}
use den_browser.Audit.Finish.{reported, settle, name_presented, line, record_of}
use den_browser.Proxy.State.{Deps, Filtered}
use den_browser.Proxy.Refusals.{IsRefused}

-- What a line says of a request that was refused for `r`.
pub record SaysRefused (r : Reason) (l : AuditRecord) : Type 0 where
  pub action : l.event.action ≡ refusal_action r
  pub reason : l.event.reason ≡ some r
  pub stage_named : l.event.stage ≡ some (stage r)
  pub risk_named : l.event.risk ≡ risk r
  pub outcome : l.event.outcome ≡ Outcome.failure
  pub level : l.level ≡ Level.warn

name_presented-kept :
    (lib : Trust) (a : RequestAudit)
    → ((name_presented lib a).action ≡ a.action) × ((name_presented lib a).reason ≡ a.reason)
unfolding name_presented
name_presented-kept lib a = ground arith

settle-refusal :
    (a : RequestAudit) (r : Reason) (error : Option (Reason × Text))
    → a.action ≡ some (refusal_action r)
    → ((settle a (reported a.action error)).action ≡ a.action)
      × ((settle a (reported a.action error)).reason ≡ a.reason)
unfolding settle reported refusal_action
settle-refusal a r error h = ground arith

failed :
    (a : RequestAudit) (r : Reason) (b : Bool)
    → a.action ≡ some (refusal_action r)
    → (outcome a b ≡ Outcome.failure) × (level a b ≡ Level.warn)
unfolding outcome level refusal_action
failed a r b h = ground arith

record_fields :
    (lib : Trust) (a : RequestAudit) (conn : Connection) (lvl : Level) (out : Outcome)
    (timestamp : Text) (duration_ms : ℕ) (action : Action) (r : Reason)
    → a.action ≡ some action
    → a.reason ≡ some r
    → ((line lib a conn lvl out timestamp duration_ms).event.action ≡ action)
      × ((line lib a conn lvl out timestamp duration_ms).event.reason ≡ some r)
      × ((line lib a conn lvl out timestamp duration_ms).event.stage ≡ some (stage r))
      × ((line lib a conn lvl out timestamp duration_ms).event.risk ≡ risk r)
unfolding line
record_fields lib a conn lvl out timestamp duration_ms action r h k =
    (ground (arith, h), k, ground (arith, k), ground (arith, k))

-- Whatever becomes of the connection afterwards, the audit line of a request that `request_filter`
-- refused gives the action, reason, stage and risk of the refusal, as a failure at level `warn`.
pub record_of-IsRefused :
    (deps : Deps) (f : Filtered deps) (refusal : IsRefused deps f) (conn : Connection)
    (error : Option (Reason × Text)) (timestamp : Text) (duration_ms : ℕ)
    → SaysRefused refusal.reason (record_of deps.trust f.ctx conn error timestamp duration_ms).1
unfolding record_of
record_of-IsRefused deps f refusal conn error timestamp duration_ms =
    let a = f.ctx in
    let r = refusal.reason in
    let bad : Bool = elim (reported a.action error) [ none ↦ false | some e ↦ true ] in
    let done = settle a (reported a.action error) in
    let kept = name_presented-kept deps.trust done in
    let same = settle-refusal a r error refusal.recorded in
    let fields =
      record_fields deps.trust (name_presented deps.trust done) conn (level a bad) (outcome a bad)
        timestamp duration_ms (refusal_action r) r (kept.0 ∙ same.0 ∙ refusal.recorded)
        (kept.1 ∙ same.1 ∙ refusal.recorded_reason) in
    let ends = failed a r bad refusal.recorded in
    record {
      action = fields.0;
      reason = fields.1;
      stage_named = fields.2;
      risk_named = fields.3;
      outcome = ends.0;
      level = ends.1;
    }
