-- ===== src/Missions/Payment.antt =====
-- The payment of a mission in apps/backend/src/stores/missionStore.ts: hold, release, reversal
-- within a window, and an adjustment after the settlement. The audit log gets the values that the
-- source records; an absent time is null.
pub mod Laws
use Prim.Native.String.{String}
use logestic.Prelude.{ℕ, ◌-◌, Bool, true, false, not, ◌||◌, Option, none, some, List, [], ◌∷◌, ltb}
use logestic.Reasons.{Reason, rule_not_configured}
use logestic.Fsm.{settled, status_eq}
use logestic.Store.{Action, ◌>>=◌, ◌>>◌, pure, gets, or_refuse, or_throw, refuse_if}
use logestic.Store.Tables.{
  Mission, PaymentState, pending, calculated, distributed, held, failed, AuditLog, AuditField,
  Event,
}
use logestic.Env.{Env}
use logestic.Missions.{publish, record_audit, payment_patch, get_mission_by_id, update_mission}

abbrev pub payment_ordinal : PaymentState → ℕ
payment_ordinal pending = 0
payment_ordinal calculated = 1
payment_ordinal distributed = 2
payment_ordinal PaymentState.settled = 3
payment_ordinal held = 4
payment_ordinal failed = 5

abbrev pub is_settled : PaymentState → Bool
is_settled PaymentState.settled = true
is_settled _ = false

abbrev is_held : PaymentState → Bool
is_held held = true
is_held _ = false

abbrev time_field : Option ℕ → AuditField
time_field none = AuditField.null
time_field (some t) = AuditField.time t

abbrev payment_audit :
    ℕ → String → List (String × AuditField) → List (String × AuditField) → ℕ → String → AuditLog
payment_audit i action before after user reason = record {
  entity_type = "mission_payment";
  entity_id = i;
  action = action;
  before_value = before;
  after_value = after;
  performed_by_user_id = user;
  reason = reason;
}

unfoldable pub hold_mission_payment : ℕ → String → ℕ → Action Mission
unfolding get_mission_by_id
hold_mission_payment i reason user = do
  mission ← or_refuse (← gets (get_mission_by_id i)) Reason.mission_not_found
  refuse_if (is_settled mission.payment_state) Reason.already_settled
  updated ← or_refuse (← update_mission i (payment_patch held)) Reason.update_failed
  record_audit (
      payment_audit i "HOLD"
        (("payment_state", AuditField.payment_state mission.payment_state) ∷ [])
        (("payment_state", AuditField.payment_state held) ∷ []) user reason)
  publish (Event.payment_hold i reason)
  pure updated

unfoldable pub release_mission_payment : ℕ → String → ℕ → Action Mission
unfolding get_mission_by_id
release_mission_payment i reason user = do
  mission ← or_refuse (← gets (get_mission_by_id i)) Reason.mission_not_found
  refuse_if (not (is_held mission.payment_state)) Reason.mission_not_held
  updated ← or_refuse (← update_mission i (payment_patch distributed)) Reason.update_failed
  record_audit (
      payment_audit i "RELEASE"
        (("payment_state", AuditField.payment_state mission.payment_state) ∷ [])
        (("payment_state", AuditField.payment_state distributed) ∷ []) user reason)
  publish (Event.payment_release i reason)
  pure updated

-- Whether the window of a verified mission is over. `-` stops at 0, as a verification in the
-- future has a negative age, which no window is shorter than.
abbrev pub window_expired : Env → ℕ → ℕ → Bool
window_expired env verified window = ltb window (env.now - verified)

unfoldable pub reverse_mission_payment : Env → ℕ → String → ℕ → Action Mission
unfolding get_mission_by_id
reverse_mission_payment env i reason user = do
  mission ← or_refuse (← gets (get_mission_by_id i)) Reason.mission_not_found
  refuse_if (status_eq mission.status settled || is_settled mission.payment_state)
      Reason.cannot_reverse_settled
  verified ← or_refuse mission.verified_at Reason.not_verified
  window ← or_throw (env.reverse_window mission.mine_id) rule_not_configured
  refuse_if (window_expired env verified window) Reason.reverse_window_expired
  updated ← or_refuse (← update_mission i (payment_patch failed)) Reason.update_failed
  record_audit (
      payment_audit i "REVERSAL"
        (("payment_state", AuditField.payment_state mission.payment_state)
          ∷ ("mission_status", AuditField.mission_status mission.status)
          ∷ ("verified_at", time_field mission.verified_at)
          ∷ [])
        (("payment_state", AuditField.payment_state failed)
          ∷ ("mission_status", AuditField.mission_status mission.status)
          ∷ [])
        user reason)
  publish (Event.payment_reverse i reason)
  publish (Event.payment_failed i reason)
  pure updated

abbrev text_or_null : Option String → AuditField
text_or_null none = AuditField.null
text_or_null (some t) = AuditField.text t

unfoldable pub create_post_settled_adjustment :
    ℕ → String → Option String → ℕ → Action (ℕ × String × Option String)
unfolding get_mission_by_id
create_post_settled_adjustment i reason bank_reference user = do
  mission ← or_refuse (← gets (get_mission_by_id i)) Reason.mission_not_found
  refuse_if (not (status_eq mission.status settled)) Reason.mission_not_settled
  record_audit (record {
    entity_type = "mission_post_settled_adjustment";
    entity_id = i;
    action = "POST_SETTLED_ADJUSTMENT";
    before_value =
        ("mission_status", AuditField.mission_status mission.status)
        ∷ ("payment_state", AuditField.payment_state mission.payment_state)
        ∷ [];
    after_value =
        ("mission_status", AuditField.mission_status mission.status)
        ∷ ("payment_state", AuditField.payment_state mission.payment_state)
        ∷ ("bank_reference", text_or_null bank_reference)
        ∷ [];
    performed_by_user_id = user;
    reason = reason;
  })
  pure (i, reason, bank_reference)
