-- ===== src/Env.antt =====
-- What the mission and weighbridge requests take from the rest of the backend at the time of the
-- request: the registered owners and households, the fare of a weight, the finance policies and
-- rules, the geofences and the clock. Each is read by the requests and written by none of them.
use Prim.Native.String.{String}
use logestic.Prelude.{ℕ, Bool, Option}
use logestic.Prelude.Int.{ℤ}
use logestic.Fsm.{MissionStatus}
use logestic.Ledger.Split.{Policies}

-- A fleet owner or a household of stores/entitiesStore.ts; `approved` is `status === "APPROVED"`.
pub record Party : Type 0 where
  pub cooperative_id : Option ℕ
  pub approved : Bool

-- The result of `computeFareTonnage`, in hundredths.
pub record Fare : Type 0 where
  pub total_fare : ℤ
  pub rate : ℤ
  pub rate_card_id : Option ℕ

-- Distances and radii are in millimetres, rounded up.
pub record Fence : Type 0 where
  pub lat : ℤ
  pub lng : ℤ
  pub radius_m : ℕ

pub record Env : Type 0 where
  pub now : ℕ
  pub find_fleet_owner : ℕ → Option Party
  pub find_household : ℕ → Option Party
  -- by net weight, material, mine and cooperative; `none` where it throws
  pub compute_fare : ℤ → String → ℕ → Option ℕ → Option Fare
  pub policies : Policies
  -- `ruleEngine.getPeriodKey` by mine and cooperative; `none` where it throws
  pub period_key : ℕ → Option ℕ → Option ℕ
  -- `reverse.window_hours` of a mine, in milliseconds; `none` where it throws
  pub reverse_window : ℕ → Option ℕ
  -- `weighbridge.threshold` of a mine, in millionths; `none` where it throws
  pub anomaly_threshold : ℕ → Option ℕ
  pub is_dev_auth_enabled : Bool
  pub geofence : ℕ → MissionStatus → Option Fence
  pub haversine_distance : ℤ → ℤ → ℤ → ℤ → ℕ
