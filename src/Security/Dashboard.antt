-- ===== src/Security/Dashboard.antt =====
-- packages/security/src/dashboard.ts: the alerts of `SecurityDashboard`. Ids and times of alerts are
-- arguments.
pub mod Alerts
use sandstorm_monorepo.Common.{
  ℕ, String, Bool, true, false, not, List, [], ◌∷◌, ◌++◌, if◌then◌else◌, ltb, ◌==◌, string_eq,
  length, slice_last, filter,
}

pub record Alert : Type 0 where
  pub id : String
  pub severity : String
  pub message : String
  pub timestamp : String
  pub acknowledged : Bool

abbrev pub new_alert : String → String → String → String → Alert
new_alert id now severity message = record {
  id = id;
  severity = severity;
  message = message;
  timestamp = now;
  acknowledged = false;
}

unfoldable pub create_alert : String → String → String → String → List Alert → List Alert
create_alert id now severity message alerts =
    let pushed = alerts ++ new_alert id now severity message ∷ [] in
    if ltb 1000 (length pushed) then slice_last 1000 pushed else pushed

-- The first alert of the id is marked.
unfoldable pub acknowledge_alert : String → List Alert → List Alert
acknowledge_alert id [] = []
acknowledge_alert id (a ∷ es) =
    let rest = acknowledge_alert id es in
    if a.id == id then record a { acknowledged = true } ∷ es else a ∷ rest

unfoldable pub get_active_alerts : List Alert → List Alert
get_active_alerts alerts = filter (λ (a : Alert). not a.acknowledged) alerts
