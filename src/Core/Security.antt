-- ===== src/Core/Security.antt =====
-- packages/core/src/types.ts and packages/security/src/types.ts: security events and policies.
-- `details` is left as the text of its JSON; the code reads of it only what the models name.
use sandstorm_monorepo.Common.{ℕ, zero, suc, String, ◌≡◌, refl, Bool, Option, List, Eq, eq_of_code}
use sandstorm_monorepo.Core.Provider.{SandboxProvider}

pub data SecurityEventType : Type 0 where
  file_access network_activity process_spawn privilege_escalation : SecurityEventType
  resource_limit suspicious_behavior policy_violation : SecurityEventType
  quarantine compliance_check : SecurityEventType

abbrev pub type_position : SecurityEventType → ℕ
type_position file_access = 0
type_position network_activity = 1
type_position process_spawn = 2
type_position privilege_escalation = 3
type_position resource_limit = 4
type_position suspicious_behavior = 5
type_position policy_violation = 6
type_position quarantine = 7
type_position compliance_check = 8

abbrev pub type_at : ℕ → SecurityEventType
type_at zero = file_access
type_at (suc zero) = network_activity
type_at (suc (suc zero)) = process_spawn
type_at (suc (suc (suc zero))) = privilege_escalation
type_at (suc (suc (suc (suc zero)))) = resource_limit
type_at (suc (suc (suc (suc (suc zero))))) = suspicious_behavior
type_at (suc (suc (suc (suc (suc (suc zero)))))) = policy_violation
type_at (suc (suc (suc (suc (suc (suc (suc zero))))))) = quarantine
type_at _ = compliance_check

pub type_at-type_position : (t : SecurityEventType) → type_at (type_position t) ≡ t
type_at-type_position file_access = refl
type_at-type_position _ = refl

instance abbrev pub event_type_eq : Eq SecurityEventType
event_type_eq = eq_of_code type_position type_at type_at-type_position

pub data SecuritySeverity : Type 0 where
  low medium high critical : SecuritySeverity

abbrev pub severity_position : SecuritySeverity → ℕ
severity_position low = 0
severity_position medium = 1
severity_position high = 2
severity_position critical = 3

abbrev pub severity_at : ℕ → SecuritySeverity
severity_at zero = low
severity_at (suc zero) = medium
severity_at (suc (suc zero)) = high
severity_at _ = critical

pub severity_at-severity_position : (s : SecuritySeverity) → severity_at (severity_position s) ≡ s
severity_at-severity_position low = refl
severity_at-severity_position _ = refl

instance abbrev pub severity_eq : Eq SecuritySeverity
severity_eq = eq_of_code severity_position severity_at severity_at-severity_position

pub record EventMetadata : Type 0 where
  pub pid : Option ℕ
  pub uid : Option ℕ
  pub gid : Option ℕ
  pub executable : Option String
  pub source_ip : Option String
  pub destination_ip : Option String
  pub port : Option ℕ
  pub file_path : Option String
  pub syscall : Option String

pub record SecurityEvent : Type 0 where
  pub id : String
  pub event_type : SecurityEventType
  pub severity : SecuritySeverity
  pub timestamp : String
  pub sandbox_id : String
  pub provider : SandboxProvider
  pub message : String
  pub details : List (String × String)
  pub metadata : Option EventMetadata
  pub falco_rule : Option String
  pub ebpf_trace : Option String

pub data PolicyAction : Type 0 where
  allow deny alert quarantine : PolicyAction

pub record RuleCondition : Type 0 where
  pub event_type : Option SecurityEventType
  pub severity : Option SecuritySeverity
  pub pattern : Option String
  pub threshold : Option ℕ
  pub time_window : Option ℕ

pub record SecurityRule : Type 0 where
  pub id : String
  pub name : String
  pub description : String
  pub condition : RuleCondition
  pub action : PolicyAction
  pub notifications : Option (List String)

pub data SecurityTier : Type 0 where
  basic shield : SecurityTier

pub record SecurityPolicy : Type 0 where
  pub id : String
  pub name : String
  pub description : String
  pub enabled : Bool
  pub rules : List SecurityRule
  pub tier : SecurityTier
  pub created_at : String
  pub updated_at : String

pub record QuarantineRecord : Type 0 where
  pub id : String
  pub sandbox_id : String
  pub reason : String
  pub triggered_by : SecurityEvent
  pub start_time : String
  pub end_time : Option String
  pub auto_release : Bool
  pub release_conditions : Option (List String)

-- The texts that stand for the types and severities.
abbrev pub type_name : SecurityEventType → String
type_name file_access = "file_access"
type_name network_activity = "network_activity"
type_name process_spawn = "process_spawn"
type_name privilege_escalation = "privilege_escalation"
type_name resource_limit = "resource_limit"
type_name suspicious_behavior = "suspicious_behavior"
type_name policy_violation = "policy_violation"
type_name SecurityEventType.quarantine = "quarantine"
type_name compliance_check = "compliance_check"

abbrev pub severity_name : SecuritySeverity → String
severity_name low = "low"
severity_name medium = "medium"
severity_name high = "high"
severity_name critical = "critical"
