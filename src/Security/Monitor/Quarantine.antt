-- ===== src/Security/Monitor/Quarantine.antt =====
-- packages/security/src/monitor.ts: `quarantine`, `release` and `isQuarantined` together.
use sandstorm_monorepo.Common.{
  String, ◌≡◌, refl, inl, inr, Bool, true, none, some, List, [], ◌∷◌, ◌==◌, string_eq, any, arith,
  Bool-cases, beq_refl,
}
use sandstorm_monorepo.Common.Dict.{get, set, values, get-set, delete-set}
use sandstorm_monorepo.Common.Result.{ok, throw}
use sandstorm_monorepo.Core.Security.{SecurityEvent, QuarantineRecord}
use sandstorm_monorepo.Security.Monitor.{
  SecurityMonitor, Stamp, released, quarantine, release, is_quarantined,
}

any-set :
    (p : QuarantineRecord → Bool) (k : String) (r : QuarantineRecord)
    (m : List (String × QuarantineRecord))
    → p r ≡ true
    → any p (values (set k r m)) ≡ true
any-set p k r [] h = ground (arith, h)
any-set p k r ((j, q) ∷ m) h = elim (Bool-cases (j == k)) [
  | inl same ↦ rw same (rw h refl)
  | inr other ↦ rw other (ground (arith, any-set p k r m h))
]

pub is_quarantined-quarantine :
    (stamp : Stamp) (sandbox_id reason : String) (event : SecurityEvent) (monitor : SecurityMonitor)
    → is_quarantined sandbox_id (quarantine stamp sandbox_id reason event monitor).0 ≡ true
unfolding is_quarantined quarantine
is_quarantined-quarantine stamp sandbox_id reason event monitor =
    any-set _ stamp.id _ monitor.quarantines (ground (arith, beq_refl sandbox_id))

-- Releasing a fresh quarantine gives back the monitor as it was, and emits the record with its end;
-- releasing an id that is not there throws and changes nothing.
pub release-quarantine :
    (stamp : Stamp) (sandbox_id reason now : String) (event : SecurityEvent)
    (monitor : SecurityMonitor)
    → get stamp.id monitor.quarantines ≡ none
    → let (held, r) = quarantine stamp sandbox_id reason event monitor in
      (release now stamp.id held ≡ (monitor, ok (released (record r { end_time = some now }) ∷ [])))
      × (release now stamp.id monitor ≡ (monitor, throw "Quarantine record not found"))
unfolding quarantine release
release-quarantine stamp sandbox_id reason now event monitor fresh =
    let held = quarantine stamp sandbox_id reason event monitor in
    (
      rw (get-set stamp.id stamp.id held.1 monitor.quarantines)
          (rw (beq_refl stamp.id) (rw (delete-set stamp.id held.1 monitor.quarantines fresh) refl)),
      rw fresh refl,
    )
