-- ===== src/Audit.antt =====
-- backend/app/services/audit.py and backend/app/models/audit_log.py: the append-only audit trail.
pub mod Trail
use employed.Base.{
  Bool, List, Option, String, [], false, if◌then◌else◌, list_eq, nat_eq, none, option_eq, some,
  string_eq, true, ℕ, ◌++◌, ◌==◌, ◌∷◌,
}
use employed.Base.Outcome.{Outcome, ok, raised}
use employed.Base.Dict.{Dict}
use employed.Json.{Json}

-- `AuditLog`, less the columns that the database fills in.
pub record AuditLog : Type 0 where
  pub actor_id : Option ℕ
  pub actor_label : Option String
  pub action : String
  pub target_type : String
  pub target_id : ℕ
  pub before : Option (Dict String Json)
  pub after : Option (Dict String Json)

pub data AuditError : Type 0 where
  value_error immutable_record_error : AuditError

-- `actor is None and not actor_label`
unfoldable pub lacks_actor : Option ℕ → Option String → Bool
lacks_actor (some a) label = false
lacks_actor none none = true
lacks_actor none (some l) = l == ""

-- The row that a call adds.
unfoldable pub audit_entry :
    Option ℕ
    → Option String
    → String
    → String
    → ℕ
    → Option (Dict String Json)
    → Option (Dict String Json)
    → AuditLog
audit_entry actor label action target_type target_id before after = record {
  actor_id = actor;
  actor_label = label;
  action = action;
  target_type = target_type;
  target_id = target_id;
  before = before;
  after = after;
}

-- `write_audit`: the error leaves the trail alone, since nothing was added before the check.
unfoldable pub write_audit :
    Option ℕ
    → Option String
    → String
    → String
    → ℕ
    → Option (Dict String Json)
    → Option (Dict String Json)
    → List AuditLog
    → Outcome AuditError (AuditLog × List AuditLog)
unfolding lacks_actor audit_entry
write_audit actor label action target_type target_id before after trail =
    let entry = audit_entry actor label action target_type target_id before after in
    if lacks_actor actor label then raised value_error else ok (entry, trail ++ entry ∷ [])

-- The `before_update` listener of both append-only tables.
unfoldable pub block_mutation {ℓ} : {A : Type ℓ} → A → Outcome AuditError A
block_mutation row = raised immutable_record_error
