-- ===== src/Audit.antt =====
-- The append-only audit trail (internal/service/audit.go, internal/model/audit.go).
-- Services are looked up through a parameter; the statement that inserts may fail.
use touchgrass.Base.{
  ℕ, Bool, true, false, not, Text, is_empty, Option, none, some, List, [], ◌∷◌, ◌++◌,
}
use touchgrass.Base.Results.{invalid_input, database, Result, ok, err, Method, ◌>>◌, require, when}

pub data Action : Type 0 where
  cutover rollback login deploy : Action
  service_create service_delete : Action
  user_create user_update user_delete : Action
  container_approve container_ignore : Action
  security_acknowledge security_resolve security_suppress : Action
  security_policy_create security_policy_update security_policy_delete : Action
  other_action : Text → Action

pub data Outcome : Type 0 where
  success failure : Outcome
  other_outcome : Text → Outcome

-- `AuditRecord`: an empty service id records a global action.
pub record AuditRecord : Type 0 where
  pub service_id : Text
  pub actor : Text
  pub action : Action
  pub outcome : Outcome
  pub detail : Text

-- `Audit`: a stored entry.
pub record Entry : Type 0 where
  pub service_id : Option Text
  pub actor : Text
  pub action : Action
  pub outcome : Outcome
  pub detail : Text
  pub created_at : ℕ

unfoldable pub is_supported : Action → Bool
is_supported (other_action a) = false
is_supported _ = true

unfoldable pub is_outcome : Outcome → Bool
is_outcome (other_outcome o) = false
is_outcome _ = true

-- `AuditStore.Insert`: one row is appended, or the statement fails.
unfoldable pub append_entry : Bool → Entry → Method (List Entry) (Unit {0})
append_entry true e trail = (err database, trail)
append_entry false e trail = (ok tt, trail ++ e ∷ [])

-- `Audit.Record`, with `services.Get`, the fate of the insert and the time.
unfoldable pub record_audit :
    (Text → Result (Unit {0})) → Bool → ℕ → AuditRecord → Method (List Entry) (Unit {0})
unfolding is_supported is_outcome append_entry is_empty
record_audit get fails now r = do
  when (not (is_empty r.service_id)) (λ trail. get r.service_id)
  require (is_supported r.action) invalid_input
  require (is_outcome r.outcome) invalid_input
  require (not (is_empty r.actor)) invalid_input
  append_entry fails (record {
    service_id = elim (is_empty r.service_id) [ true ↦ none | false ↦ some r.service_id ];
    actor = r.actor;
    action = r.action;
    outcome = r.outcome;
    detail = r.detail;
    created_at = now;
  })
