-- ===== src/Core/Audits.antt =====
-- shared/db.py: `audit`, on the core store.
use trading_cat.Base.{String, [], ◌∷◌, ◌++◌}
use trading_cat.Base.Action.{modify}
use trading_cat.Core.{Core, CoreMethod, CoreAudit, CoreEvent}

unfoldable pub write_core : CoreAudit → Core → Core
write_core a s = record s { audit_log = s.audit_log ++ a ∷ [] }

unfoldable pub audit_core : CoreEvent → String → CoreMethod Unit
audit_core event entity_id = modify (write_core (record { event = event; entity_id = entity_id }))
