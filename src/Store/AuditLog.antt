-- ===== src/Store/AuditLog.antt =====
-- shared/db.py: `audit`.
use trading_cat.Base.{◌++◌, [], ◌∷◌, none, some, String}
use trading_cat.Base.Action.{modify}
use trading_cat.Store.{Store, Method, Audit, AuditEvent, Entity, fill_dedupe}

unfoldable pub write_audit : Audit → Store → Store
write_audit a s = record s { audit_log = s.audit_log ++ a ∷ [] }

unfoldable pub audit : AuditEvent → Entity → Method Unit
audit event entity =
    modify (write_audit (record { event = event; entity = entity; dedupe_key = none }))

-- The marker whose key is read back.
unfoldable pub audit_dedupe : Entity → String → Method Unit
audit_dedupe entity key =
    modify (write_audit (record { event = fill_dedupe; entity = entity; dedupe_key = some key }))
