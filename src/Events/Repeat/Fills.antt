-- ===== src/Events/Repeat/Fills.antt =====
-- execution/broker.py: once a fill is taken in, the same report never adds a fill again.
use mathlib.Core.Path.{subst}
use trading_cat.Base.{
  String, ◌≡◌, ◌≢◌, refl, sym, Bool, true, false, ◌⊎◌, inl, inr, ◌||◌, All, Bool-cases,
  Option-cases,
}
use trading_cat.Base.Int.{ℤ, pos, leb_ℤ}
use trading_cat.Base.Action.{◌>>=◌, ◌>>◌, Result, ok, err, roll_back, continue_with}
use trading_cat.Text.{codes}
use trading_cat.Store.{
  Store, Error, Method, Intent, Entity, AuditEvent, fill_recorded, fill_duplicate_ignored,
  fill_ignored,
}
use trading_cat.Store.AuditLog.{audit, audit_dedupe, write_audit}
use trading_cat.Store.Intents.{get_intent}
use trading_cat.Store.Fills.{filled_quantity}
use trading_cat.Base.Tables.{Grows-append}
use trading_cat.Evolution.{Evolves, Same}
use trading_cat.Events.Repeat.Marker.{IsPrintable, is_marker_self, any-last, any-Grows}
use trading_cat.Events.{
  Event, Fingerprint, dedupe_key, is_duplicate, is_marker, is_dead, settle, record_fill, fill_rest,
  fill_new, fill_once, fill_row, fill_body, on_filled, remaining,
}

-- What holds of the store after a method that returns.
abbrev OnOk : {A : Type 0} → (Store → Type 0) → Result Error A × Store → Type 0
OnOk P (ok a, t) = P t
OnOk P (err e, t) = Unit

continue_with-OnOk :
    {A B : Type 0} (P : Store → Type 0) (f : A → Method B)
    → ((a : A) (t : Store) → OnOk P (f a t))
    → (r : Result Error A × Store) → OnOk P (continue_with f r)
continue_with-OnOk P f h (ok a, t) = h a t
continue_with-OnOk P f h (err e, t) = tt

bind-OnOk :
    {A B : Type 0} (P : Store → Type 0) (m : Method A) (f : A → Method B)
    → ((a : A) (t : Store) → OnOk P (f a t))
    → (s : Store) → OnOk P ((m >>= f) s)
unfolding ◌>>=◌
bind-OnOk P m f h s = continue_with-OnOk P f h (m s)

module _ (key : String) (h : All IsPrintable (codes key)) (e : Event) where
  abbrev IsMarked : Store → Type 0
  IsMarked s = is_duplicate e.intent_id key s ≡ true

  marked : (s : Store) → IsMarked (audit_dedupe (Entity.intent e.intent_id) key s).1
  unfolding audit_dedupe write_audit is_duplicate ◌>>=◌
  marked s =
      any-last (is_marker e.intent_id key) s.audit_log _ (is_marker_self e.intent_id key _ refl h)

  audited-IsMarked :
      (event : AuditEvent) (entity : Entity) (s : Store)
      → IsMarked s
      → IsMarked (audit event entity s).1
  unfolding audit write_audit is_duplicate ◌>>=◌
  audited-IsMarked event entity s k =
      any-Grows (is_marker e.intent_id key) s.audit_log _
        (Grows-append Same (λ x. refl) s.audit_log _) k

  settle_end :
      (s : Store)
      → OnOk IsMarked (
          (do
            audit_dedupe (Entity.intent e.intent_id) key
            audit fill_recorded (Entity.intent e.intent_id))
            s)
  unfolding ◌>>=◌ audit audit_dedupe
  settle_end s = audited-IsMarked fill_recorded (Entity.intent e.intent_id) _ (marked s)

  settle-marks : (s : Store) → OnOk IsMarked (settle key e s)
  unfolding settle
  settle-marks = bind-OnOk IsMarked _ _ λ found t.
      bind-OnOk IsMarked _ _
        (λ row u.
          bind-OnOk IsMarked _ _ (λ total v. bind-OnOk IsMarked _ _ (λ changed w. settle_end w) v)
            u)
        t

  record_fill-marks : (q : ℤ) (s : Store) → OnOk IsMarked (record_fill key e q s)
  unfolding record_fill
  record_fill-marks q =
      bind-OnOk IsMarked _ _
        λ a t. bind-OnOk IsMarked _ _ (λ b u. bind-OnOk IsMarked _ _ (λ c v. settle-marks v) u) t

  -- A fill is either left out, or marked.
  abbrev IsTaken : Store → Result {0, 0} Error Unit × Store → Type 0
  IsTaken s (ok a, t) = (t.fills ≡ s.fills) ⊎ IsMarked t
  IsTaken s (err x, t) = Unit

  left_out :
      (event : AuditEvent) (s : Store) → IsTaken s (audit event (Entity.intent e.intent_id) s)
  unfolding audit write_audit ◌>>=◌
  left_out event s = inl refl

  taken : (s : Store) (r : Result Error Unit × Store) → OnOk IsMarked r → IsTaken s r
  taken s (ok a, t) k = inr k
  taken s (err x, t) k = tt

  fill_once-IsTaken : (b : Bool) (row : Intent) (s : Store) → IsTaken s (fill_once b key e row s)
  unfolding fill_once fill_new fill_rest ◌>>=◌
  fill_once-IsTaken true row s = left_out fill_duplicate_ignored s
  fill_once-IsTaken false row s =
      elim (Bool-cases (leb_ℤ (remaining row (filled_quantity e.intent_id s)) (pos 1))) [
        | inl spent ↦ rw spent (left_out fill_duplicate_ignored s)
        | inr left ↦ rw left (taken s _ (record_fill-marks _ s))
      ]

  module _ (sha256 : Fingerprint) (same : dedupe_key sha256 e ≡ key) where
    fill_row-IsTaken : (row : Intent) (s : Store) → IsTaken s (fill_row sha256 e row s)
    unfolding fill_row ◌>>=◌
    fill_row-IsTaken row s = elim (Bool-cases (is_dead row.status || leb_ℤ e.quantity (pos 0))) [
      | inl dead ↦ rw dead (left_out fill_ignored s)
      | inr alive ↦ rw (alive, same) (fill_once-IsTaken (is_duplicate e.intent_id key s) row s)
    ]

    rolled_back :
        (s : Store) (r : Result Error Unit × Store)
        → IsTaken s r
        → ((roll_back s r).1.fills ≡ s.fills) ⊎ IsMarked (roll_back s r).1
    rolled_back s (ok a, t) k = k
    rolled_back s (err x, t) k = inl refl

    -- A report of a fill adds no fill, or leaves the marker of its key.
    on_filled-marks :
        (s : Store) → ((on_filled sha256 e s).1.fills ≡ s.fills) ⊎ IsMarked (on_filled sha256 e s).1
    unfolding on_filled fill_body ◌>>=◌
    on_filled-marks s = elim (Option-cases (get_intent e.intent_id s)) [
      | inl gone ↦ rw gone (inl refl)
      | inr (row, found) ↦ rw found (rolled_back s _ (fill_row-IsTaken row s))
    ]

    -- At a store with the marker, a report of the key adds no fill.
    marked-adds_none : (s : Store) → IsMarked s → (on_filled sha256 e s).1.fills ≡ s.fills
    unfolding on_filled fill_body fill_row fill_once audit write_audit ◌>>=◌
    marked-adds_none s k = elim (Option-cases (get_intent e.intent_id s)) [
      | inl gone ↦ rw gone refl
      | inr (row, found) ↦ elim (Bool-cases (is_dead row.status || leb_ℤ e.quantity (pos 0))) [
        | inl dead ↦ rw (found, dead) refl
        | inr alive ↦ rw (found, alive, same, k) refl
      ]
    ]

    IsMarked-stays : (s t : Store) → Evolves s t → IsMarked s → IsMarked t
    unfolding is_duplicate
    IsMarked-stays s t v k =
        any-Grows (is_marker e.intent_id key) s.audit_log t.audit_log v.audit_log k

-- A fill whose key is printable ASCII is counted once: if its first report added a fill, then at
-- every later store, whatever happened in between, a report with the same order and key adds none.
pub on_filled_once :
    (sha256 : Fingerprint) (e again : Event) (s t : Store)
    → All IsPrintable (codes (dedupe_key sha256 e))
    → again.intent_id ≡ e.intent_id
    → dedupe_key sha256 again ≡ dedupe_key sha256 e
    → (on_filled sha256 e s).1.fills ≢ s.fills
    → Evolves (on_filled sha256 e s).1 t
    → (on_filled sha256 again t).1.fills ≡ t.fills
on_filled_once sha256 e again s t h same_order same_key added later =
    elim (on_filled-marks (dedupe_key sha256 e) h e sha256 refl s) [
      | inl none_added ↦ elim (added none_added) [ ]
      | inr marked_then ↦ marked-adds_none (dedupe_key sha256 e) h again sha256 same_key t (
          subst (λ k. is_duplicate k (dedupe_key sha256 e) t ≡ true) (sym same_order)
            (IsMarked-stays (dedupe_key sha256 e) h e sha256 refl _ t later marked_then))
    ]
