-- ===== src/Core/Signals/Stored.antt =====
-- shared/db.py: a signal that is recorded again changes nothing.
use mathlib.Core.Path.{subst}
use trading_cat.Base.{
  ℕ, String, ◌≡◌, refl, ◌∙◌, Bool, true, false, not, ◌&&◌, ◌||◌, some, List, [], ◌∷◌, ◌++◌, arith,
  All, str_eq, eq_iff, if◌then◌else◌, Bool-cases, inl, inr, any,
}
use trading_cat.Base.Action.{Result, ok, err, ◌>>=◌, ◌>>◌, pure, immediate_transaction}
use trading_cat.Base.Action.Outcome.{
  OnOk, gets-OnOk, modify-OnOk, or_raise-OnOk, raise_if-OnOk, bind-OnOk, immediate_transaction-OnOk,
}
use trading_cat.Base.Tables.{select, select_all}
use trading_cat.Core.{
  Core, CoreError, Outbox, SignalEvent, signal_event, signal_lost, signal_changed,
}
use trading_cat.Core.Audits.{audit_core, write_core}
use trading_cat.Core.Signals.{
  SignalKey, Hashes, has_event_id, same_key, event_of, is_taken, insert_event, get_event, clashes,
  pending_row, has_outbox_id, insert_outbox, insert_channels, record_body, Recorded,
  record_signal_with_outbox, sorted_set, or_configured, by_channel,
}

-- The event has a notification on the channel.
abbrev is_notified : Hashes → String → String → Core → Bool
is_notified h id c s =
    any (λ o. has_outbox_id (h.out id c) o || (str_eq o.event_id id && str_eq o.channel c)) s.outbox

abbrev AreNotified : Hashes → String → List String → Core → Type 0
AreNotified h id cs s = All (λ c. is_notified h id c s ≡ true) cs

-- A signal of the payload stands in the table, and a notification of it on each channel.
record IsStored (h : Hashes) (k : SignalKey) (payload : String) (channels : List String) (s : Core)
    : Type 0 where
  pub event : SignalEvent
  pub found : get_event (h.event k) s ≡ some event
  pub same_payload : str_eq event.payload_json payload ≡ true
  pub notified : AreNotified h (h.event k) channels s

any-append :
    {A : Type 0} (p : A → Bool) (xs ys : List A) → any p xs ≡ true → any p (xs ++ ys) ≡ true
any-append p [] ys h = cc
any-append p (x ∷ xs) ys h = elim (Bool-cases (p x)) [
  | inl hit ↦ rw hit refl
  | inr miss ↦ rw miss (any-append p xs ys (rest miss h))
]
  where
    rest : p x ≡ false → (p x || any p xs) ≡ true → any p xs ≡ true
    rest miss k = ground (arith, miss, k)

any-snoc :
    {A : Type 0} (p : A → Bool) (xs : List A) (x : A) → p x ≡ true → any p (xs ++ x ∷ []) ≡ true
any-snoc p [] x h = rw h refl
any-snoc p (y ∷ ys) x h = elim (Bool-cases (p y)) [
  | inl hit ↦ rw hit refl
  | inr miss ↦ rw miss (any-snoc p ys x h)
]

select-any :
    {A : Type 0} (p q : A → Bool) (xs : List A) (a : A)
    → ((x : A) → p x ≡ true → q x ≡ true)
    → select p xs ≡ some a
    → any q xs ≡ true
select-any p q [] a f e = cc
select-any p q (x ∷ xs) a f e = elim (Bool-cases (p x)) [
  | inl hit ↦ rw (f x hit) refl
  | inr miss ↦ later (q x) (any q xs) (select-any p q xs a f (rest miss e))
]
  where
    later : (a b : Bool) → b ≡ true → (a || b) ≡ true
    later a b h = ground arith

    rest : p x ≡ false → (if p x then some x else select p xs) ≡ some a → select p xs ≡ some a
    rest miss k = ground (arith, miss, k)

module _ (h : Hashes) (id payload : String) (now : ℕ) where
  insert_outbox-notified :
      (c d : String) (s : Core)
      → is_notified h id d s ≡ true
      → is_notified h id d (insert_outbox (pending_row (h.out id c) id c payload now) s) ≡ true
  unfolding insert_outbox
  insert_outbox-notified c d s k = elim (Bool-cases (is_notified h id c s)) [
    | inl taken ↦ rw taken k
    | inr free ↦ rw free (any-append _ s.outbox _ k)
  ]

  insert_outbox-own :
      (c : String) (s : Core)
      → is_notified h id c (insert_outbox (pending_row (h.out id c) id c payload now) s) ≡ true
  unfolding insert_outbox
  insert_outbox-own c s = elim (Bool-cases (is_notified h id c s)) [
    | inl taken ↦ rw taken taken
    | inr free ↦
        rw free (any-snoc _ s.outbox (pending_row (h.out id c) id c payload now) (own (h.out id c)))
  ]
    where
      own : (t : String) → (str_eq t t || (str_eq id id && str_eq c c)) ≡ true
      own t = ground (arith, eq_iff t t)

  insert_outbox-get_event :
      (o : Outbox) (s : Core) → get_event id (insert_outbox o s) ≡ get_event id s
  unfolding insert_outbox get_event
  insert_outbox-get_event o s = elim (Bool-cases (any (clashes o) s.outbox)) [
    | inl taken ↦ rw taken refl
    | inr free ↦ rw free refl
  ]

  -- What the loop over the channels leaves behind.
  insert_channels-notified :
      (cs : List String) (d : String) (s : Core)
      → is_notified h id d s ≡ true
      → is_notified h id d (insert_channels h id payload now cs s).1 ≡ true
  unfolding insert_channels ◌>>=◌
  insert_channels-notified [] d s k = k
  insert_channels-notified (c ∷ cs) d s k =
      insert_channels-notified cs d (insert_outbox (pending_row (h.out id c) id c payload now) s)
        (insert_outbox-notified c d s k)

  insert_channels-AreNotified :
      (cs : List String) (s : Core) → AreNotified h id cs (insert_channels h id payload now cs s).1
  unfolding insert_channels ◌>>=◌
  insert_channels-AreNotified [] s = tt
  insert_channels-AreNotified (c ∷ cs) s =
      let next = insert_outbox (pending_row (h.out id c) id c payload now) s in
      (
        insert_channels-notified cs c next (insert_outbox-own c s),
        insert_channels-AreNotified cs next,
      )

  insert_channels-get_event :
      (cs : List String) (s : Core)
      → get_event id (insert_channels h id payload now cs s).1 ≡ get_event id s
  unfolding insert_channels ◌>>=◌
  insert_channels-get_event [] s = refl
  insert_channels-get_event (c ∷ cs) s =
      insert_channels-get_event cs (insert_outbox (pending_row (h.out id c) id c payload now) s)
      ∙ insert_outbox-get_event (pending_row (h.out id c) id c payload now) s

  -- With all notifications there, the loop writes nothing.
  insert_channels-again :
      (cs : List String) (s : Core)
      → AreNotified h id cs s
      → insert_channels h id payload now cs s ≡ (ok tt, s)
  unfolding insert_channels ◌>>=◌ insert_outbox
  insert_channels-again [] s k = refl
  insert_channels-again (c ∷ cs) s k = rw k.0 (insert_channels-again cs s k.1)

insert_channels-OnOk :
    (h : Hashes) (id payload : String) (now : ℕ) (cs : List String) (s : Core)
    → OnOk
        (λ _ t. AreNotified h id cs t × (get_event id t ≡ get_event id s))
        (insert_channels h id payload now cs s)
insert_channels-OnOk h id payload now cs s =
    of_run (insert_channels h id payload now cs s)
      (insert_channels-AreNotified h id payload now cs s)
      (insert_channels-get_event h id payload now cs s)
  where
    of_run :
        (r : Result CoreError Unit × Core)
        → AreNotified h id cs r.1
        → get_event id r.1 ≡ get_event id s
        → OnOk (λ _ t. AreNotified h id cs t × (get_event id t ≡ get_event id s)) r
    of_run (ok a, t) x y = (x, y)
    of_run (err e, t) x y = tt

module _ (h : Hashes) (k : SignalKey) (payload : String) (cs : List String) (now : ℕ) where
  audited-IsStored :
      (event : SignalEvent) (t : Core) (b : Bool)
      → get_event (h.event k) t ≡ some event
      → str_eq event.payload_json payload ≡ true
      → AreNotified h (h.event k) cs t
      → OnOk
          (λ _ u. IsStored h k payload cs u)
          ((audit_core signal_event (h.event k) >> pure (not b)) t)
  unfolding audit_core write_core get_event ◌>>=◌
  audited-IsStored event t b found same done = record {
    event = event;
    found = found;
    same_payload = same;
    notified = done;
  }

  is_taken_lem :
      (s : Core) (e : SignalEvent)
      → get_event (h.event k) s ≡ some e
      → is_taken (h.event k) k s ≡ true
  unfolding get_event
  is_taken_lem s e found =
      select-any (has_event_id (h.event k)) (λ e. has_event_id (h.event k) e || same_key k e)
        s.signal_events e (λ x hit. either (has_event_id (h.event k) x) (same_key k x) hit) found
    where
      either : (a b : Bool) → a ≡ true → (a || b) ≡ true
      either a b e = ground arith

  record_body-IsStored :
      (s : Core) → OnOk (λ _ t. IsStored h k payload cs t) (record_body h k payload cs now s)
  unfolding record_body
  record_body-IsStored s = gets-OnOk _ (is_taken (h.event k) k) _ s (
      modify-OnOk _ (insert_event (event_of (h.event k) k payload) k) _ s (
        gets-OnOk _ (get_event (h.event k)) _ inserted (
          or_raise-OnOk _ (get_event (h.event k) inserted) signal_lost _ inserted λ event found.
            raise_if-OnOk _ _ signal_changed _ inserted λ same.
              bind-OnOk _
                (λ _ t.
                  AreNotified h (h.event k) cs t
                  × (get_event (h.event k) t ≡ get_event (h.event k) inserted))
                _ _ inserted (insert_channels-OnOk h (h.event k) payload now cs inserted)
                λ _ t done.
                  audited-IsStored event t (is_taken (h.event k) k s) (done.1 ∙ found)
                    (of_not (str_eq event.payload_json payload) same) done.0)))
    where
      inserted : Core
      inserted = insert_event (event_of (h.event k) k payload) k s

      of_not : (b : Bool) → not b ≡ false → b ≡ true
      of_not b e = ground arith

  record_body-again :
      (s : Core)
      → IsStored h k payload cs s
      → record_body h k payload cs now s ≡ (ok false, (audit_core signal_event (h.event k) s).1)
  unfolding record_body ◌>>=◌ insert_event audit_core
  record_body-again s stored =
      rw
        (
          is_taken_lem s stored.event stored.found,
          stored.found,
          stored.same_payload,
          insert_channels-again h (h.event k) payload now cs s stored.notified,
        )
        refl

module _ (h : Hashes) (k : SignalKey) (payload : String) (channels : List String) (now : ℕ) where
  abbrev all_channels : List String
  all_channels = sorted_set (or_configured channels)

  abbrev IsAnswer : Recorded → Core → Type 0
  IsAnswer r t =
      IsStored h k payload all_channels t
      × ((r.event ≡ get_event (h.event k) t)
          × (r.outbox ≡ by_channel (select_all (λ o. str_eq o.event_id (h.event k)) t.outbox)))

  recorded-IsAnswer :
      (s : Core) → OnOk IsAnswer (record_signal_with_outbox h k payload channels now s)
  unfolding record_signal_with_outbox pure
  recorded-IsAnswer s =
      bind-OnOk _ (λ _ t. IsStored h k payload all_channels t) _ _ s
        (immediate_transaction-OnOk _ _ s (record_body-IsStored h k payload all_channels now s))
        λ created t stored.
          gets-OnOk _ (get_event (h.event k)) _ t (gets-OnOk _ _ _ t (stored, (refl, refl)))

  recorded_again :
      (r : Recorded) (t : Core)
      → IsAnswer r t
      → record_signal_with_outbox h k payload channels now t
        ≡ (ok (record r { created = false }), (audit_core signal_event (h.event k) t).1)
  unfolding record_signal_with_outbox ◌>>=◌ immediate_transaction audit_core write_core get_event
  recorded_again r t a =
      rw (record_body-again h k payload all_channels now t a.0, a.1.0, a.1.1) refl

-- A signal that was recorded is recorded again with the same answer, but that it is not new, and with no
-- write but an audit row: a repeated run of the monitor neither repeats the signal nor notifies again.
pub record_signal_with_outbox-again :
    (h : Hashes) (k : SignalKey) (payload : String) (channels : List String) (now later : ℕ)
    (s t : Core) (r : Recorded)
    → record_signal_with_outbox h k payload channels now s ≡ (ok r, t)
    → record_signal_with_outbox h k payload channels later t
      ≡ (ok (record r { created = false }), (audit_core signal_event (h.event k) t).1)
record_signal_with_outbox-again h k payload channels now later s t r e =
    recorded_again h k payload channels later r t (
      subst (OnOk (IsAnswer h k payload channels now)) e
        (recorded-IsAnswer h k payload channels now s))
