-- ===== src/Core/Signals/Stuck.antt =====
-- production/notification.py: what the worker leaves alone.
use trading_cat.Base.{
  ℕ, suc, zero, String, ◌≡◌, refl, sym, ap, ◌∙◌, Bool, true, false, ◌||◌, Option, some, List, [],
  ◌∷◌, ◌++◌, arith, All, str_eq, eq_iff, Bool-cases, inl, inr, leb,
}
use trading_cat.Base.Action.{◌>>=◌}
use trading_cat.Base.Tables.{select, select_all, update_first, select-update_first_other}
use trading_cat.Base.Action.Relates.{Relates, Relates-bind, IsPreorder, relates_rules}
use trading_cat.Core.{Core, Outbox, OutboxStatus}
use trading_cat.Core.Signals.{
  has_outbox_id, same_outbox_status, insert_by_time, by_time, take, list_notification_outbox,
  mark_row, mark_notification_outbox, Summary, count_one, Send, dispatch_row, dispatch_rows, due,
  dispatch_signal_outbox,
}

-- PRIMARY KEY (outbox_id): a row is what its id finds.
abbrev pub IsKeyed : Core → Type 0
IsKeyed s = All (λ o. select (has_outbox_id o.outbox_id) s.outbox ≡ some o) s.outbox

unfoldable pub get_outbox : String → Core → Option Outbox
get_outbox id s = select (has_outbox_id id) s.outbox

-- Every row of the list is not the row of the id.
abbrev NotOf : String → Outbox → Type 0
NotOf id o = str_eq o.outbox_id id ≡ false

All-insert_by_time :
    (P : Outbox → Type 0) (o : Outbox) (os : List Outbox)
    → P o
    → All P os
    → All P (insert_by_time o os)
unfolding insert_by_time
All-insert_by_time P o [] h k = (h, tt)
All-insert_by_time P o (p ∷ ps) h k = elim (Bool-cases (leb o.created_at p.created_at)) [
  | inl here ↦ rw here (h, k)
  | inr later ↦ rw later (k.0, All-insert_by_time P o ps h k.1)
]

All-by_time : (P : Outbox → Type 0) (os : List Outbox) → All P os → All P (by_time os)
unfolding by_time
All-by_time P [] h = tt
All-by_time P (o ∷ os) h = All-insert_by_time P o (by_time os) h.0 (All-by_time P os h.1)

All-take : {A : Type 0} (P : A → Type 0) (n : ℕ) (xs : List A) → All P xs → All P (take n xs)
unfolding take
All-take P zero xs h = tt
All-take P (suc n) [] h = tt
All-take P (suc n) (x ∷ xs) h = (h.0, All-take P n xs h.1)

All-append : {A : Type 0} (P : A → Type 0) (xs ys : List A) → All P xs → All P ys → All P (xs ++ ys)
All-append P [] ys h k = k
All-append P (x ∷ xs) ys h k = (h.0, All-append P xs ys h.1 k)

All-select_all :
    {A : Type 0} (P Q : A → Type 0) (p : A → Bool) (xs : List A)
    → ((x : A) → p x ≡ true → P x → Q x)
    → All P xs
    → All Q (select_all p xs)
All-select_all P Q p [] f h = tt
All-select_all P Q p (x ∷ xs) f h = elim (Bool-cases (p x)) [
  | inl hit ↦ rw hit (f x hit h.0, All-select_all P Q p xs f h.1)
  | inr miss ↦ rw miss (All-select_all P Q p xs f h.1)
]

-- The worker takes up what is PENDING or FAILED_RETRYABLE.
abbrev pub is_due : OutboxStatus → Bool
is_due status =
    same_outbox_status status OutboxStatus.pending
    || same_outbox_status status OutboxStatus.failed_retryable

module _ (id : String) (s : Core) (row : Outbox) (found : get_outbox id s ≡ some row)
    (at_rest : is_due row.status ≡ false) where
  -- A row at that status is another row.
  other_row :
      (status : OutboxStatus)
      → same_outbox_status row.status status ≡ false
      → (o : Outbox) → same_outbox_status o.status status ≡ true
      → select (has_outbox_id o.outbox_id) s.outbox ≡ some o
      → NotOf id o
  unfolding get_outbox
  other_row status not_row o hit keyed = elim (Bool-cases (str_eq o.outbox_id id)) [
    | inl same ↦ absurd (clash ((eq_iff o.outbox_id id).0 same))
    | inr differ ↦ differ
  ]
    where
      true_false : true ≡ false → ⊥
      true_false e = cc

      some_injective : {a b : Outbox} → some a ≡ some b → a ≡ b
      some_injective e = cc

      clash : o.outbox_id ≡ id → ⊥
      clash e =
          let both : some o ≡ some row =
            sym keyed ∙ (ap (λ k. select (has_outbox_id k) s.outbox) e ∙ found) in
          true_false (
            sym hit
            ∙ (ap (λ r. same_outbox_status r.status status) (some_injective both) ∙ not_row))

  neither :
      (same_outbox_status row.status OutboxStatus.pending ≡ false)
      × (same_outbox_status row.status OutboxStatus.failed_retryable ≡ false)
  neither = split _ _ at_rest
    where
      split : (a b : Bool) → (a || b) ≡ false → (a ≡ false) × (b ≡ false)
      split a b e = ground arith

  due_others : (limit : ℕ) → IsKeyed s → All (NotOf id) (due limit s)
  unfolding due list_notification_outbox
  due_others limit keyed = All-take (NotOf id) limit _ (
      All-append (NotOf id) _ _
        (All-take (NotOf id) limit _ (
          All-by_time (NotOf id) _ (
            All-select_all _ (NotOf id) _ s.outbox (other_row OutboxStatus.pending neither.0)
              keyed)))
        (All-take (NotOf id) limit _ (
          All-by_time (NotOf id) _ (
            All-select_all _ (NotOf id) _ s.outbox
              (other_row OutboxStatus.failed_retryable neither.1) keyed))))

-- The row of the id is as it was.
record Untouched (id : String) (s t : Core) : Type 0 where
  pub same : get_outbox id t ≡ get_outbox id s

module _ (id : String) where
  Untouched-IsPreorder : IsPreorder (Untouched id)
  Untouched-IsPreorder = record {
    self = λ s. record { same = refl };
    chain = λ s t u h k. record { same = k.same ∙ h.same };
  }

  marked :
      (other : String) (status : OutboxStatus) (retry : Option ℕ)
      → str_eq other id ≡ false
      → (s : Core)
      → Untouched id s (record s {
        outbox = update_first (has_outbox_id other) (mark_row status retry) s.outbox;
      })
  unfolding get_outbox
  marked other status retry differ s = record {
    same =
        select-update_first_other (has_outbox_id id) (has_outbox_id other) (mark_row status retry)
          s.outbox (λ a hit. (not_it a hit, not_it a hit));
  }
    where
      not_it : (a : Outbox) → str_eq a.outbox_id other ≡ true → str_eq a.outbox_id id ≡ false
      not_it a hit = rw ((eq_iff a.outbox_id other).0 hit) differ

  mark-Untouched :
      (other : String) (status : OutboxStatus) (retry : Option ℕ)
      → str_eq other id ≡ false
      → Relates (Untouched id) (mark_notification_outbox other status retry)
  unfolding mark_notification_outbox
  mark-Untouched other status retry differ =
      search (Untouched-IsPreorder, relates_rules, marked other status retry differ) depth 20

  dispatch_row-Untouched :
      (send : Send) (o : Outbox) → NotOf id o → Relates (Untouched id) (dispatch_row send o)
  unfolding dispatch_row
  dispatch_row-Untouched send o differ =
      search (Untouched-IsPreorder, relates_rules, mark-Untouched, differ) depth 20

  dispatch_rows-Untouched :
      (send : Send) (os : List Outbox) (m : Summary)
      → All (NotOf id) os
      → Relates (Untouched id) (dispatch_rows send os m)
  unfolding dispatch_rows
  dispatch_rows-Untouched send [] m h = search (Untouched-IsPreorder, relates_rules)
  dispatch_rows-Untouched send (o ∷ os) m h =
      Relates-bind (Untouched-IsPreorder) _ _ (dispatch_row-Untouched send o h.0)
        (λ sent. dispatch_rows-Untouched send os (count_one sent m) h.1)

-- Whatever the adapter answers, a notification that is not PENDING or FAILED_RETRYABLE is left as it is:
-- what was sent is not sent again, and what a crash left at SENDING is never taken up again.
pub dispatch_signal_outbox-rests :
    (send : Send) (limit : ℕ) (id : String) (row : Outbox) (s : Core)
    → IsKeyed s
    → get_outbox id s ≡ some row
    → is_due row.status ≡ false
    → get_outbox id (dispatch_signal_outbox send limit s).1 ≡ some row
unfolding dispatch_signal_outbox ◌>>=◌
dispatch_signal_outbox-rests send limit id row s keyed found at_rest =
    ((dispatch_rows-Untouched id send (due limit s) _
        (due_others id s row found at_rest limit keyed)).at
      s).same
    ∙ found
