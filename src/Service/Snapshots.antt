-- ===== src/Service/Snapshots.antt =====
-- execution/service.py: a plan that is copied to the execution store is read back as it was.
use mathlib.Core.Path.{subst}
use trading_cat.Base.{
  some_inj, String, ◌≡◌, refl, sym, ap, ◌∙◌, Bool, true, false, not, Option, none, some, eq_iff,
  if◌then◌else◌,
}
use trading_cat.Base.Action.{ok, ◌>>=◌, pure, raise_if, modify}
use trading_cat.Base.Action.Outcome.{
  OnOk, bind-OnOk, gets-OnOk, or_raise-OnOk, raise_if-OnOk, modify-OnOk,
}
use trading_cat.Base.Tables.{select_sound, select-append_new}
use trading_cat.Models.{ExecutionPlan, Digest, is_execution_mode, new_plan, compute_plan_hash}
use trading_cat.Store.{Store, PlanRow, plan_bound_elsewhere}
use trading_cat.Store.AuditLog.{audit, write_audit}
use trading_cat.Store.Plans.{
  same_content, has_plan_id, get_plan, add_plan, create_plan, keep_plan, insert_plan,
}
use trading_cat.Orders.Tickets.{plan_row}
use trading_cat.Service.{
  Both, rebuild, checked, get_snapshot, snapshot_of, read_and_snapshot_plan, in_store,
  get_core_plan,
}
use trading_cat.Service.Checks.{on_execution-OnOk, checked-OnOk}
use trading_cat.Store.Plans.Same.{SameContent, same_content_sound}

-- The store has the plan of the row.
abbrev Holds : PlanRow → Store → Type 0
Holds row t = (r : PlanRow) × ((get_plan row.plan_id t ≡ some r) × SameContent r row)

module _ (row : PlanRow) where
  keep_plan-Holds :
      (o : Option PlanRow) (s : Store)
      → get_plan row.plan_id s ≡ o
      → OnOk (λ _ t. Holds row t) (keep_plan row o s)
  unfolding keep_plan create_plan audit write_audit get_plan add_plan modify raise_if
  keep_plan-Holds none s e = modify-OnOk _ _ _ s (
    row,
    (
      select-append_new (has_plan_id row.plan_id) s.plans row
          ((eq_iff row.plan_id row.plan_id).1 refl) e,
      record {
        plan_id = refl;
        account = refl;
        mode = refl;
        expiry = refl;
        hash = refl;
        orders = refl;
      },
    ),
  )
  keep_plan-Holds (some old) s e = kept (same_content old row) refl
    where
      kept :
          (b : Bool)
          → same_content old row ≡ b
          → OnOk (λ _ t. Holds row t) (raise_if (not b) plan_bound_elsewhere s)
      kept true h = (
        old,
        (
          e,
          same_content_sound old row
              ((eq_iff old.plan_id row.plan_id).0
                (select_sound (has_plan_id row.plan_id) s.plans old e))
              h,
        ),
      )
      kept false h = tt

  insert_plan-Holds : (s : Store) → OnOk (λ _ t. Holds row t) (insert_plan row s)
  unfolding insert_plan
  insert_plan-Holds s = raise_if-OnOk _ _ _ _ s λ _.
      raise_if-OnOk _ _ _ _ s
        λ _. gets-OnOk _ _ _ s (keep_plan-Holds (get_plan row.plan_id s) s refl)

module _ (sha256 : Digest) where
  -- A plan has the fields of the row that it was made of.
  rebuild_fields :
      (a : PlanRow) (plan : ExecutionPlan)
      → rebuild sha256 a ≡ some plan
      → SameContent (record (plan_row plan) { plan_hash = a.plan_hash }) a
  unfolding rebuild new_plan
  rebuild_fields a plan h = made (is_execution_mode a.execution_mode) h
    where
      made :
          (b : Bool)
          → (if b
              then some (record {
                plan_id = a.plan_id;
                account_id = a.account_id;
                execution_mode = a.execution_mode;
                expires_at = a.expires_at;
                orders = a.orders;
                plan_hash = compute_plan_hash sha256 (record {
                  plan_id = a.plan_id;
                  account_id = a.account_id;
                  execution_mode = a.execution_mode;
                  expires_at = a.expires_at;
                  orders = a.orders;
                  plan_hash = "";
                });
              })
              else none)
            ≡ some plan
          → SameContent (record (plan_row plan) { plan_hash = a.plan_hash }) a
      made true k =
          let e = sym (some_inj _ plan k) in
          record {
            plan_id = ap ExecutionPlan.plan_id e;
            account = ap ExecutionPlan.account_id e;
            mode = ap ExecutionPlan.execution_mode e;
            expiry = ap ExecutionPlan.expires_at e;
            hash = refl;
            orders = ap ExecutionPlan.orders e;
          }
      made false k = cc

  -- Rows of the same plan make the same plan.
  rebuild_same :
      (a b : PlanRow)
      → a.plan_id ≡ b.plan_id
      → a.account_id ≡ b.account_id
      → a.execution_mode ≡ b.execution_mode
      → a.expires_at ≡ b.expires_at
      → a.orders ≡ b.orders
      → rebuild sha256 a ≡ rebuild sha256 b
  unfolding rebuild
  rebuild_same a b p q r t u = cc

  -- The row that the execution store has after the copy.
  abbrev IsCopied : String → ExecutionPlan → Both → Type 0
  IsCopied plan_id plan t =
      (r : PlanRow) × ((get_plan plan_id t.1 ≡ some r)
        × ((rebuild sha256 r ≡ some plan) × (plan.plan_hash ≡ r.plan_hash)))

  copied :
      (plan_id : String) (a : PlanRow) (plan : ExecutionPlan) (t : Both)
      → a.plan_id ≡ plan_id
      → rebuild sha256 a ≡ some plan
      → Holds (plan_row plan) t.1
      → IsCopied plan_id plan t
  copied plan_id a plan t e made h =
      let f = rebuild_fields a plan made in
      let c = h.1.1 in
      (
        h.0,
        (
          subst (λ x. get_plan x t.1 ≡ some h.0) (f.plan_id ∙ e) h.1.0,
          (
            rebuild_same h.0 a (c.plan_id ∙ f.plan_id) (c.account ∙ f.account) (c.mode ∙ f.mode)
                  (c.expiry ∙ f.expiry) (c.orders ∙ f.orders)
                ∙ made,
            sym c.hash,
          ),
        ),
      )

  read_and_snapshot_plan-IsCopied :
      (plan_id : String) (s : Both)
      → OnOk (IsCopied plan_id) (read_and_snapshot_plan sha256 plan_id s)
  unfolding read_and_snapshot_plan get_core_plan pure
  read_and_snapshot_plan-IsCopied plan_id s = gets-OnOk _ _ _ s (
      or_raise-OnOk _ (get_core_plan plan_id s.0) _ _ s λ row found.
        bind-OnOk _ _ _ _ s (checked-OnOk sha256 s row _) λ plan u h.
          bind-OnOk _ (λ _ t. IsCopied plan_id plan t) _ _ u
            (on_execution-OnOk in_store _ _ _ u (insert_plan-Holds (plan_row plan) u.1) (λ _ t held.
              copied plan_id row plan (u.0, t)
                ((eq_iff row.plan_id plan_id).0
                  (select_sound (has_plan_id plan_id) s.0.plans row found))
                h.1.0 held))
            (λ _ t copy. copy))

  read_back :
      (plan_id : String) (plan : ExecutionPlan) (t : Both)
      → IsCopied plan_id plan t
      → get_snapshot sha256 plan_id t ≡ (ok (some plan), t)
  unfolding get_snapshot snapshot_of checked ◌>>=◌
  read_back plan_id plan t h =
      rw (h.1.0, h.1.1.0, (eq_iff plan.plan_hash h.0.plan_hash).1 h.1.1.1) refl

-- A plan that was copied from the core store is what the execution store reads back, with its hash
-- verified again, whether the copy is new or stood there already.
pub get_snapshot-read_and_snapshot_plan :
    (sha256 : Digest) (plan_id : String) (s t : Both) (plan : ExecutionPlan)
    → read_and_snapshot_plan sha256 plan_id s ≡ (ok plan, t)
    → get_snapshot sha256 plan_id t ≡ (ok (some plan), t)
get_snapshot-read_and_snapshot_plan sha256 plan_id s t plan h =
    read_back sha256 plan_id plan t
      (subst (OnOk (IsCopied sha256 plan_id)) h (read_and_snapshot_plan-IsCopied sha256 plan_id s))
