-- ===== src/Core/Sync/Rows.antt =====
-- shared/account.py and shared/db.py: the row of an account, and the methods that leave it alone.
use trading_cat.Base.{
  ℕ, suc, String, ◌≡◌, refl, ◌∙◌, true, Option, none, some, List, [], ◌∷◌, str_eq, eq_iff,
}
use trading_cat.Base.Action.{Result, ok, err}
use trading_cat.Base.Action.Relates.{
  Relates, Relates-modify, IsPreorder, relates_rules, bind_at, Relates-bind,
  Relates-immediate_transaction,
}
use trading_cat.Base.Tables.{select_sound, select-append_new, select-update_first}
use trading_cat.Core.{Core, CoreError, AccountRow, SyncRun, RunStatus, Failure, CoreEvent}
use trading_cat.Core.Audits.{audit_core, write_core}
use trading_cat.Core.Accounts.{
  get_account, has_account_id, put_account, begin_sync_run, start_run, finish_sync_run, Hydrated,
  replace_account_positions, replace_account_orders, insert_orders, ListedOrder, is_mismatch,
}
use trading_cat.Core.Sync.{answer, normalize_positions, normalize_position, BrokerPosition}

-- The row of the account is a mismatch.
abbrev pub InMismatch : String → Core → Type 0
InMismatch account s =
    (r : AccountRow) × ((get_account account s ≡ some r) × (is_mismatch r.sync_status ≡ true))

-- What a write of the account's row leaves there.
pub put_account-get_account :
    (account : String) (o : Option AccountRow) (new : AccountRow) (f : AccountRow → AccountRow)
    (s : Core)
    → get_account account s ≡ o
    → new.account_id ≡ account
    → ((r : AccountRow) → (f r).account_id ≡ r.account_id)
    → get_account account (put_account account new f s)
      ≡ some (elim o [ none ↦ new | some r ↦ f r ])
unfolding put_account get_account
put_account-get_account account none new f s e own same = rw e (
    select-append_new (has_account_id account) s.accounts new
      ((eq_iff new.account_id account).1 own) e)
put_account-get_account account (some r) new f s e own same = rw e (
    select-update_first (has_account_id account) f s.accounts r e
      (keeps (select_sound (has_account_id account) s.accounts r e)))
  where
    keeps : str_eq r.account_id account ≡ true → str_eq (f r).account_id account ≡ true
    keeps hit = rw (same r) hit

-- Rows of accounts are left alone.
pub record SameAccounts (s t : Core) : Type 0 where
  pub same : t.accounts ≡ s.accounts

pub SameAccounts-IsPreorder : IsPreorder SameAccounts
SameAccounts-IsPreorder = record {
  self = λ s. record { same = refl };
  chain = λ s t u h k. record { same = k.same ∙ h.same };
}

pub ruleset rules = (SameAccounts-IsPreorder, relates_rules)

pub audit_core-SameAccounts :
    (event : CoreEvent) (id : String) → Relates SameAccounts (audit_core event id)
unfolding audit_core write_core
audit_core-SameAccounts event id = Relates-modify _ (λ s. record { same = refl })

pub finish_sync_run-SameAccounts :
    (id : ℕ) (status : RunStatus) (f : Failure) → Relates SameAccounts (finish_sync_run id status f)
unfolding finish_sync_run
finish_sync_run-SameAccounts id status f = Relates-modify _ (λ s. record { same = refl })

start_run-SameAccounts :
    (o : Option SyncRun) (key domain account : String)
    → Relates SameAccounts (start_run o key domain account)
unfolding start_run
start_run-SameAccounts none key domain account =
    Relates-bind SameAccounts-IsPreorder _ _ (search rules) λ id.
      Relates-bind SameAccounts-IsPreorder _ _ (Relates-modify _ (λ s. record { same = refl }))
        (λ _. search rules)
start_run-SameAccounts (some r) key domain account = search rules

pub begin_sync_run-SameAccounts :
    (key domain account : String) → Relates SameAccounts (begin_sync_run key domain account)
unfolding begin_sync_run
begin_sync_run-SameAccounts key domain account = search (rules, start_run-SameAccounts) depth 20

normalize_position-SameAccounts : (p : BrokerPosition) → Relates SameAccounts (normalize_position p)
unfolding normalize_position
normalize_position-SameAccounts p = search rules depth 20

pub normalize_positions-SameAccounts :
    (ps : List BrokerPosition) → Relates SameAccounts (normalize_positions ps)
unfolding normalize_positions
normalize_positions-SameAccounts [] = search rules
normalize_positions-SameAccounts (p ∷ ps) =
    Relates-bind SameAccounts-IsPreorder _ _ (normalize_position-SameAccounts p) λ q.
      Relates-bind SameAccounts-IsPreorder _ _ (normalize_positions-SameAccounts ps)
        (λ qs. search rules)

pub answer-SameAccounts : {A : Type 0} (r : Result CoreError A) → Relates SameAccounts (answer r)
unfolding answer
answer-SameAccounts (ok a) = search rules
answer-SameAccounts (err e) = search rules

pub replace_account_positions-SameAccounts :
    (account : String) (hs : List Hydrated) (id : ℕ)
    → Relates SameAccounts (replace_account_positions account hs id)
unfolding replace_account_positions
replace_account_positions-SameAccounts account hs id =
    Relates-immediate_transaction SameAccounts-IsPreorder _
      (Relates-modify _ (λ s. record { same = refl }))

insert_orders-SameAccounts :
    (account : String) (index : ℕ) (os : List ListedOrder)
    → Relates SameAccounts (insert_orders account index os)
unfolding insert_orders
insert_orders-SameAccounts account index [] = search rules
insert_orders-SameAccounts account index (o ∷ os) =
    Relates-bind SameAccounts-IsPreorder _ _ (search rules) λ rows.
      Relates-bind SameAccounts-IsPreorder _ _ (search rules) λ _.
        Relates-bind SameAccounts-IsPreorder _ _ (Relates-modify _ (λ s. record { same = refl }))
          λ _. insert_orders-SameAccounts account (suc index) os

pub replace_account_orders-SameAccounts :
    (account : String) (os : List ListedOrder)
    → Relates SameAccounts (replace_account_orders account os)
unfolding replace_account_orders
replace_account_orders-SameAccounts account os =
    Relates-immediate_transaction SameAccounts-IsPreorder _ (
      Relates-bind SameAccounts-IsPreorder _ _ (Relates-modify _ (λ s. record { same = refl }))
        (λ _. insert_orders-SameAccounts account 0 os))
