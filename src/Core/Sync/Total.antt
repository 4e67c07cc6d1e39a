-- ===== src/Core/Sync/Total.antt =====
-- shared/account.py: `sync_account` never raises.
use trading_cat.Base.{ℕ, String, ◌≡◌, refl, true, Option, none, some, arith}
use trading_cat.Base.Action.{Result, ok, err, Action, ◌>>=◌, pure, catch, handled}
use trading_cat.Base.Action.Outcome.{
  IsTotal, bind-IsTotal, gets-IsTotal, modify-IsTotal, always-OnOk,
}
use trading_cat.Risk.{SyncStatus}
use trading_cat.Core.{Core, CoreError, AccountRow, SyncRun, Failure}
use trading_cat.Core.Audits.{audit_core}
use trading_cat.Core.Accounts.{
  get_account, set_account_sync_status, begin_sync_run, start_run, finish_sync_run, find_run,
  is_sync_status,
}
use trading_cat.Core.Sync.{Client, Securities, degrade, degraded_status, failure_of}
use trading_cat.Core.Sync.Account.{sync_failed, sync_account}

module _ {E S A : Type 0} where
  -- A handler that never raises.
  pub catch-IsTotal :
      (m : Action E S A) (h : E → Action E S A) (s : S)
      → ((e : E) (t : S) → IsTotal (h e t))
      → IsTotal (catch m h s)
  unfolding catch
  catch-IsTotal m h s k = done (m s)
    where
      done : (r : Result E A × S) → IsTotal (handled h r)
      done (ok a, t) = tt
      done (err e, t) = k e t

pub set_account_sync_status-IsTotal :
    (account : String) (status : SyncStatus) (f : Failure) (now : ℕ) (s : Core)
    → is_sync_status status ≡ true
    → IsTotal (set_account_sync_status account status f now s)
unfolding set_account_sync_status ◌>>=◌
set_account_sync_status-IsTotal account status f now s h = rw h tt

pub degraded_status-legal : (o : Option AccountRow) → is_sync_status (degraded_status o) ≡ true
degraded_status-legal none = refl
degraded_status-legal (some r) = ground arith

pub degrade-IsTotal :
    (e : CoreError) (account : String) (run : SyncRun) (now : ℕ) (s : Core)
    → IsTotal (degrade e account run now s)
unfolding degrade finish_sync_run pure
degrade-IsTotal e account run now s = gets-IsTotal (get_account account) _ s (
    bind-IsTotal (λ _ _. Unit) _ _ s
      (set_account_sync_status-IsTotal account (degraded_status (get_account account s))
        (failure_of e) now s (degraded_status-legal (get_account account s)))
      (always-OnOk _ (λ _ _. tt) _) (λ _ t _. modify-IsTotal _ _ t tt))

sync_failed-IsTotal :
    (e : CoreError) (account : String) (run : SyncRun) (now : ℕ) (s : Core)
    → IsTotal (sync_failed e account run now s)
unfolding sync_failed audit_core pure
sync_failed-IsTotal e account run now s =
    bind-IsTotal (λ _ _. Unit) _ _ s (degrade-IsTotal e account run now s)
      (always-OnOk _ (λ _ _. tt) _) (λ _ t _. modify-IsTotal _ _ t (gets-IsTotal _ _ _ tt))

start_run-IsTotal :
    (o : Option SyncRun) (key domain account : String) (s : Core)
    → IsTotal (start_run o key domain account s)
unfolding start_run pure
start_run-IsTotal none key domain account s = gets-IsTotal _ _ s (modify-IsTotal _ _ s tt)
start_run-IsTotal (some r) key domain account s = tt

begin_sync_run-IsTotal :
    (key domain account : String) (s : Core) → IsTotal (begin_sync_run key domain account s)
unfolding begin_sync_run
begin_sync_run-IsTotal key domain account s =
    gets-IsTotal (find_run key) _ s (start_run-IsTotal (find_run key s) key domain account s)

-- `sync_account` never raises, whatever the broker's client and the service of securities answer.
pub sync_account-IsTotal :
    (client : Client) (securities : Securities) (account key : String) (now : ℕ) (s : Core)
    → IsTotal (sync_account client securities account key now s)
unfolding sync_account
sync_account-IsTotal client securities account key now s =
    bind-IsTotal (λ _ _. Unit) _ _ s (begin_sync_run-IsTotal key "account" account s)
      (always-OnOk _ (λ _ _. tt) _)
      λ run t _. catch-IsTotal _ _ t (λ e u. sync_failed-IsTotal e account run now u)
