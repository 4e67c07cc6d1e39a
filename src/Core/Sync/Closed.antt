-- ===== src/Core/Sync/Closed.antt =====
-- shared/account.py: `sync_account` never clears a mismatch.
use trading_cat.Base.{ℕ, String, ◌≡◌, refl, true, some, List, [], ◌∷◌, map}
use trading_cat.Base.Action.{Result, ok, err, ◌>>=◌, ◌>>◌, pure, catch, handled}
use trading_cat.Base.Action.Relates.{Relates}
use trading_cat.Base.Action.Outcome.{always-OnOk, bind-keeps, gets-keeps, or_raise-keeps}
use trading_cat.Risk.{SyncStatus}
use trading_cat.Core.{Core, CoreMethod, CoreError, AccountRow, SyncRun, Failure, account_sync}
use trading_cat.Core.Audits.{audit_core}
use trading_cat.Core.Accounts.{
  get_account, AccountValues, new_account, refreshed, restated, upsert_account,
  set_account_sync_status, replace_account_positions, replace_account_orders, ListedOrder,
  is_mismatch, list_account_positions,
}
use trading_cat.Core.Sync.{
  Client, Securities, Assets, BrokerPosition, degrade, degraded_status, failing, hydrate,
  failure_of, hydration_failure,
}
use trading_cat.Core.Sync.Account.{
  sync_body, sync_failed, sync_account, persisted_status, write_account, state_of, values_of,
}
use trading_cat.Core.Sync.Rows.{
  InMismatch, SameAccounts, answer-SameAccounts, audit_core-SameAccounts,
  begin_sync_run-SameAccounts, finish_sync_run-SameAccounts, normalize_positions-SameAccounts,
  put_account-get_account, replace_account_orders-SameAccounts,
  replace_account_positions-SameAccounts, rules,
}

-- With its rows left alone a mismatch stays.
kept-InMismatch :
    (account : String) (s t : Core) → SameAccounts s t → InMismatch account s → InMismatch account t
unfolding get_account
kept-InMismatch account s t h m = rw h.same m

set_mismatch-InMismatch :
    (account : String) (f : Failure) (now : ℕ) (s : Core)
    → InMismatch account s
    → InMismatch account (set_account_sync_status account SyncStatus.mismatch f now s).1
unfolding set_account_sync_status ◌>>=◌
set_mismatch-InMismatch account f now s m = (
  restated SyncStatus.mismatch f now m.0,
  (
    put_account-get_account account (some m.0) _ (restated SyncStatus.mismatch f now) s m.1.0 refl
        (λ _. refl),
    refl,
  ),
)

abbrev as_mismatch : AccountValues → AccountValues
as_mismatch v = record v { sync_status = SyncStatus.mismatch }

upsert_mismatch-InMismatch :
    (account : String) (v : AccountValues) (now : ℕ) (s : Core)
    → InMismatch account s
    → InMismatch account (upsert_account account (as_mismatch v) now s).1
unfolding upsert_account ◌>>=◌
upsert_mismatch-InMismatch account v now s m = (
  refreshed (as_mismatch v) now m.0,
  (
    put_account-get_account account (some m.0) (new_account account (as_mismatch v) now)
        (refreshed (as_mismatch v) now) s m.1.0 refl (λ _. refl),
    refl,
  ),
)

persisted_mismatch :
    (r : AccountRow) (fs : List String)
    → is_mismatch r.sync_status ≡ true
    → persisted_status (some r) fs ≡ SyncStatus.mismatch
persisted_mismatch r [] h = rw h refl
persisted_mismatch r (f ∷ fs) h = rw h refl

degraded_mismatch :
    (r : AccountRow)
    → is_mismatch r.sync_status ≡ true
    → degraded_status (some r) ≡ SyncStatus.mismatch
degraded_mismatch r h = rw h refl

module _ (account : String) where
  abbrev K : Core → Type 0
  K = InMismatch account

  keeps : {A : Type 0} (m : CoreMethod A) (s : Core) → Relates SameAccounts m → K s → K (m s).1
  keeps m s h k = kept-InMismatch account s (m s).1 (h.at s) k

  -- A statement that leaves the rows alone, and what follows it.
  then-keeps :
      {A B : Type 0} (m : CoreMethod A) (f : A → CoreMethod B) (s : Core)
      → Relates SameAccounts m
      → K s
      → ((a : A) (t : Core) → K t → K (f a t).1)
      → K ((m >>= f) s).1
  then-keeps m f s h k next =
      bind-keeps K (λ _ _. Unit) m f s (keeps m s h k) (always-OnOk _ (λ _ _. tt) _)
        (λ a t kt _. next a t kt)

  old_persisted :
      (s : Core) (fs : List String)
      → K s
      → persisted_status (get_account account s) fs ≡ SyncStatus.mismatch
  old_persisted s fs k = rw k.1.0 (persisted_mismatch k.0 fs k.1.1)

  old_degraded : (s : Core) → K s → degraded_status (get_account account s) ≡ SyncStatus.mismatch
  old_degraded s k = rw k.1.0 (degraded_mismatch k.0 k.1.1)

  write_account-InMismatch :
      (client : Client) (securities : Securities) (a : Assets) (fs : List String) (run : SyncRun)
      (now : ℕ) (s : Core)
      → K s
      → K (write_account client securities account a fs SyncStatus.mismatch run now s).1
  unfolding write_account
  write_account-InMismatch client securities a [] run now s k =
      bind-keeps K (λ _ _. Unit) _ _ s
        (upsert_mismatch-InMismatch account (values_of client a SyncStatus.mismatch now) now s k)
        (always-OnOk _ (λ _ _. tt) _)
        (λ _ t kt _. keeps _ t (finish_sync_run-SameAccounts _ _ _) kt)
  write_account-InMismatch client securities a (f ∷ fs) run now s k =
      bind-keeps K (λ _ _. Unit) _ _ s
        (set_mismatch-InMismatch account (hydration_failure securities (f ∷ fs)) now s k)
        (always-OnOk _ (λ _ _. tt) _)
        (λ _ t kt _. keeps _ t (finish_sync_run-SameAccounts _ _ _) kt)

  module _ (client : Client) (securities : Securities) (run : SyncRun) (now : ℕ) where
    -- What follows the check of the securities, once the positions are known.
    recorded-InMismatch :
        (assets : Assets) (positions : List BrokerPosition) (fs : List String) (status : SyncStatus)
        (orders : List ListedOrder) (s : Core)
        → status ≡ SyncStatus.mismatch
        → K s
        → K
            ((do
              replace_account_positions account (map (hydrate securities) positions) run.sync_id
              replace_account_orders account orders
              write_account client securities account assets fs status run now
              audit_core account_sync account
              pure (state_of assets status positions))
              s).1
    unfolding pure
    recorded-InMismatch assets positions fs status orders s e k =
        then-keeps _ _ s (replace_account_positions-SameAccounts _ _ _) k λ _ t₁ k₁.
          then-keeps _ _ t₁ (replace_account_orders-SameAccounts _ _) k₁ λ _ t₂ k₂.
            bind-keeps K (λ _ _. Unit) _ _ t₂ (written t₂ k₂) (always-OnOk _ (λ _ _. tt) _)
              λ _ t₃ k₃ _. then-keeps _ _ t₃ (audit_core-SameAccounts _ _) k₃ λ _ t₄ k₄. k₄
      where
        written :
            (t : Core)
            → K t
            → K (write_account client securities account assets fs status run now t).1
        written t kt = rw e (write_account-InMismatch client securities assets fs run now t kt)

    sync_body-InMismatch : (s : Core) → K s → K (sync_body client securities account run now s).1
    unfolding sync_body pure
    sync_body-InMismatch s k = then-keeps _ _ s (answer-SameAccounts client.assets) k λ found t₁ k₁.
        or_raise-keeps K found _ _ t₁ k₁ λ assets.
          then-keeps _ _ t₁ (answer-SameAccounts client.positions) k₁ λ raw t₂ k₂.
            then-keeps _ _ t₂ (normalize_positions-SameAccounts raw) k₂ λ positions t₃ k₃.
              then-keeps _ _ t₃ (search (rules, audit_core-SameAccounts)) k₃ λ _ t₄ k₄.
                gets-keeps K (get_account account) _ t₄ (
                  then-keeps _ _ t₄ (answer-SameAccounts client.orders) k₄ λ orders t₅ k₅.
                    recorded-InMismatch assets positions (failing securities [] positions) _ orders
                      t₅ (old_persisted t₄ _ k₄) k₅)

    degrade-InMismatch : (e : CoreError) (s : Core) → K s → K (degrade e account run now s).1
    unfolding degrade pure
    degrade-InMismatch e s k = gets-keeps K (get_account account) _ s (
        bind-keeps K (λ _ _. Unit) _ _ s (restated_at (old_degraded s k))
          (always-OnOk _ (λ _ _. tt) _)
          (λ _ t kt _. then-keeps _ _ t (finish_sync_run-SameAccounts _ _ _) kt (λ _ _ k₂. k₂)))
      where
        restated_at :
            degraded_status (get_account account s) ≡ SyncStatus.mismatch
            → K
                (set_account_sync_status account
                  (degraded_status (get_account account s))
                  (failure_of e)
                  now
                  s).1
        restated_at h = rw h (set_mismatch-InMismatch account (failure_of e) now s k)

    sync_failed-InMismatch :
        (e : CoreError) (s : Core) → K s → K (sync_failed e account run now s).1
    unfolding sync_failed pure
    sync_failed-InMismatch e s k =
        bind-keeps K (λ _ _. Unit) _ _ s (degrade-InMismatch e s k) (always-OnOk _ (λ _ _. tt) _)
          λ _ t₁ k₁ _.
            then-keeps _ _ t₁ (audit_core-SameAccounts _ _) k₁
              λ _ t₂ k₂. gets-keeps K (list_account_positions account) _ t₂ k₂

  -- The end state of a `catch`, when the body and each handler keep the predicate.
  catch-keeps :
      {A : Type 0} (m : CoreMethod A) (h : CoreError → CoreMethod A) (s : Core)
      → K (m s).1
      → ((e : CoreError) (t : Core) → K t → K (h e t).1)
      → K (catch m h s).1
  unfolding catch
  catch-keeps m h s k next = done (m s) k
    where
      done : (r : Result CoreError _ × Core) → K r.1 → K (handled h r).1
      done (ok a, t) kt = kt
      done (err e, t) kt = next e t kt

-- An account that is a mismatch is one after `sync_account` too, however the broker answers.
pub sync_account-InMismatch :
    (client : Client) (securities : Securities) (account key : String) (now : ℕ) (s : Core)
    → InMismatch account s
    → InMismatch account (sync_account client securities account key now s).1
unfolding sync_account
sync_account-InMismatch client securities account key now s k =
    then-keeps account _ _ s (begin_sync_run-SameAccounts key "account" account) k λ run t kt.
      catch-keeps account _ _ t (sync_body-InMismatch account client securities run now t kt)
        (λ e u ku. sync_failed-InMismatch account client securities run now e u ku)
