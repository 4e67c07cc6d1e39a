-- ===== src/Core/Sync/Positions.antt =====
-- shared/account.py: what `sync_positions` may make of the status of an account.
use trading_cat.Base.{
  some_inj, and_left, and_right, absurd_of, ℕ, String, ◌≡◌, refl, sym, ap, ◌∙◌, Bool, true, false,
  ◌&&◌, Option, none, some, List, [], ◌∷◌, arith, Bool-cases, inl, inr, ◌⊎◌,
}
use trading_cat.Base.Action.{Result, ok, err, ◌>>=◌, pure, catch, handled, when}
use trading_cat.Base.Action.Relates.{Relates}
use trading_cat.Base.Action.Outcome.{OnOk, always-OnOk, bind-keeps, gets-keeps}
use trading_cat.Risk.{SyncStatus, is_synced}
use trading_cat.Core.{Core, CoreMethod, CoreError, AccountRow, SyncRun, Failure}
use trading_cat.Core.Accounts.{
  get_account, is_mismatch, restated, bare_account, set_account_sync_status, no_failure,
  is_sync_status,
}
use trading_cat.Core.Sync.{
  Client, Securities, degraded_status, degrade, failure_of, hydration_failure,
}
use trading_cat.Core.Sync.Holdings.{
  settle_account, settle_known, positions_body, positions_failed, sync_positions, or_updated,
}
use trading_cat.Core.Sync.Loading.{is_recent, freshness_seconds}
use trading_cat.Core.Sync.Rows.{
  put_account-get_account, SameAccounts, SameAccounts-IsPreorder, rules, audit_core-SameAccounts,
  finish_sync_run-SameAccounts, begin_sync_run-SameAccounts, normalize_positions-SameAccounts,
  answer-SameAccounts, replace_account_positions-SameAccounts,
}
use trading_cat.Core.Sync.Total.{degraded_status-legal}

-- The row allows the account to be SYNCED: it says so already, or it is a mismatch that a recent snapshot
-- of the assets stands behind.
abbrev pub Allows : ℕ → AccountRow → Type 0
Allows now r =
    (is_synced r.sync_status ≡ true)
    ⊎ ((is_mismatch r.sync_status ≡ true)
        × (is_recent (or_updated r.last_success_at r.updated_at) freshness_seconds now ≡ true))

-- If the account is SYNCED in the second store, then its row in the first allows it.
abbrev IsEarned : String → ℕ → Core → Core → Type 0
IsEarned account now before after =
    (r : AccountRow)
    → get_account account after ≡ some r
    → is_synced r.sync_status ≡ true
    → (old : AccountRow) × ((get_account account before ≡ some old) × Allows now old)

module _ (account : String) (now : ℕ) (before : Core) where
  abbrev K : Core → Type 0
  K = IsEarned account now before

  unmoved-IsEarned : (t : Core) → SameAccounts before t → K t
  unfolding get_account
  unmoved-IsEarned t h r e done = (r, (rw (sym h.same) e, inl done))

  still-IsEarned : (t u : Core) → SameAccounts t u → K t → K u
  unfolding get_account
  still-IsEarned t u h k r e done = k r (rw (sym h.same) e) done

  -- A row that is not SYNCED says nothing.
  restated-IsEarned :
      (status : SyncStatus) (f : Failure) (t : Core)
      → is_sync_status status ≡ true
      → is_synced status ≡ false
      → K (set_account_sync_status account status f now t).1
  unfolding set_account_sync_status ◌>>=◌
  restated-IsEarned status f t legal rest = rw legal λ r e done.
      elim (not_synced (get_account account t) r
        (sym (put_account-get_account account (get_account account t) _ _ t refl refl (λ _. refl))
          ∙ e)
        done) [ ]
    where
      not_synced :
          (o : Option AccountRow) (r : AccountRow)
          → some (elim o [
            | none ↦ bare_account account status f now
            | some a ↦ restated status f now a
          ])
            ≡ some r
          → is_synced r.sync_status ≡ true
          → ⊥
      not_synced none r e done =
          absurd_of (sym rest ∙ ap (λ a. is_synced a.sync_status) (some_inj _ _ e) ∙ done)
      not_synced (some a) r e done =
          absurd_of (sym rest ∙ ap (λ a. is_synced a.sync_status) (some_inj _ _ e) ∙ done)

  degraded_open : (o : Option AccountRow) → is_synced (degraded_status o) ≡ false
  degraded_open none = refl
  degraded_open (some r) = ground arith

  on_ok :
      {A : Type 0} (r : Result CoreError A × Core)
      → SameAccounts before r.1
      → OnOk (λ _ u. SameAccounts before u) r
  on_ok (ok a, u) h = h
  on_ok (err e, u) h = tt

  same_then :
      {A B : Type 0} (m : CoreMethod A) (f : A → CoreMethod B) (t : Core)
      → SameAccounts before t
      → Relates SameAccounts m
      → ((a : A) (u : Core) → SameAccounts before u → K (f a u).1)
      → K ((m >>= f) t).1
  same_then m f t h rel next =
      bind-keeps K (λ _ u. SameAccounts before u) m f t (unmoved-IsEarned _ after)
        (on_ok (m t) after) (λ a u _ same. next a u same)
    where
      after : SameAccounts before (m t).1
      after = SameAccounts-IsPreorder.chain _ _ _ h (rel.at t)

  then_still :
      {A B : Type 0} (m : CoreMethod A) (f : A → CoreMethod B) (t : Core)
      → Relates SameAccounts m
      → K t
      → ((a : A) (u : Core) → K u → K (f a u).1)
      → K ((m >>= f) t).1
  then_still m f t rel k next =
      bind-keeps K (λ _ _. Unit) m f t (still-IsEarned t _ (rel.at t) k)
        (always-OnOk _ (λ _ _. tt) _) (λ a u ku _. next a u ku)

  after_any :
      {A B : Type 0} (m : CoreMethod A) (f : A → CoreMethod B) (t : Core)
      → K (m t).1
      → ((a : A) (u : Core) → K u → K (f a u).1)
      → K ((m >>= f) t).1
  after_any m f t k next =
      bind-keeps K (λ _ _. Unit) m f t k (always-OnOk _ (λ _ _. tt) _) (λ a u ku _. next a u ku)

  settle_known-IsEarned :
      (old : AccountRow) (t : Core)
      → SameAccounts before t
      → get_account account before ≡ some old
      → K (settle_known account old now t).1
  unfolding settle_known when pure
  settle_known-IsEarned old t h own =
      elim (Bool-cases (
        is_mismatch old.sync_status
        && is_recent (or_updated old.last_success_at old.updated_at) freshness_seconds now)) [
          | inl b ↦ λ r e done. (old, (own, inr (both b)))
          | inr b ↦ rw b (unmoved-IsEarned t h)
        ]
    where
      both :
          is_mismatch old.sync_status
              && is_recent (or_updated old.last_success_at old.updated_at) freshness_seconds now
            ≡ true
          → (is_mismatch old.sync_status ≡ true)
            × (is_recent (or_updated old.last_success_at old.updated_at) freshness_seconds now
                ≡ true)
      both b = (
        and_left (is_mismatch old.sync_status)
            (is_recent (or_updated old.last_success_at old.updated_at) freshness_seconds now) b,
        and_right (is_mismatch old.sync_status)
            (is_recent (or_updated old.last_success_at old.updated_at) freshness_seconds now) b,
      )

  settle_account-IsEarned :
      (securities : Securities) (wrong : Bool) (fs : List String) (o : Option AccountRow) (t : Core)
      → SameAccounts before t
      → get_account account before ≡ o
      → K (settle_account securities account wrong fs o now t).1
  unfolding settle_account
  settle_account-IsEarned securities true fs o t h own =
      restated-IsEarned SyncStatus.mismatch no_failure t refl refl
  settle_account-IsEarned securities false (f ∷ fs) o t h own =
      restated-IsEarned (degraded_status o) (hydration_failure securities (f ∷ fs)) t
        (degraded_status-legal o) (degraded_open o)
  settle_account-IsEarned securities false [] none t h own =
      restated-IsEarned SyncStatus.unknown no_failure t refl refl
  settle_account-IsEarned securities false [] (some old) t h own = settle_known-IsEarned old t h own

  same_row : (t : Core) → SameAccounts before t → get_account account before ≡ get_account account t
  unfolding get_account
  same_row t h = rw h.same refl

  module _ (client : Client) (securities : Securities) (run : SyncRun) where
    positions_body-IsEarned :
        (t : Core)
        → SameAccounts before t
        → K (positions_body client securities account run now t).1
    unfolding positions_body pure
    positions_body-IsEarned t h =
        same_then _ _ t h (answer-SameAccounts client.positions) λ raw t₁ h₁.
          same_then _ _ t₁ h₁ (normalize_positions-SameAccounts raw) λ positions t₂ h₂.
            same_then _ _ t₂ h₂ (search (rules, audit_core-SameAccounts)) λ _ t₃ h₃.
              gets-keeps K (λ s. s.portfolio) _ t₃
                (same_then _ _ t₃ h₃ (search rules) λ _ t₃₁ h₃₁.
                  same_then _ _ t₃₁ h₃₁ (replace_account_positions-SameAccounts _ _ _) λ _ t₄ h₄.
                    gets-keeps K (get_account account) _ t₄ (
                      after_any _ _ t₄
                        (settle_account-IsEarned securities _ _ (get_account account t₄) t₄ h₄
                          (same_row t₄ h₄))
                        λ _ t₅ k₅.
                          then_still _ _ t₅ (finish_sync_run-SameAccounts _ _ _) k₅ λ _ t₆ k₆.
                            then_still _ _ t₆ (audit_core-SameAccounts _ _) k₆
                              λ _ t₇ k₇. gets-keeps K (get_account account) _ t₇ k₇))

    positions_failed-IsEarned :
        (e : CoreError) (t : Core) → K (positions_failed e account run now t).1
    unfolding positions_failed degrade pure
    positions_failed-IsEarned e t =
        after_any _ _ t
          (gets-keeps K (get_account account) _ t (
            after_any _ _ t
              (restated-IsEarned (degraded_status (get_account account t)) (failure_of e) t
                (degraded_status-legal (get_account account t))
                (degraded_open (get_account account t)))
              λ _ u ku. then_still _ _ u (finish_sync_run-SameAccounts _ _ _) ku (λ _ _ k. k)))
          λ _ u ku. then_still _ _ u (audit_core-SameAccounts _ _) ku (λ _ _ k. k)

  caught-IsEarned :
      {A : Type 0} (m : CoreMethod A) (h : CoreError → CoreMethod A) (t : Core)
      → K (m t).1
      → ((e : CoreError) (u : Core) → K (h e u).1)
      → K (catch m h t).1
  unfolding catch
  caught-IsEarned m h t k next = done (m t) k
    where
      done : (r : Result CoreError _ × Core) → K r.1 → K (handled h r).1
      done (ok a, u) ku = ku
      done (err e, u) ku = next e u

-- An account that is SYNCED after `sync_positions` was SYNCED before, or was a mismatch whose last success
-- (or, without one, whose row) is at most `freshness_seconds` old, however the broker answers.
pub sync_positions-Allows :
    (client : Client) (securities : Securities) (account key : String) (now : ℕ) (s : Core)
    (r : AccountRow)
    → get_account account (sync_positions client securities account key now s).1 ≡ some r
    → is_synced r.sync_status ≡ true
    → (old : AccountRow) × ((get_account account s ≡ some old) × Allows now old)
unfolding sync_positions
sync_positions-Allows client securities account key now s =
    same_then account now s _ _ s (SameAccounts-IsPreorder.self s)
      (begin_sync_run-SameAccounts key "positions" account)
      λ run t h.
        caught-IsEarned account now s _ _ t
          (positions_body-IsEarned account now s client securities run t h)
          (λ e u. positions_failed-IsEarned account now s client securities run e u)
