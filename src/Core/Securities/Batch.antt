-- ===== src/Core/Securities/Batch.antt =====
-- shared/security.py, `ensure_batch`: it never raises, whatever the provider does.
use mathlib.Core.Path.{sym, ap, ◌∙◌}
use mathlib.Core.List.{append-nil, append_assoc}
use trading_cat.Base.{
  ℕ, suc, zero, String, Bool, true, false, ◌||◌, Option, none, some, List, [], ◌∷◌, ◌++◌, ◌≡◌, refl,
  str_eq, any, map, if◌then◌else◌,
}
use trading_cat.Base.Action.{
  Result, ok, err, ◌>>=◌, pure, raise, gets, or_raise, modify, catch, handled, continue_with,
}
use trading_cat.Base.Action.Outcome.{always-OnOk, bind-keeps, gets-keeps, raise_if-keeps}
use trading_cat.Core.{Core, CoreMethod, CoreError, SecurityRow, SecurityFailure}
use trading_cat.Core.Symbols.{upper, normalize_symbol}
use trading_cat.Core.Securities.{
  Provider, Item, answer_of, is_retryable, check_row, check_metadata, validate, ask, put_security,
  upsert_security, ask_and_store, ensure_found, ensure_metadata, failure_of,
  record_security_failure, item_of, failed_item, ensure_each, ensure_batch,
}

-- The symbols that a batch asks for: each once, in the order of the first time, and no empty one.
abbrev pub distinct : List String → List String → List String
distinct seen [] = []
distinct seen (raw ∷ raws) =
    let symbol = normalize_symbol raw in
    let skipped = distinct seen raws in
    let rest = distinct (symbol ∷ seen) raws in
    if str_eq symbol "" || any (str_eq symbol) seen then skipped else symbol ∷ rest

-- What is written down of an item.
abbrev pub failure_in : String → Result CoreError SecurityRow → List SecurityFailure
failure_in symbol (ok r) = []
failure_in symbol (err e) =
    record (failure_of symbol e) { symbol = upper (failure_of symbol e).symbol } ∷ []

-- What is written down, item by item.
abbrev pub failures_of : List Item → List SecurityFailure
failures_of [] = []
failures_of (i ∷ items) = failure_in i.symbol i.known ++ failures_of items

-- No call of the store but `record_security_failure` writes failures.
module _ (failures : List SecurityFailure) where
  abbrev Same : Core → Type 0
  Same t = t.security_failures ≡ failures

  answer_of-Same :
      (r : Result CoreError (Option SecurityRow)) (s : Core) → Same s → Same (answer_of r s).1
  unfolding answer_of pure raise
  answer_of-Same (ok o) s h = h
  answer_of-Same (err e) s h = h

  validate-Same :
      (symbol : String) (o : Option SecurityRow) (s : Core) → Same s → Same (validate symbol o s).1
  unfolding validate check_metadata check_row raise pure
  validate-Same symbol none s h = h
  validate-Same symbol (some r) s h =
      raise_if-keeps Same _ _ _ s h
        λ _. raise_if-keeps Same _ _ _ s h λ _. raise_if-keeps Same _ _ _ s h λ _. h

  handled-Same :
      {A : Type 0} (f : CoreError → CoreMethod A) (r : Result CoreError A × Core)
      → Same r.1
      → ((e : CoreError) (t : Core) → Same t → Same (f e t).1)
      → Same (handled f r).1
  handled-Same f (ok a, t) h k = h
  handled-Same f (err e, t) h k = k e t h

  attempt-Same :
      (r : Result CoreError (Option SecurityRow)) (symbol : String) (s : Core)
      → Same s
      → Same ((answer_of r >>= validate symbol) s).1
  attempt-Same r symbol s h =
      bind-keeps Same (λ _ _. Unit) (answer_of r) (validate symbol) s (answer_of-Same r s h)
        (always-OnOk _ (λ _ _. tt) _) λ o t k _. validate-Same symbol o t k

  retry-Same :
      {A : Type 0} (b : Bool) (again : CoreMethod A) (e : CoreError) (t : Core)
      → Same t
      → ((u : Core) → Same u → Same (again u).1)
      → Same ((if b then again else raise e) t).1
  unfolding raise
  retry-Same true again e t h k = k t h
  retry-Same false again e t h k = h

  ask-Same :
      (provider : Provider) (symbol : String) (attempt left : ℕ) (s : Core)
      → Same s
      → Same (ask provider symbol attempt left s).1
  unfolding ask catch raise
  ask-Same provider symbol attempt zero s h = attempt-Same (provider symbol attempt) symbol s h
  ask-Same provider symbol attempt (suc left) s h =
      handled-Same {A = SecurityRow}
        (λ e. if is_retryable e then ask provider symbol (suc attempt) left else raise e)
        ((answer_of (provider symbol attempt) >>= validate symbol) s)
        (attempt-Same (provider symbol attempt) symbol s h)
        λ e t k.
          retry-Same (is_retryable e) _ e t k (λ u. ask-Same provider symbol (suc attempt) left u)

  put_security-Same :
      (o : Option SecurityRow) (r : SecurityRow) (s : Core) → Same s → Same (put_security o r s)
  unfolding put_security
  put_security-Same none r s h = h
  put_security-Same (some _) r s h = h

  upsert_security-Same : (r : SecurityRow) (s : Core) → Same s → Same (upsert_security r s).1
  unfolding upsert_security ◌>>=◌ modify gets
  upsert_security-Same r s h = put_security-Same _ _ s h

  or_raise-Same :
      (o : Option SecurityRow) (e : CoreError) (s : Core) → Same s → Same (or_raise o e s).1
  unfolding or_raise
  or_raise-Same none e s h = h
  or_raise-Same (some r) e s h = h

  ensure_found-Same :
      (found : Option SecurityRow) (o : Option Provider) (symbol : String) (s : Core)
      → Same s
      → Same (ensure_found found o symbol s).1
  unfolding ensure_found ask_and_store raise pure
  ensure_found-Same (some r) o symbol s h = h
  ensure_found-Same none none symbol s h = h
  ensure_found-Same none (some provider) symbol s h =
      bind-keeps Same (λ _ _. Unit) _ _ s (ask-Same provider symbol 1 1 s h)
        (always-OnOk _ (λ _ _. tt) _)
        λ told t k _.
          bind-keeps Same (λ _ _. Unit) _ _ t (upsert_security-Same _ t k)
            (always-OnOk _ (λ _ _. tt) _) λ _ u l _. gets-keeps Same _ _ u (or_raise-Same _ _ u l)

  ensure_metadata-Same :
      (o : Option Provider) (raw : String) (s : Core) → Same s → Same (ensure_metadata o raw s).1
  unfolding ensure_metadata
  ensure_metadata-Same o raw s h = gets-keeps Same _ _ s (ensure_found-Same _ o _ s h)

-- A batch that is answered: an item for each symbol, and each item without metadata is written down.
pub record IsBatch (symbols : List String) (before : List SecurityFailure) (items : List Item)
    (t : Core) : Type 0 where
  pub each : map (λ i. i.symbol) items ≡ symbols
  pub recorded : t.security_failures ≡ before ++ failures_of items

abbrev Answers : {A : Type 0} → (A → Core → Type 0) → Result CoreError A × Core → Type 0
Answers P (ok a, t) = P a t
Answers P (err e, t) = ⊥

bind-Answers :
    {A B : Type 0} (Q : A → Core → Type 0) (P : B → Core → Type 0) (m : CoreMethod A)
    (f : A → CoreMethod B) (s : Core)
    → Answers Q (m s)
    → ((a : A) (t : Core) → Q a t → Answers P (f a t))
    → Answers P ((m >>= f) s)
unfolding ◌>>=◌
bind-Answers Q P m f s h k = continued (m s) h
  where
    continued : (r : Result CoreError _ × Core) → Answers Q r → Answers P (continue_with f r)
    continued (ok a, t) q = k a t q
    continued (err e, t) q = elim q [ ]

-- What one item adds.
record IsItem (symbol : String) (before : List SecurityFailure) (i : Item) (t : Core) : Type 0 where
  pub same : i.symbol ≡ symbol
  pub recorded : t.security_failures ≡ before ++ failure_in i.symbol i.known

outcome-IsItem :
    (symbol : String) (before : List SecurityFailure) (r : Result CoreError SecurityRow × Core)
    → r.1.security_failures ≡ before
    → Answers (IsItem symbol before) (
        handled
          (failed_item symbol)
          (continue_with (λ x. pure (record { symbol = symbol; known = ok x })) r))
unfolding pure failed_item record_security_failure ◌>>=◌ modify
outcome-IsItem symbol before (ok x, t) h = record {
  same = refl;
  recorded = h ∙ sym (append-nil before);
}
outcome-IsItem symbol before (err e, t) h = record {
  same = refl;
  recorded = ap (λ fs. fs ++ failure_in symbol (err e)) h;
}

module _ (provider : Option Provider) where
  abbrev item_then_rest : String → CoreMethod (List Item) → CoreMethod (List Item)
  item_then_rest symbol rest = do
    item ← catch (item_of provider symbol) (failed_item symbol)
    items ← rest
    pure (item ∷ items)

  module _ (symbol : String) (s : Core) where
    attempted-Answers :
        Answers
          (IsItem symbol s.security_failures)
          (catch (item_of provider symbol) (failed_item symbol) s)
    unfolding catch item_of ◌>>=◌
    attempted-Answers =
        outcome-IsItem symbol _ _ (ensure_metadata-Same s.security_failures provider symbol s refl)

    more-Answers :
        (rest : CoreMethod (List Item)) (symbols : List String)
        → ((t : Core) → Answers (IsBatch symbols t.security_failures) (rest t))
        → Answers (IsBatch (symbol ∷ symbols) s.security_failures) (item_then_rest symbol rest s)
    unfolding pure
    more-Answers rest symbols h = bind-Answers _ _ _ _ s attempted-Answers λ i t k.
        bind-Answers _ _ _ _ t (h t) λ items u l. record {
          each = ap (λ x. x ∷ map (λ j. j.symbol) items) k.same ∙ ap (λ xs. symbol ∷ xs) l.each;
          recorded =
              l.recorded
              ∙ ap (λ fs. fs ++ failures_of items) k.recorded
              ∙ append_assoc s.security_failures (failure_in i.symbol i.known) (failures_of items);
        }

  chosen-Answers :
      (skip : Bool) (m n : CoreMethod (List Item)) (xs ys : List String) (s : Core)
      → Answers (IsBatch xs s.security_failures) (m s)
      → Answers (IsBatch ys s.security_failures) (n s)
      → Answers (IsBatch (if skip then xs else ys) s.security_failures) ((if skip then m else n) s)
  chosen-Answers true m n xs ys s h k = h
  chosen-Answers false m n xs ys s h k = k

  ensure_each-Answers :
      (seen raws : List String) (s : Core)
      → Answers
          (IsBatch (distinct seen raws) s.security_failures)
          (ensure_each provider seen raws s)
  unfolding ensure_each pure
  ensure_each-Answers seen [] s = record {
    each = refl;
    recorded = sym (append-nil s.security_failures);
  }
  ensure_each-Answers seen (raw ∷ raws) s =
      chosen-Answers (str_eq (normalize_symbol raw) "" || any (str_eq (normalize_symbol raw)) seen)
        (ensure_each provider seen raws)
        (item_then_rest (normalize_symbol raw)
          (ensure_each provider (normalize_symbol raw ∷ seen) raws))
        _ _ s (ensure_each-Answers seen raws s)
        (more-Answers (normalize_symbol raw) s _ _
          (ensure_each-Answers (normalize_symbol raw ∷ seen) raws))

-- A run that returned.
pub record Returned (raws : List String) (s : Core) (r : Result CoreError (List Item) × Core)
    : Type 0 where
  pub items : List Item
  pub after : Core
  pub same : r ≡ (ok items, after)
  pub batch : IsBatch (distinct [] raws) s.security_failures items after

returned :
    (raws : List String) (s : Core) (r : Result CoreError (List Item) × Core)
    → Answers (IsBatch (distinct [] raws) s.security_failures) r
    → Returned raws s r
returned raws s (ok items, t) h = record { items = items; after = t; same = refl; batch = h }
returned raws s (err e, t) h = elim h [ ]

-- Whatever the provider raises, a batch returns. It has one item for each symbol in its normal form, in the
-- order in which they are asked for first and without the empty one, and the store's list of failures has
-- grown by exactly the items that have no metadata, in the same order.
pub ensure_batch-Returned :
    (provider : Option Provider) (raws : List String) (s : Core)
    → Returned raws s (ensure_batch provider raws s)
unfolding ensure_batch
ensure_batch-Returned provider raws s = returned raws s _ (ensure_each-Answers provider [] raws s)
