-- ===== src/Core/Policies.antt =====
-- shared/db.py: the risk policy of an account. A policy is the JSON text of its configuration, merged with
-- the defaults; sha256 is a parameter.
pub mod Single
use trading_cat.Base.{
  ℕ, suc, String, Bool, true, false, not, ◌&&◌, Option, none, some, List, [], ◌∷◌, ◌++◌, str_eq,
  if◌then◌else◌,
}
use trading_cat.Base.Action.{◌>>=◌, ◌>>◌, pure, modify, gets, immediate_transaction}
use trading_cat.Base.Tables.{select, update}
use trading_cat.Core.{Core, CoreMethod, Policy}

abbrev pub Sha256 : Type 0
Sha256 = String → String

abbrev has_hash : String → String → Policy → Bool
has_hash account hash p = str_eq p.account_id account && str_eq p.config_hash hash

abbrev pub is_active_of : String → Policy → Bool
is_active_of account p = str_eq p.account_id account && p.is_active

abbrev pub supersede : Policy → Policy
supersede p = record p { is_active = false }

abbrev pub new_policy : ℕ → String → String → String → Policy
new_policy id account config hash = record {
  policy_version_id = id;
  account_id = account;
  config_json = config;
  config_hash = hash;
  is_active = true;
}

-- The transaction: the active policies step back, and the new one comes.
unfoldable pub replace_policy : String → String → String → Core → Core
replace_policy account config hash s = record s {
  policies =
      update (is_active_of account) supersede s.policies
      ++ new_policy s.next_policy_id account config hash ∷ [];
  next_policy_id = suc s.next_policy_id;
}

unfoldable pub save_if_new : Option Policy → String → String → String → CoreMethod (Option Policy)
save_if_new (some existing) account config hash = pure (some existing)
save_if_new none account config hash = do
  immediate_transaction (modify (replace_policy account config hash))
  gets (λ s. select (has_hash account hash) s.policies)

unfoldable pub save_investor_policy : Sha256 → String → String → CoreMethod (Option Policy)
save_investor_policy sha256 account config = do
  existing ← gets (λ s. select (has_hash account (sha256 config)) s.policies)
  save_if_new existing account config (sha256 config)

-- ORDER BY policy_version_id DESC LIMIT 1: the last of the active rows, as rows stand in the order of
-- their numbers.
abbrev or_else : Option Policy → Option Policy → Option Policy
or_else (some p) q = some p
or_else none q = q

unfoldable pub last_active : String → List Policy → Option Policy
last_active account [] = none
last_active account (p ∷ ps) =
    let rest = last_active account ps in
    or_else rest (if is_active_of account p then some p else none)

unfoldable pub active_or_default :
    Sha256 → Option Policy → String → String → CoreMethod (Option Policy)
active_or_default sha256 (some p) account default = pure (some p)
active_or_default sha256 none account default = save_investor_policy sha256 account default

-- `default` is the text of the default policy.
unfoldable pub get_active_investor_policy : Sha256 → String → String → CoreMethod (Option Policy)
get_active_investor_policy sha256 account default = do
  row ← gets (λ s. last_active account s.policies)
  active_or_default sha256 row account default
