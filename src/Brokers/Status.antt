-- ===== src/Brokers/Status.antt =====
-- execution/broker.py: `normalize_broker_status`, the broker's words for the status of an order as the
-- states of the store. Texts are lists of code points; upper case is taken of ASCII letters.
use trading_cat.Base.{
  ℕ, ◌-◌, String, Bool, true, false, ◌&&◌, Option, none, some, List, [], ◌∷◌, leb, eqb, any,
  if◌then◌else◌,
}
use trading_cat.Text.{codes, is_prefix}
use trading_cat.Store.{IntentStatus}

-- A status of the store, or a text that is none.
pub data Normal : Type 0 where
  known : IntentStatus → Normal
  strange : List ℕ → Normal

-- What follows the first full stop.
unfoldable pub after_stop : List ℕ → List ℕ
after_stop [] = []
after_stop (c ∷ cs) = if eqb c b'.' then cs else after_stop cs

unfoldable pub upper : ℕ → ℕ
upper c = if leb b'a' c && leb c b'z' then c - 32 else c

-- Upper case, without underscores.
unfoldable pub squeeze : List ℕ → List ℕ
unfolding upper
squeeze [] = []
squeeze (c ∷ cs) = let rest = squeeze cs in if eqb c b'_' then rest else upper c ∷ rest

unfoldable pub same_codes : List ℕ → List ℕ → Bool
same_codes [] [] = true
same_codes (c ∷ cs) (d ∷ ds) = eqb c d && same_codes cs ds
same_codes _ _ = false

unfoldable pub mem_codes : List ℕ → List String → Bool
mem_codes t = any (λ w. same_codes t (codes w))

abbrev active : List String
active =
    "NOTREPORTED" ∷ "REPLACEDNOTREPORTED" ∷ "PROTECTEDNOTREPORTED" ∷ "VARIETIESNOTREPORTED"
    ∷ "WAITTONEW" ∷ "NEW" ∷ "NEWSTATUS" ∷ "WAITTOREPLACE" ∷ "PENDINGREPLACESTATUS"
    ∷ "REPLACEDSTATUS" ∷ "PARTIALFILLED" ∷ "PARTIALFILLEDSTATUS" ∷ "WAITTOCANCEL"
    ∷ "PENDINGCANCELSTATUS" ∷ "SUBMITTED" ∷ []

abbrev cancelled_words : List String
cancelled_words =
    "CANCELED" ∷ "CANCELEDSTATUS" ∷ "CANCELLED" ∷ "EXPIRED" ∷ "EXPIREDSTATUS" ∷ "PARTIALWITHDRAWAL"
    ∷ []

unfoldable pub of_key : List ℕ → Normal
of_key key =
    if mem_codes key active
    then Normal.known IntentStatus.submitted
    else if mem_codes key ("FILLED" ∷ "FILLEDSTATUS" ∷ [])
    then Normal.known IntentStatus.filled
    else if mem_codes key cancelled_words
    then Normal.known IntentStatus.cancelled
    else if mem_codes key ("REJECTED" ∷ "REJECTEDSTATUS" ∷ [])
    then Normal.known IntentStatus.rejected
    else if mem_codes key ("PENDING" ∷ [])
    then Normal.known IntentStatus.pending
    else if mem_codes key ("SUBMITTING" ∷ [])
    then Normal.known IntentStatus.submitting
    else if mem_codes key ("UNKNOWN" ∷ [])
    then Normal.known IntentStatus.unknown
    else Normal.strange key

abbrev or_unknown : Option String → List ℕ
or_unknown none = codes "UNKNOWN"
or_unknown (some t) = elim (codes t) [ [] ↦ codes "UNKNOWN" | ◌∷◌ c cs ↦ c ∷ cs ]

abbrev strip : List ℕ → List ℕ
strip t = if is_prefix (codes "OrderStatus.") t then after_stop t else t

unfoldable pub normalize_broker_status : Option String → Normal
normalize_broker_status status = of_key (squeeze (strip (or_unknown status)))
