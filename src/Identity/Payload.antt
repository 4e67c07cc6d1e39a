-- ===== src/Identity/Payload.antt =====
-- execution/approval_wechat.py: what the signed text of a proof says.
use Prim.Native.Char.{Char, code}
use Prim.Native.String.{String}
use trading_cat.Base.{◌≡◌, refl, ap, sym, Bool, true, ◌&&◌, not, eqb, arith}
use trading_cat.Identity.{IdentityProof, Claim, payload, before, decimal}

abbrev is_separator : Char → Bool
is_separator c = eqb (code c) b'|'

-- A text without the separator in it.
unfoldable pub is_plain : String → Bool
is_plain String.[] = true
is_plain (String.◌∷◌ c s) = not (is_separator c) && is_plain s

tail_plain : (c : Char) (s : String) → is_plain (String.◌∷◌ c s) ≡ true → is_plain s ≡ true
unfolding is_plain
tail_plain c s h = ground (arith, h)

never_separator : (c : Char) (s : String) → is_plain (String.◌∷◌ c s) ≡ true → c ≡ "|" → ⊥
unfolding is_plain
never_separator c s h e = ground (arith, h, is_bar)
  where
    is_bar : is_separator c ≡ true
    is_bar = ap is_separator e

head_of : {c d : Char} {s t : String} → String.◌∷◌ c s ≡ String.◌∷◌ d t → c ≡ d
head_of e = cc

rest_of : {c d : Char} {s t : String} → String.◌∷◌ c s ≡ String.◌∷◌ d t → s ≡ t
rest_of e = cc

-- The first separator ends the field.
before_injective :
    (s t rest more : String)
    → is_plain s ≡ true
    → is_plain t ≡ true
    → before s rest ≡ before t more
    → (s ≡ t) × (rest ≡ more)
unfolding before
before_injective String.[] String.[] rest more h k e = (refl, rest_of e)
before_injective String.[] (String.◌∷◌ d t) rest more h k e =
    elim (never_separator d t k (sym (head_of e))) [ ]
before_injective (String.◌∷◌ c s) String.[] rest more h k e =
    elim (never_separator c s h (head_of e)) [ ]
before_injective (String.◌∷◌ c s) (String.◌∷◌ d t) rest more h k e =
    let both = before_injective s t rest more (tail_plain c s h) (tail_plain d t k) (rest_of e) in
    (longer (head_of e) both.0, both.1)
  where
    longer : c ≡ d → s ≡ t → String.◌∷◌ c s ≡ String.◌∷◌ d t
    longer a b = cc

-- None of the signed fields has a separator in it.
pub record IsPlain (p : IdentityProof) (c : Claim) : Type 0 where
  pub subject : is_plain p.subject ≡ true
  pub action : is_plain c.action ≡ true
  pub confirmation_id : is_plain c.confirmation_id ≡ true
  pub plan_id : is_plain c.plan_id ≡ true
  pub plan_hash : is_plain c.plan_hash ≡ true
  pub nonce : is_plain p.nonce ≡ true

-- What two signed texts agree on.
pub record Agree (p q : IdentityProof) (c d : Claim) : Type 0 where
  pub subject : p.subject ≡ q.subject
  pub action : c.action ≡ d.action
  pub confirmation_id : c.confirmation_id ≡ d.confirmation_id
  pub plan_id : c.plan_id ≡ d.plan_id
  pub plan_hash : c.plan_hash ≡ d.plan_hash
  pub nonce : p.nonce ≡ q.nonce
  pub timestamp : decimal p.timestamp ≡ decimal q.timestamp

-- If no field of two proofs and their claims has a separator in it, and the texts that are signed are the
-- same, then so are the subjects, the actions, the ids of ticket and plan, the plan's hashes, the nonces and
-- the decimal texts of the time stamps.
pub payload-Agree :
    (p q : IdentityProof) (c d : Claim)
    → IsPlain p c
    → IsPlain q d
    → payload p c ≡ payload q d
    → Agree p q c d
unfolding payload
payload-Agree p q c d h k e =
    let one = before_injective _ _ _ _ h.subject k.subject e in
    let two = before_injective _ _ _ _ h.action k.action one.1 in
    let three = before_injective _ _ _ _ h.confirmation_id k.confirmation_id two.1 in
    let four = before_injective _ _ _ _ h.plan_id k.plan_id three.1 in
    let five = before_injective _ _ _ _ h.plan_hash k.plan_hash four.1 in
    let six = before_injective _ _ _ _ h.nonce k.nonce five.1 in
    record {
      subject = one.0;
      action = two.0;
      confirmation_id = three.0;
      plan_id = four.0;
      plan_hash = five.0;
      nonce = six.0;
      timestamp = six.1;
    }
