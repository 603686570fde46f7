-- ===== src/Verification/Limiter.antt =====
-- internal/verification/limiter.go. Redis is a parameter: whether a call fails, and its clock. Its
-- keys are the state, with the time at which each of them expires; the two Lua scripts and SETNX
-- are single steps.
pub mod Laws
use aera_cloud.Prelude.{
  ℕ, suc, ◌+◌, ◌-◌, Bool, true, false, ◌&&◌, ◌||◌, not, Option, none, some, List, [], ◌∷◌, Bytes,
  bytes_eq, Text, is_blank, find, ltb, leb, ◌==◌, if◌then◌else◌,
}

pub record Policy : Type 0 where
  pub limit : ℕ
  pub captcha_after : ℕ
  pub window : ℕ

pub record Decision : Type 0 where
  pub allowed : Bool
  pub captcha_required : Bool
  pub retry_after : ℕ

pub record ScopePolicies : Type 0 where
  pub identity : Policy
  pub ip : Policy
  pub device : Policy

unfoldable pub valid_policy : Policy → Bool
valid_policy p =
    ltb 0 p.limit && ltb 0 p.captcha_after && leb p.captcha_after p.limit && ltb 0 p.window

unfoldable pub valid_policies : ScopePolicies → Bool
unfolding valid_policy
valid_policies p = valid_policy p.identity && valid_policy p.ip && valid_policy p.device

abbrev pub default_scope_policies : ScopePolicies
default_scope_policies = record {
  identity = record { limit = 5; captcha_after = 3; window = 600000 };
  ip = record { limit = 20; captcha_after = 10; window = 3600000 };
  device = record { limit = 10; captcha_after = 5; window = 600000 };
}

pub record Counter : Type 0 where
  pub key : Bytes
  pub count : ℕ
  pub expires_at : ℕ

abbrev pub Counters : Type 0
Counters = List Counter

abbrev is_counter : ℕ → Bytes → Counter → Bool
is_counter now k c = bytes_eq c.key k && ltb now c.expires_at

-- INCR, and PEXPIRE on the first: the counter after the step, in front of the others.
unfoldable pub increment : ℕ → ℕ → Bytes → Option Counter → Counter
increment now window k none = record { key = k; count = 1; expires_at = now + window }
increment now window k (some c) = record c { count = c.count + 1 }

unfoldable pub current : ℕ → Bytes → Counters → Option Counter
current now k cs = find (is_counter now k) cs

decision : Policy → ℕ → Counter → Decision
decision p now c = record {
  allowed = leb c.count p.limit;
  captcha_required = ltb p.captcha_after c.count;
  retry_after = if ltb p.window (c.expires_at - now) then p.window else c.expires_at - now;
}

-- Allow; `none` is an error, and leaves the counters alone.
unfoldable pub allow : Bool → ℕ → Bytes → Policy → Counters → Option Decision × Counters
unfolding decision
allow fails now k p cs =
    if is_blank k || not (valid_policy p) || fails
    then (none, cs)
    else let c = increment now p.window k (current now k cs) in (some (decision p now c), c ∷ cs)

pub record Lease : Type 0 where
  pub key : Bytes
  pub owner : Bytes
  pub expires_at : ℕ

abbrev pub Leases : Type 0
Leases = List Lease

abbrev pub is_lease : ℕ → Bytes → Lease → Bool
is_lease now k l = bytes_eq l.key k && ltb now l.expires_at

unfoldable pub holder : ℕ → Bytes → Leases → Option Lease
holder now k ls = find (is_lease now k) ls

-- Acquire by SETNX with a TTL; `none` is an error.
acquire_free : ℕ → Bytes → Bytes → ℕ → Leases → Option Lease → Option Bool × Leases
acquire_free now k owner ttl ls none =
    (some true, record { key = k; owner = owner; expires_at = now + ttl } ∷ ls)
acquire_free now k owner ttl ls (some l) = (some false, ls)

unfoldable pub acquire : Bool → ℕ → Bytes → Bytes → ℕ → Leases → Option Bool × Leases
unfolding acquire_free
acquire fails now k owner ttl ls =
    if is_blank k || is_blank owner || ttl == 0 || fails
    then (none, ls)
    else acquire_free now k owner ttl ls (holder now k ls)

unfoldable pub drop_key : Bytes → Leases → Leases
drop_key k [] = []
drop_key k (l ∷ ls) = if bytes_eq l.key k then drop_key k ls else l ∷ drop_key k ls

release_held : Bytes → Bytes → Leases → Option Lease → Leases
release_held k owner ls none = ls
release_held k owner ls (some l) = if bytes_eq l.owner owner then drop_key k ls else ls

-- Release deletes the key if the caller still holds it.
unfoldable pub release : Bool → ℕ → Bytes → Bytes → Leases → Option (Unit {0}) × Leases
unfolding release_held
release fails now k owner ls =
    if is_blank k || is_blank owner || fails
    then (none, ls)
    else (some tt, release_held k owner ls (holder now k ls))
