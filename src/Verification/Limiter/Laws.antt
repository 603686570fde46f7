-- ===== src/Verification/Limiter/Laws.antt =====
-- The window counts and the leases exclude (internal/verification/limiter.go).
use aera_cloud.Prelude.{
  ℕ, ◌+◌, ◌≤◌, ◌<◌, ◌≡◌, refl, Bool, true, false, inl, inr, Option, none, some, List, [], ◌∷◌,
  Bytes, bytes_eq_iff, bytes_eq_refl, is_blank, find, All, ◌-◌, ◌≢◌, arith, Option-cases, leb, ltb,
  ◌==◌,
}
use aera_cloud.Verification.Limiter.{
  Policy, Decision, Counter, Counters, valid_policy, increment, current, allow, Lease, Leases,
  is_lease, holder, acquire, drop_key, release,
}

-- How many calls the window of a key has counted.
abbrev pub counted : Option Counter → ℕ
counted none = 0
counted (some c) = c.count

current-head :
    (now : ℕ) (c : Counter) (cs : Counters)
    → now < c.expires_at
    → current now c.key (c ∷ cs) ≡ some c
unfolding current
current-head now c cs h = rw (bytes_eq_refl c.key) (ground arith)

abbrev pub allowed : Option Decision → Bool
allowed none = false
allowed (some d) = d.allowed

abbrev pub needs_captcha : Option Decision → Bool
needs_captcha none = false
needs_captcha (some d) = d.captcha_required

-- On a healthy store, with a key that is not blank and a valid policy, every call counts one
-- more in its key's window: it is allowed exactly if no more than `limit` calls are counted with
-- it, and asks for a CAPTCHA exactly if more than `captcha_after` are.
pub allow_counts :
    (now : ℕ) (k : Bytes) (p : Policy) (cs : Counters)
    → is_blank k ≡ false
    → valid_policy p ≡ true
    → let n = counted (current now k cs) + 1 in
      (allowed (allow false now k p cs).0 ≡ leb n p.limit)
      × (needs_captcha (allow false now k p cs).0 ≡ ltb p.captcha_after n)
unfolding allow increment
allow_counts now k p cs blank valid = elim (Option-cases (current now k cs)) [
  | inl e ↦ ground (arith, blank, valid, e)
  | inr (c, e) ↦ ground (arith, blank, valid, e)
]

one_if : Bool → ℕ
one_if true = 1
one_if false = 0

-- How many of the calls at these times are allowed.
pub allowed_calls : Bytes → Policy → List ℕ → Counters → ℕ
allowed_calls k p [] cs = 0
allowed_calls k p (now ∷ times) cs =
    let r = allow false now k p cs in
    let rest = allowed_calls k p times r.1 in one_if (allowed r.0) + rest

-- The step on a key whose counter is at the head and has not expired.
allow-head :
    (now : ℕ) (p : Policy) (c : Counter) (cs : Counters)
    → is_blank c.key ≡ false
    → valid_policy p ≡ true
    → now < c.expires_at
    → (allowed (allow false now c.key p (c ∷ cs)).0 ≡ leb (c.count + 1) p.limit)
      × ((allow false now c.key p (c ∷ cs)).1 ≡ record c { count = c.count + 1 } ∷ c ∷ cs)
unfolding allow increment
allow-head now p c cs blank valid h = ground (arith, blank, valid, current-head now c cs h)

window_rest :
    (p : Policy) (times : List ℕ) (c : Counter) (cs : Counters)
    → is_blank c.key ≡ false
    → valid_policy p ≡ true
    → All (λ t. t < c.expires_at) times
    → allowed_calls c.key p times (c ∷ cs) ≤ p.limit - c.count
unfolding allowed_calls one_if
window_rest p [] c cs blank valid h = omega arith
window_rest p (t ∷ times) c cs blank valid (h, hs) =
    let (a, e) = allow-head t p c cs blank valid h in
    let ih = window_rest p times (record c { count = c.count + 1 }) (c ∷ cs) blank valid hs in
    rw (a, e) (ground (arith, ih))

allow_first :
    (start : ℕ) (k : Bytes) (p : Policy) (cs : Counters)
    → is_blank k ≡ false
    → valid_policy p ≡ true
    → current start k cs ≡ none
    → (allowed (allow false start k p cs).0 ≡ true)
      × ((allow false start k p cs).1
          ≡ record { key = k; count = 1; expires_at = start + p.window } ∷ cs)
      × (1 ≤ p.limit)
unfolding allow increment valid_policy
allow_first start k p cs blank valid free = ground (arith, blank, valid, free)

-- A fixed window holds its limit, on a healthy store and for a valid policy: of a first call at
-- `start`, in a key that is not blank and has no live counter, and any number of further calls
-- before `start + window`, at most `limit` are allowed.
pub window_limit :
    (start : ℕ) (times : List ℕ) (k : Bytes) (p : Policy) (cs : Counters)
    → is_blank k ≡ false
    → valid_policy p ≡ true
    → current start k cs ≡ none
    → All (λ t. t < start + p.window) times
    → allowed_calls k p (start ∷ times) cs ≤ p.limit
unfolding allowed_calls one_if
window_limit start times k p cs blank valid free h =
    let fresh : Counter = record { key = k; count = 1; expires_at = start + p.window } in
    let first = allow_first start k p cs blank valid free in
    rw (first.0, first.1) (ground (arith, first.2, window_rest p times fresh cs blank valid h))

-- A lease excludes: from the leases that a successful Acquire on a healthy store leaves, nobody
-- acquires the key again before the TTL is over.
pub acquire_excludes :
    (now later : ℕ) (k owner owner' : Bytes) (ttl ttl' : ℕ) (ls : Leases)
    → (acquire false now k owner ttl ls).0 ≡ some true
    → later < now + ttl
    → (acquire false later k owner' ttl' (acquire false now k owner ttl ls).1).0 ≢ some true
unfolding acquire holder
acquire_excludes now later k owner owner' ttl ttl' ls got h = λ again.
    elim (Option-cases (find (is_lease now k) ls)) [
      | inl free ↦ ground (arith, got, again, free, bytes_eq_refl k)
      | inr (l, held) ↦ ground (arith, got, held)
    ]

holder-drop_key : (now : ℕ) (k : Bytes) (ls : Leases) → holder now k (drop_key k ls) ≡ none
unfolding holder drop_key
holder-drop_key now k [] = refl
holder-drop_key now k (l ∷ ls) = ground (arith, holder-drop_key now k ls)

-- A release by anybody but the holder changes nothing, whether or not the call fails.
pub release_other :
    (fails : Bool) (now : ℕ) (k owner : Bytes) (ls : Leases) (l : Lease)
    → holder now k ls ≡ some l
    → l.owner ≢ owner
    → (release fails now k owner ls).1 ≡ ls
unfolding release
release_other fails now k owner ls l held other =
    ground (arith, held, other, bytes_eq_iff l.owner owner)

-- A release by the holder that succeeds frees the key, so that the next caller acquires it (keys
-- and owners not blank, the TTL not 0, the store healthy).
pub release-acquire :
    (now : ℕ) (k owner next : Bytes) (ttl : ℕ) (ls : Leases) (l : Lease)
    → is_blank k ≡ false
    → is_blank owner ≡ false
    → is_blank next ≡ false
    → (ttl == 0) ≡ false
    → holder now k ls ≡ some l
    → l.owner ≡ owner
    → (acquire false now k next ttl (release false now k owner ls).1).0 ≡ some true
unfolding release acquire
release-acquire now k owner next ttl ls l bk bo bn t held same =
    ground (arith, bk, bo, bn, t, held, same, bytes_eq_iff l.owner owner, holder-drop_key now k ls)
