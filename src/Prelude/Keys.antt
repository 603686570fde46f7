-- ===== src/Prelude/Keys.antt =====
-- Tables whose rows have a unique key, as a primary key keeps them.
use Prim.Native.Nat.{ℕ, ◌+◌, ◌≤◌}
use mathlib.Core.Path.{◌≡◌, refl, ap}
use mathlib.Core.Logic.{inl, inr}
use mathlib.Core.Bool.{Bool, true, false}
use mathlib.Core.Option.{some}
use mathlib.Core.List.{List, [], ◌∷◌}
use native.Mathlib.Omega.{arith}
use aera_cloud.Prelude.Tests.{◌==◌, if◌then◌else◌, Bool-cases}
use aera_cloud.Prelude.Lists.{any, find, update_where, count_where, find-any, any-update}

module _ {A : Type 0} (key : A → ℕ) where
  abbrev pub has_key : ℕ → A → Bool
  has_key i a = key a == i

  abbrev pub IsKeyed : List A → Type 0
  IsKeyed [] = Unit
  IsKeyed (d ∷ ds) = (any (has_key (key d)) ds ≡ false) × IsKeyed ds

  pub IsKeyed-update :
      (p : A → Bool) (f : A → A)
      → ((d : A) → key (f d) ≡ key d)
      → (ds : List A) → IsKeyed ds
      → IsKeyed (update_where p f ds)
  IsKeyed-update p f keeps [] k = tt
  IsKeyed-update p f keeps (d ∷ ds) k =
      let rest = any-update (has_key (key d)) p f (λ x. ap (λ i. i == key d) (keeps x)) ds in
      let same : key (if p d then f d else d) ≡ key d = ground (arith, keeps d) in
      (rw (same, rest) k.0, IsKeyed-update p f keeps ds k.1)

  -- A row of the table, found by any key, is the one that its id finds.
  pub found-has_key :
      (p : A → Bool) (ds : List A) (d : A)
      → IsKeyed ds
      → find p ds ≡ some d
      → find (has_key (key d)) ds ≡ some d
  found-has_key p [] d k e = absurd (cc e)
  found-has_key p (x ∷ xs) d k e = elim (Bool-cases (p x)) [
    | inl hit ↦ let same : x ≡ d = ground (arith, hit, e) in ground (arith, same)
    | inr miss ↦
        let ih = found-has_key p xs d k.1 (ground (arith, miss, e)) in
        let there = find-any (has_key (key d)) xs d ih in
        elim (Bool-cases (key x == key d)) [
          | inl eq ↦
              let clash : key x ≡ key d = ground (arith, eq) in
              absurd (cc (k.0, there, ap (λ i. any (has_key i) xs) clash))
          | inr ne ↦ ground (arith, ne, ih)
        ]
  ]

  module _ (q : A → Bool) (i : ℕ) (f : A → A) where
    count-missing :
        (ds : List A)
        → any (has_key i) ds ≡ false
        → count_where q (update_where (has_key i) f ds) ≡ count_where q ds
    count-missing [] h = refl
    count-missing (d ∷ ds) h = ground (arith, count-missing ds)

    -- An update by the primary key writes one row.
    pub count-update_one :
        (ds : List A)
        → IsKeyed ds
        → count_where q (update_where (has_key i) f ds) ≤ count_where q ds + 1
    count-update_one [] k = omega arith
    count-update_one (d ∷ ds) k = elim (Bool-cases (key d == i)) [
      | inl hit ↦
          let same : key d ≡ i = ground (arith, hit) in
          let free : any (has_key i) ds ≡ false = rw (← same) (k.0) in
          ground (arith, hit, count-missing ds free)
      | inr miss ↦ ground (arith, miss, count-update_one ds k.1)
    ]

    pub count-update_counted :
        (ds : List A) (d : A)
        → IsKeyed ds
        → find (has_key i) ds ≡ some d
        → q d ≡ true
        → count_where q (update_where (has_key i) f ds) ≤ count_where q ds
    count-update_counted [] d k e h = absurd (cc e)
    count-update_counted (x ∷ xs) d k e h = elim (Bool-cases (key x == i)) [
      | inl hit ↦
          let same : key x ≡ i = ground (arith, hit) in
          let free : any (has_key i) xs ≡ false = rw (← same) (k.0) in
          let this : x ≡ d = ground (arith, hit, e) in
          ground (arith, hit, this, count-missing xs free)
      | inr miss ↦
          let ih = count-update_counted xs d k.1 (ground (arith, miss, e)) h in
          ground (arith, miss, ih)
    ]
