-- ===== src/Prelude/Lists.antt =====
-- Lists as tables: searching, updating and counting rows; byte strings.
use Prim.Native.Nat.{ℕ, zero, suc, ◌+◌, ◌≤◌}
use mathlib.Core.Path.{◌≡◌, refl}
use mathlib.Core.Logic.{◌↔◌, inl, inr}
use mathlib.Core.Bool.{Bool, true, false, ◌&&◌, ◌||◌}
use mathlib.Core.Option.{Option, none, some}
use mathlib.Core.List.{List, [], ◌∷◌}
use native.Mathlib.Omega.{arith}
use aera_cloud.Prelude.Tests.{◌==◌, if◌then◌else◌, Bool-cases}

module _ {ℓ} {A : Type ℓ} where
  abbrev pub length : List A → ℕ
  length [] = 0
  length (x ∷ xs) = suc (length xs)

  abbrev pub replicate : ℕ → A → List A
  replicate zero a = []
  replicate (suc n) a = a ∷ replicate n a

  abbrev pub take : ℕ → List A → List A
  take zero xs = []
  take (suc n) [] = []
  take (suc n) (x ∷ xs) = x ∷ take n xs

  -- The first row that passes, as of a query by a unique key.
  abbrev pub find : (A → Bool) → List A → Option A
  find p [] = none
  find p (x ∷ xs) = if p x then some x else find p xs

  -- SELECT EXISTS.
  abbrev pub any : (A → Bool) → List A → Bool
  any p [] = false
  any p (x ∷ xs) = p x || any p xs

  -- UPDATE ... SET f WHERE p.
  abbrev pub update_where : (A → Bool) → (A → A) → List A → List A
  update_where p f [] = []
  update_where p f (x ∷ xs) = (if p x then f x else x) ∷ update_where p f xs

  -- SELECT count(*) WHERE p.
  abbrev pub count_where : (A → Bool) → List A → ℕ
  count_where p [] = 0
  count_where p (x ∷ xs) = let rest = count_where p xs in if p x then suc rest else rest

  abbrev pub All {κ} : (A → Type κ) → List A → Type κ
  All P [] = Unit
  All P (x ∷ xs) = P x × All P xs

  pub find-passes : (p : A → Bool) (xs : List A) (x : A) → find p xs ≡ some x → p x ≡ true
  find-passes p [] x h = cc
  find-passes p (y ∷ ys) x h = elim (Bool-cases (p y)) [
    | inl e ↦ ground (arith, e)
    | inr e ↦ find-passes p ys x (ground arith)
  ]

  pub find-any : (p : A → Bool) (xs : List A) (x : A) → find p xs ≡ some x → any p xs ≡ true
  find-any p [] x h = cc
  find-any p (y ∷ ys) x h = ground (arith, find-any p ys x)

  pub any-find : (p : A → Bool) (xs : List A) → any p xs ≡ false → find p xs ≡ none
  any-find p [] h = refl
  any-find p (y ∷ ys) h = ground (arith, any-find p ys)

  pub All-find {κ} :
      (P : A → Type κ) (p : A → Bool) (xs : List A) (x : A) → All P xs → find p xs ≡ some x → P x
  All-find P p [] x a h = absurd (cc h)
  All-find P p (y ∷ ys) x a h = elim (Bool-cases (p y)) [
    | inl e ↦ let e' : y ≡ x = ground (arith, e) in rw e' at (a.0)
    | inr e ↦ All-find P p ys x a.1 (ground (arith, e))
  ]

  pub All-map {κ μ} :
      {P : A → Type κ} {Q : A → Type μ} (f : (x : A) → P x → Q x) (xs : List A)
      → All P xs
      → All Q xs
  All-map f [] a = tt
  All-map f (x ∷ xs) a = (f x a.0, All-map f xs a.1)

  -- An update keeps what holds of each row, if it holds of the rows it writes.
  pub All-update {κ} :
      (P : A → Type κ) (p : A → Bool) (f : A → A)
      → ((x : A) → P x → P (f x))
      → (xs : List A) → All P xs
      → All P (update_where p f xs)
  All-update P p f keep [] a = tt
  All-update P p f keep (x ∷ xs) a = elim (Bool-cases (p x)) [
    | inl e ↦ (rw e (keep x a.0), All-update P p f keep xs a.1)
    | inr e ↦ (rw e a.0, All-update P p f keep xs a.1)
  ]

  -- What every written row has, and every row left alone, all rows have.
  pub update-All {κ} :
      (P : A → Type κ) (p : A → Bool) (f : A → A)
      → ((x : A) → p x ≡ true → P (f x))
      → ((x : A) → p x ≡ false → P x)
      → (xs : List A) → All P (update_where p f xs)
  update-All P p f written left [] = tt
  update-All P p f written left (x ∷ xs) = elim (Bool-cases (p x)) [
    | inl e ↦ (rw e (written x e), update-All P p f written left xs)
    | inr e ↦ (rw e (left x e), update-All P p f written left xs)
  ]

  -- An update that makes no new row pass `q` does not raise the count.
  pub count-update_le :
      (q p : A → Bool) (f : A → A)
      → ((x : A) → q (f x) ≡ true → q x ≡ true)
      → (xs : List A) → count_where q (update_where p f xs) ≤ count_where q xs
  count-update_le q p f back [] = omega arith
  count-update_le q p f back (x ∷ xs) = ground (arith, back x, count-update_le q p f back xs)

  -- It lowers the count, if a row that passed is written and no written row passes.
  pub count-update_lt :
      (q p : A → Bool) (f : A → A)
      → ((x : A) → p x ≡ true → q (f x) ≡ false)
      → (h : A → Bool) (xs : List A) (x : A) → find h xs ≡ some x
      → p x ≡ true
      → q x ≡ true
      → count_where q (update_where p f xs) + 1 ≤ count_where q xs
  count-update_lt q p f drop h [] x e px qx = absurd (cc e)
  count-update_lt q p f drop h (y ∷ ys) x e px qx = elim (Bool-cases (h y)) [
    | inl hit ↦
        let same : y ≡ x = ground (arith, hit) in
        let le = count_written ys in ground (arith, le, same, drop y)
    | inr miss ↦
        let lt = count-update_lt q p f drop h ys x (ground (arith, miss)) px qx in
        ground (arith, lt, drop y)
  ]
    where
      count_written : (xs : List A) → count_where q (update_where p f xs) ≤ count_where q xs
      count_written [] = omega arith
      count_written (z ∷ zs) = ground (arith, drop z, count_written zs)

  pub count-All : (q : A → Bool) (xs : List A) → All (λ x. q x ≡ false) xs → count_where q xs ≡ 0
  count-All q [] a = refl
  count-All q (x ∷ xs) a = ground (arith, a.0, count-All q xs a.1)

  pub count_zero-All :
      (q : A → Bool) (xs : List A) → count_where q xs ≡ 0 → All (λ x. q x ≡ false) xs
  count_zero-All q [] h = tt
  count_zero-All q (x ∷ xs) h = (ground arith, count_zero-All q xs (ground arith))

  pub any-count : (q : A → Bool) (xs : List A) → any q xs ≡ false → count_where q xs ≡ 0
  any-count q [] h = refl
  any-count q (x ∷ xs) h = ground (arith, any-count q xs)

  -- An update keeps what holds of each row, if each row that it writes gets it.
  pub All-written {κ} :
      (P : A → Type κ) (p : A → Bool) (f : A → A) (xs : List A)
      → All (λ x. p x ≡ true → P (f x)) xs
      → All P xs
      → All P (update_where p f xs)
  All-written P p f [] w a = tt
  All-written P p f (x ∷ xs) w a = elim (Bool-cases (p x)) [
    | inl e ↦ (rw e (w.0 e), All-written P p f xs w.1 a.1)
    | inr e ↦ (rw e a.0, All-written P p f xs w.1 a.1)
  ]

  pub count-find :
      (q h : A → Bool) (xs : List A) (x : A)
      → find h xs ≡ some x
      → q x ≡ true
      → 1 ≤ count_where q xs
  count-find q h [] x e qx = absurd (cc e)
  count-find q h (y ∷ ys) x e qx = elim (Bool-cases (h y)) [
    | inl hit ↦ let same : y ≡ x = ground (arith, hit) in ground (arith, same)
    | inr miss ↦ let ih = count-find q h ys x (ground (arith, miss)) qx in ground (arith, ih)
  ]

  -- A row found by a key that the update leaves alone is found with the update made.
  pub find-update :
      (p q : A → Bool) (f : A → A)
      → ((x : A) → p (f x) ≡ p x)
      → (xs : List A) (x : A) → find p xs ≡ some x
      → find p (update_where q f xs) ≡ some (if q x then f x else x)
  find-update p q f key [] x e = absurd (cc e)
  find-update p q f key (y ∷ ys) x e = elim (Bool-cases (p y)) [
    | inl hit ↦ let same : y ≡ x = ground (arith, hit) in ground (arith, same, hit, key y)
    | inr miss ↦
        let ih = find-update p q f key ys x (ground (arith, miss)) in
        ground (arith, miss, key y, ih)
  ]

  pub any-update :
      (p q : A → Bool) (f : A → A)
      → ((x : A) → p (f x) ≡ p x)
      → (xs : List A) → any p (update_where q f xs) ≡ any p xs
  any-update p q f key [] = refl
  any-update p q f key (x ∷ xs) = ground (arith, key x, any-update p q f key xs)

  pub any-or :
      (p q : A → Bool) (xs : List A)
      → any (λ x. p x || q x) xs ≡ false
      → (any p xs ≡ false) × (any q xs ≡ false)
  any-or p q [] h = (refl, refl)
  any-or p q (x ∷ xs) h = ground (arith, any-or p q xs)

-- A []byte: its bytes.
abbrev pub Bytes : Type 0
Bytes = List ℕ

abbrev pub bytes_eq : Bytes → Bytes → Bool
bytes_eq [] [] = true
bytes_eq [] (y ∷ ys) = false
bytes_eq (x ∷ xs) [] = false
bytes_eq (x ∷ xs) (y ∷ ys) = x == y && bytes_eq xs ys

pub bytes_eq_iff : (xs ys : Bytes) → (bytes_eq xs ys ≡ true) ↔ (xs ≡ ys)
bytes_eq_iff [] [] = (λ _. refl, λ _. refl)
bytes_eq_iff [] (y ∷ ys) = (λ e. cc, λ e. cc)
bytes_eq_iff (x ∷ xs) [] = (λ e. cc, λ e. cc)
bytes_eq_iff (x ∷ xs) (y ∷ ys) =
    (λ e. ground (arith, bytes_eq_iff xs ys), λ e. ground (arith, bytes_eq_iff xs ys))

pub bytes_eq_refl : (xs : Bytes) → bytes_eq xs xs ≡ true
bytes_eq_refl xs = (bytes_eq_iff xs xs).1 refl

pub length-replicate {ℓ} : {A : Type ℓ} (n : ℕ) (a : A) → length (replicate n a) ≡ n
length-replicate zero a = refl
length-replicate (suc n) a = omega (arith, length-replicate n a)

pub replicate-All {ℓ κ} :
    {A : Type ℓ} (P : A → Type κ) (n : ℕ) (a : A) → P a → All P (replicate n a)
replicate-All P zero a p = tt
replicate-All P (suc n) a p = (p, replicate-All P n a p)
