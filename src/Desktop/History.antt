-- ===== src/Desktop/History.antt =====
-- The history of one row of desktop_control_commands, over the transactions of
-- internal/desktopcontrol/repository.go.
use aera_cloud.Prelude.{
  ℕ, ◌≡◌, refl, subst, ap, Bool, true, false, ◌&&◌, Option, none, some, List, [], ◌∷◌, Bytes, arith,
  inl, inr, any, find, update_where, find-any, find-passes, find-update, bytes_eq, bytes_eq_iff,
  ◌==◌, Bool-cases, Option-cases, if-cases, if◌then◌else◌, IsKeyed, IsKeyed-update, found-has_key,
}
use aera_cloud.Desktop.Model.{running, CommandResult, Command, QueueHealthCheckCommand, is_state}
use aera_cloud.Desktop.Table.{
  command_key, is_command, has_idempotency, is_overdue, expire, claim, run, complete, advance,
  new_command,
}
use aera_cloud.Desktop.Repository.{select_next, is_claimable, is_earlier}
use aera_cloud.Desktop.Lifecycle.{
  Follows, Follows-refl, Follows-trans, Follows-expired, Follows-claim, Follows-advance,
}
use aera_cloud.Desktop.Changes.{
  Change, unchanged, expires, queues, claims, advances, expired_commands,
}

advance_id : (now : ℕ) (r : CommandResult) (c : Command) → (advance now r c).id ≡ c.id
unfolding advance run complete
advance_id now r c =
    if-cases (λ (d : Command). d.id ≡ c.id) (is_state r.state running) (λ _. refl) (λ _. refl)

pub expired-IsKeyed :
    (now : ℕ) (device : Option ℕ) (cs : List Command)
    → IsKeyed command_key cs
    → IsKeyed command_key (expired_commands now device cs)
unfolding expire
expired-IsKeyed now device =
    IsKeyed-update command_key (is_overdue now device) (expire now) (λ c. refl)

-- Command ids stay unique.
pub Change-IsKeyed :
    {now : ℕ} {cs ds : List Command}
    → Change now cs ds
    → IsKeyed command_key cs
    → IsKeyed command_key ds
Change-IsKeyed unchanged k = k
Change-IsKeyed {now} {cs} (expires device) k = expired-IsKeyed now device cs k
Change-IsKeyed {now} {cs} (queues id q fresh free) k =
    (unfold new_command in fresh, expired-IsKeyed now none cs k)
Change-IsKeyed {now} {cs} (claims device c next) k =
    IsKeyed-update command_key (is_command c.id) (claim now) (λ x. unfold claim in refl) _
      (expired-IsKeyed now (some device) cs k)
Change-IsKeyed {now} {cs} (advances device id r c found step valid) k =
    IsKeyed-update command_key (is_command id) (advance now r) (advance_id now r) _
      (expired-IsKeyed now (some device) cs k)

-- A row of the rest of the table is not shadowed by its head.
found-behind :
    (x c : Command) (xs : List Command)
    → any (is_command x.id) xs ≡ false
    → find (is_command c.id) xs ≡ some c
    → find (is_command c.id) (x ∷ xs) ≡ some c
found-behind x c xs free e = elim (Bool-cases (x.id == c.id)) [
  | inl clash ↦
      let same : x.id ≡ c.id = ground (arith, clash) in
      absurd (cc (rw same at free, find-any (is_command c.id) xs c e))
  | inr other ↦ ground (arith, other, e)
]

-- The command that is claimed next is a row of the table, queued and not over.
pub select_next-found :
    (now device : ℕ) (cs : List Command) (c : Command)
    → IsKeyed command_key cs
    → select_next now device cs ≡ some c
    → (find (is_command c.id) cs ≡ some c) × (is_claimable now device c ≡ true)
unfolding select_next
select_next-found now device [] c k e = absurd (cc e)
select_next-found now device (x ∷ xs) c k e = elim (Bool-cases (is_claimable now device x)) [
  | inl hit ↦ elim (Option-cases (select_next now device xs)) [
    | inl f ↦ this hit (ground (arith, hit, f, e))
    | inr (d, f) ↦ elim (Bool-cases (is_earlier x d)) [
      | inl b ↦ this hit (ground (arith, hit, f, b, e))
      | inr b ↦ behind (select_next-found now device xs c k.1 (ground (arith, hit, f, b, e)))
    ]
  ]
  | inr miss ↦ behind (select_next-found now device xs c k.1 (ground (arith, miss, e)))
]
  where
    this :
        is_claimable now device x ≡ true
        → x ≡ c
        → (find (is_command c.id) (x ∷ xs) ≡ some c) × (is_claimable now device c ≡ true)
    this hit same = (ground (arith, same), rw (← same) hit)

    behind :
        (find (is_command c.id) xs ≡ some c) × (is_claimable now device c ≡ true)
        → (find (is_command c.id) (x ∷ xs) ≡ some c) × (is_claimable now device c ≡ true)
    behind (found, ok) = (found-behind x c xs k.0 found, ok)

-- A key by which a row is found again: its columns never change, and no new row takes it.
pub record IsStable (p : Command → Bool) : Type 0 where
  pub same :
      (c d : Command)
      → d.id ≡ c.id
      → d.device_id ≡ c.device_id
      → d.idempotency_key_hash ≡ c.idempotency_key_hash
      → p d ≡ p c
  pub fresh :
      (now id : ℕ) (q : QueueHealthCheckCommand) (cs : List Command) (c : Command)
      → any (is_command id) cs ≡ false
      → find (has_idempotency q.device_id q.idempotency_key_hash) cs ≡ none
      → find p cs ≡ some c
      → p (new_command id now q) ≡ false

pub is_command-IsStable : (i : ℕ) → IsStable (is_command i)
is_command-IsStable i = record {
  same = λ c d id device key. ap (λ k. k == i) id;
  fresh = λ now id q cs c taken free e.
      unfold new_command in
      elim (Bool-cases (id == i)) [
        | inl hit ↦
            let eq : id ≡ i = ground (arith, hit) in
            absurd (cc (rw eq at taken, find-any (is_command i) cs c e))
        | inr miss ↦ miss
      ];
}

pub has_idempotency-IsStable : (d : ℕ) (k : Bytes) → IsStable (has_idempotency d k)
has_idempotency-IsStable d k = record {
  same = λ c e id device key. rw (device, key) refl;
  fresh = λ now id q cs c taken free e.
      unfold new_command in
      elim (Bool-cases (q.device_id == d && bytes_eq q.idempotency_key_hash k)) [
        | inl hit ↦
            let device : q.device_id ≡ d = ground (arith, hit) in
            let key = (bytes_eq_iff q.idempotency_key_hash k).0 (ground (arith, hit)) in
            absurd (cc (rw (device, key) at free, e))
        | inr miss ↦ miss
      ];
}

module _ (p : Command → Bool) (stable : IsStable p) (now : ℕ) (cs : List Command)
    (k : IsKeyed command_key cs) (c : Command) (e : find p cs ≡ some c) where
  abbrev Later : List Command → Type 0
  Later ds = (d : Command) × (find p ds ≡ some d) × Follows c d

  expired-Later : (device : Option ℕ) → Later (expired_commands now device cs)
  expired-Later device = (
    if is_overdue now device c then expire now c else c,
    find-update p (is_overdue now device) (expire now)
        (λ x. unfold expire in stable.same x (expire now x) refl refl refl) cs c e,
    Follows-expired now device c,
  )

  -- An update by the primary key of a row that may move.
  moved-Later :
      (i : ℕ) (x : Command) (f : Command → Command) (device : Option ℕ)
      → ((y : Command) → p (f y) ≡ p y)
      → find (is_command i) (expired_commands now device cs) ≡ some x
      → Follows x (f x)
      → Later (update_where (is_command i) f (expired_commands now device cs))
  moved-Later i x f device keeps found step =
      let (c1, e1, f1) = expired-Later device in
      let cs1 = expired_commands now device cs in
      let at = find-update p (is_command i) f keeps cs1 c1 e1 in
      (if is_command i c1 then f c1 else c1, at, Follows-trans c c1 _ f1 (step_of c1 e1))
    where
      step_of :
          (c1 : Command)
          → find p (expired_commands now device cs) ≡ some c1
          → Follows c1 (if is_command i c1 then f c1 else c1)
      step_of c1 e1 = elim (Bool-cases (is_command i c1)) [
        | inl hit ↦
            let own : c1.id ≡ i = ground (arith, hit) in
            let self =
              found-has_key command_key p (expired_commands now device cs) c1
                (expired-IsKeyed now device cs k) e1 in
            let same : c1 ≡ x = ground (arith, rw own at self, found) in rw (hit, same) step
        | inr miss ↦ rw miss (Follows-refl c1)
      ]

  -- Whatever is done to the table, the row is found again, moved only along transitions.
  pub Change-Later : {ds : List Command} → Change now cs ds → Later ds
  Change-Later unchanged = (c, e, Follows-refl c)
  Change-Later (expires device) = expired-Later device
  Change-Later (queues id q fresh free) =
      let (c1, e1, f1) = expired-Later none in
      let other = stable.fresh now id q (expired_commands now none cs) c1 fresh free e1 in
      (c1, rw other e1, f1)
  Change-Later (claims device x next) =
      let (found, ok) =
        select_next-found now device (expired_commands now (some device) cs) x
          (expired-IsKeyed now (some device) cs k) next in
      moved-Later x.id x (claim now) (some device)
        (λ y. unfold claim in stable.same y (claim now y) refl refl refl) found
        (Follows-claim now x (unfold is_claimable in ground (arith, ok)))
  Change-Later (advances device id r x found step valid) =
      moved-Later id x (advance now r) (some device) keeps by_id (Follows-advance now r x step)
    where
      keeps : (y : Command) → p (advance now r y) ≡ p y
      keeps y =
          unfold advance run complete in
          if-cases (λ (d : Command). p d ≡ p y) (is_state r.state running)
            (λ _. stable.same y (run now y) refl refl refl)
            (λ _. stable.same y (complete now r y) refl refl refl)

      by_id : find (is_command id) (expired_commands now (some device) cs) ≡ some x
      by_id =
          let own : x.id ≡ id = ground (
            arith,
            find-passes (λ y. is_command id y && y.device_id == device)
                (expired_commands now (some device) cs) x found,
          ) in
          subst (λ j. find (is_command j) (expired_commands now (some device) cs) ≡ some x) own
            (found-has_key command_key (λ y. is_command id y && y.device_id == device)
              (expired_commands now (some device) cs) x (expired-IsKeyed now (some device) cs k)
              found)
