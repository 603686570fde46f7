-- ===== src/Desktop/Once.antt =====
-- A command is claimed once: ClaimNextCommand of internal/desktopcontrol/repository.go.
use aera_cloud.Prelude.{
  ℕ, ◌≡◌, ◌≢◌, refl, sym, ap, ◌∙◌, subst, Bool, true, false, ◌||◌, not, Option, none, some, List,
  arith, inl, inr, find, update_where, ok, err, Result, Option-cases, if-cases, if◌then◌else◌,
  find-update,
}
use aera_cloud.Session.Table.{Directory}
use aera_cloud.Desktop.Model.{
  DesktopError, DevicePrincipal, Instance, queued, Command, is_state, valid_principal,
  capability_health_read,
}
use aera_cloud.Desktop.Table.{Tables, Faults, is_command, expired_tables, claim}
use aera_cloud.Desktop.Repository.{
  operator, require_active_device, read_instance, read_command, finish, has_capability, select_next,
  is_claimable, some_command, claim_selected, claim_read, claim_checked, claim_next_command,
}
use aera_cloud.Desktop.Lifecycle.{◌⟶*◌, ⟶*-trans, ⟶*-unqueued}
use aera_cloud.Desktop.Changes.{expires, expired_commands, claim_next_command-Change}
use aera_cloud.Desktop.History.{
  select_next-found, Change-Later, Change-IsKeyed, expired-IsKeyed, is_command-IsStable,
}
use aera_cloud.Desktop.Trace.{Steps, IsKeyedTable, Steps-IsKeyed, Steps-Later}

-- An answer that was committed.
finish_ok :
    {A : Type 0} (db : Faults) (old new : Tables) (r : Result DesktopError A) (a : A)
    → (finish db old new r).0 ≡ ok a
    → (r ≡ ok a) × ((finish db old new r).1 ≡ new)
unfolding finish
finish_ok db old new (err x) a e = ground (arith, e)
finish_ok db old new (ok y) a e = ground (arith, e)

read_claimed :
    (fails : Bool) (i : ℕ) (t : Tables) (c : Command)
    → some_command (read_command fails i t) ≡ ok (some c)
    → find (is_command i) t.commands ≡ some c
unfolding read_command
read_claimed fails i t c e = elim (Option-cases (find (is_command i) t.commands)) [
  | inl f ↦ ground (arith, e, f)
  | inr (d, f) ↦ ground (arith, e, f)
]

-- A claim that answered with a command: the row was queued and not over, and is claimed now.
pub record IsClaim (now device : ℕ) (c : Command) (t u : Tables) : Type 0 where
  pub source : Command
  pub waiting : find (is_command c.id) (expired_commands now (some device) t.commands) ≡ some source
  pub claimable : is_claimable now device source ≡ true
  pub answer : c ≡ claim now source
  pub stored : find (is_command c.id) u.commands ≡ some c

module _ (db : Faults) (dir : Directory) (now : ℕ) (p : DevicePrincipal) (t : Tables)
    (k : IsKeyedTable t) (c : Command) where
  abbrev Claimed : Result DesktopError (Option Command) × Tables → Type 0
  Claimed o = o.0 ≡ ok (some c) → IsClaim now p.device_id c t o.1

  t1 : Tables
  t1 = expired_tables operator now (some p.device_id) t

  selected-IsClaim :
      (x : Command)
      → select_next now p.device_id t1.commands ≡ some x
      → Claimed (claim_selected db now t t1 (some x))
  unfolding claim_selected t1 expired_tables claim
  selected-IsClaim x next =
      if-cases Claimed db.write (λ _ e. absurd (cc e))
        (λ _ e.
          let (read, new) = finish_ok db t _ _ (some c) e in
          let (found, waiting) =
            select_next-found now p.device_id t1.commands x
              (expired-IsKeyed now (some p.device_id) t.commands k) next in
          let stored =
            find-update (is_command x.id) (is_command x.id) (claim now) (λ y. refl) t1.commands x
              found in
          let again = read_claimed db.reread x.id _ c read in
          let same : c ≡ claim now x = claimed_as x c _ again stored in
          let own : c.id ≡ x.id = ap (λ y. y.id) same in
          record {
            source = x;
            waiting = rw own found;
            claimable = waiting;
            answer = same;
            stored =
                subst (λ (v : Tables). find (is_command c.id) v.commands ≡ some c) (sym new)
                  (subst
                    (λ j.
                      find (is_command j) (update_where (is_command x.id) (claim now) t1.commands)
                      ≡ some c)
                    (sym own) again);
          })
    where
      claimed_as :
          (x c : Command) (cs : List Command)
          → find (is_command x.id) cs ≡ some c
          → find (is_command x.id) cs ≡ some (if is_command x.id x then claim now x else x)
          → c ≡ claim now x
      claimed_as x c cs e f = ground (arith, e, f)

  claim_selected-IsClaim :
      (x : Option Command)
      → select_next now p.device_id t1.commands ≡ x
      → Claimed (claim_selected db now t t1 x)
  unfolding claim_selected
  claim_selected-IsClaim none next = λ e. ground (arith, e)
  claim_selected-IsClaim (some x) next = selected-IsClaim x next

  claim-IsClaim : Claimed (claim_next_command db dir now p t)
  unfolding claim_next_command claim_checked claim_read t1
  claim-IsClaim =
      if-cases Claimed (not (valid_principal p)) (λ _ e. absurd (cc e))
        (λ _.
          if-cases Claimed db.begin (λ _ e. absurd (cc e))
            (λ _. checked (require_active_device db dir p)))
    where
      read : (x : Result DesktopError Instance) → Claimed (claim_read db now p t x)
      read (err x) = λ e. absurd (cc e)
      read (ok i) =
          if-cases Claimed (not (has_capability i.row.capabilities capability_health_read))
            (λ _ e. ground (arith, e))
            (λ _.
              if-cases Claimed (db.expire || db.select) (λ _ e. absurd (cc e))
                (λ _. claim_selected-IsClaim _ refl))

      checked : (x : Result DesktopError (Unit {0})) → Claimed (claim_checked db dir now p t x)
      checked (err x) = λ e. absurd (cc e)
      checked (ok u) = read (read_instance db.read dir p.device_id t)

-- A command is claimed at most once: after ClaimNextCommand answered with a command, no
-- ClaimNextCommand answers with it again, whatever is done in between, by any desktop and with any
-- faults.
pub claim_once :
    (db db' : Faults) (dir dir' : Directory) (now now' : ℕ) (p p' : DevicePrincipal) (t : Tables)
    {u : Tables} (c c' : Command)
    → IsKeyedTable t
    → (claim_next_command db dir now p t).0 ≡ ok (some c)
    → Steps (claim_next_command db dir now p t).1 u
    → (claim_next_command db' dir' now' p' u).0 ≡ ok (some c')
    → c'.id ≢ c.id
claim_once db db' dir dir' now now' p p' t {u} c c' k e steps e' same =
    let first = claim-IsClaim db dir now p t k c e in
    let key = Change-IsKeyed (claim_next_command-Change now t db dir p) k in
    let (d, found, later) =
      Steps-Later (is_command c.id) (is_command-IsStable c.id) c key steps first.stored in
    let ku = Steps-IsKeyed steps key in
    let second = claim-IsClaim db' dir' now' p' u ku c' e' in
    let (x, again, after) =
      Change-Later (is_command c.id) (is_command-IsStable c.id) now' u.commands ku d found
        (expires (some p'.device_id)) in
    let there =
      subst
        (λ i.
          find (is_command i) (expired_commands now' (some p'.device_id) u.commands)
          ≡ some second.source)
        same second.waiting in
    absurd (
      twice c (first.source) x (second.source) (first.answer) (⟶*-trans later.path after.path)
        (sym again ∙ there) (second.claimable))
  where
    twice :
        (c c0 x y : Command)
        → c ≡ claim now c0
        → c.state ⟶* x.state
        → some x ≡ some y
        → is_claimable now' p'.device_id y ≡ true
        → ⊥
    twice c c0 x y from path eq free =
        unfold claim is_claimable in
        let start : is_state c.state queued ≡ false = ground (arith, from) in
        let end = ⟶*-unqueued path start in ground (arith, eq, free, end)
