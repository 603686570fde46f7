-- ===== src/Desktop/Lifecycle.antt =====
-- The life of a command (internal/desktopcontrol/model.go, CanTransition): its states in order, and
-- what one row may become.
use aera_cloud.Prelude.{ℕ, ◌≡◌, refl, ◌∙◌, true, false, Option, arith, if◌then◌else◌, if-cases}
use aera_cloud.Desktop.Model.{
  CommandState, queued, running, CommandResult, Command, can_transition, is_state,
}
use aera_cloud.Desktop.Table.{is_terminal, is_overdue, expire, claim, run, complete, advance}

infix 40 ◌⟶*◌
-- Zero or more transitions that CanTransition allows.
pub data ◌⟶*◌ : CommandState → CommandState → Type 0 where
  stays : {s : CommandState} → s ⟶* s
  moves : {s t u : CommandState} → s ⟶* t → can_transition t u ≡ true → s ⟶* u

pub ⟶*-trans : {s t u : CommandState} → s ⟶* t → t ⟶* u → s ⟶* u
⟶*-trans a stays = a
⟶*-trans a (moves b e) = moves (⟶*-trans a b) e

-- Nothing leads back to `queued`.
pub ⟶*-unqueued :
    {s t : CommandState} → s ⟶* t → is_state s queued ≡ false → is_state t queued ≡ false
unfolding can_transition
⟶*-unqueued stays h = h
⟶*-unqueued (moves {t = t} {u = u} a e) h = ground (arith, e)

-- A later version of a row: the same command, moved along transitions; a final one is unchanged.
pub record Follows (c d : Command) : Type 0 where
  pub id : d.id ≡ c.id
  pub device : d.device_id ≡ c.device_id
  pub key : d.idempotency_key_hash ≡ c.idempotency_key_hash
  pub expiry : d.expires_at ≡ c.expires_at
  pub path : c.state ⟶* d.state
  pub final : is_terminal c.state ≡ true → d ≡ c

pub Follows-refl : (c : Command) → Follows c c
Follows-refl c = record {
  id = refl;
  device = refl;
  key = refl;
  expiry = refl;
  path = stays;
  final = λ t. refl;
}

pub Follows-trans : (c d e : Command) → Follows c d → Follows d e → Follows c e
Follows-trans c d e f g = record {
  id = g.id ∙ f.id;
  device = g.device ∙ f.device;
  key = g.key ∙ f.key;
  expiry = g.expiry ∙ f.expiry;
  path = ⟶*-trans f.path g.path;
  final = λ t. g.final (rw (f.final t) t) ∙ f.final t;
}

Follows-expire :
    (now : ℕ) (device : Option ℕ) (c : Command)
    → is_overdue now device c ≡ true
    → Follows c (expire now c)
unfolding is_overdue expire can_transition
Follows-expire now device c h = record {
  id = refl;
  device = refl;
  key = refl;
  expiry = refl;
  path = moves stays (ground (arith, h));
  final = λ t. absurd (ground (arith, h, t));
}

pub Follows-claim :
    (now : ℕ) (c : Command) → is_state c.state queued ≡ true → Follows c (claim now c)
unfolding claim can_transition
Follows-claim now c h = record {
  id = refl;
  device = refl;
  key = refl;
  expiry = refl;
  path = moves stays (ground (arith, h));
  final = λ t. absurd (ground (arith, h, t));
}

pub Follows-advance :
    (now : ℕ) (r : CommandResult) (c : Command)
    → can_transition c.state r.state ≡ true
    → Follows c (advance now r c)
unfolding advance run complete can_transition
Follows-advance now r c h =
    if-cases (Follows c) (is_state r.state running)
      (λ e. record {
        id = refl;
        device = refl;
        key = refl;
        expiry = refl;
        path = moves stays (ground (arith, h, e));
        final = λ t. absurd (ground (arith, h, t));
      })
      (λ e. record {
        id = refl;
        device = refl;
        key = refl;
        expiry = refl;
        path = moves stays h;
        final = λ t. absurd (ground (arith, h, t));
      })

-- What expireOverdueCommands makes of one row.
pub Follows-expired :
    (now : ℕ) (device : Option ℕ) (c : Command)
    → Follows c (if is_overdue now device c then expire now c else c)
Follows-expired now device c =
    if-cases (Follows c) (is_overdue now device c) (Follows-expire now device c)
      (λ e. Follows-refl c)
