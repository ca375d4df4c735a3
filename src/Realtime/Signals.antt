-- ===== src/Realtime/Signals.antt =====
-- apps/server/src/modules/realtime/ephemeral-signals.ts: presence and typing with a sequence number
-- and a deadline for each actor. Times are milliseconds; a `Date` string is its time.
pub mod Deadlines
use learning_orbit.Prelude.{
  ℕ, ◌+◌, ◌≤◌, ◌<◌, ◌≡◌, refl, String, Bool, true, false, Option, none, some, List, [], ◌∷◌, ◌++◌,
  map, leb, if◌then◌else◌, arith, get, put, remove, get-put_self, filterb,
}
use learning_orbit.Wire.{Attention, active, away, ServerFrame, presence, typing}

pub record Signal : Type 0 where
  pub seq : ℕ
  pub expires_at : ℕ

pub record EphemeralSignals : Type 0 where
  pub presences : List (String × Signal)
  pub typings : List (String × Signal)

abbrev pub no_signals : EphemeralSignals
no_signals = record { presences = []; typings = [] }

-- The guard of both `accept` methods: the sequence number of an actor must grow.
abbrev is_old : Option Signal → ℕ → Bool
is_old none seq = false
is_old (some old) seq = leb seq old.seq

unfoldable pub accept_presence :
    EphemeralSignals → String → Attention → ℕ → ℕ → EphemeralSignals × Option ServerFrame
accept_presence s actor_id state seq now =
    if is_old (get actor_id s.presences) seq then (s, none) else (
      record s {
        presences = put actor_id (record { seq = seq; expires_at = now + 30_000 }) s.presences;
      },
      some (presence actor_id state (now + 30_000)),
    )

unfoldable pub accept_typing :
    EphemeralSignals → String → Bool → ℕ → ℕ → EphemeralSignals × Option ServerFrame
accept_typing s actor_id is_typing seq now =
    if is_old (get actor_id s.typings) seq then (s, none) else (
      record s {
        typings = put actor_id (record { seq = seq; expires_at = now + 5_000 }) s.typings;
      },
      some (typing actor_id is_typing (now + 5_000)),
    )

abbrev is_due : ℕ → String × Signal → Bool
is_due now e = leb (e.1).expires_at now

abbrev is_live : ℕ → String × Signal → Bool
is_live now e = if is_due now e then false else true

unfoldable pub expire : EphemeralSignals → ℕ → EphemeralSignals × List ServerFrame
expire s now = (
  record { presences = filterb (is_live now) presences; typings = filterb (is_live now) typings },
  map (λ e. presence e.0 away now) (filterb (is_due now) presences)
      ++ map (λ e. typing e.0 false now) (filterb (is_due now) typings),
)
  where
    open s use {presences, typings}

-- `remove` of the class: the tombstones of a departed actor.
unfoldable pub remove_actor : EphemeralSignals → String → ℕ → EphemeralSignals × List ServerFrame
remove_actor s actor_id now = (
  record { presences = remove actor_id s.presences; typings = remove actor_id s.typings },
  presence actor_id away now ∷ typing actor_id false now ∷ [],
)
