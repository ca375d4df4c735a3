-- ===== src/Realtime/Signals/Deadlines.antt =====
-- The sequence numbers and deadlines of the ephemeral signals.
use learning_orbit.Prelude.{
  ℕ, suc, ap, ◌+◌, ◌<◌, ◌≡◌, refl, ◌↔◌, ◌⊎◌, String, Bool, true, false, Option, none, some, List,
  [], ◌∷◌, arith, get, get-put, get-put_self, ◌===◌, filterb, length, map, All, if-cases,
  length-append,
}
use learning_orbit.Wire.{Attention, away, ServerFrame, presence, typing}
use learning_orbit.Realtime.Signals.{
  Signal, EphemeralSignals, accept_presence, is_due, is_live, expire,
}

-- The sequence number on record for an actor, below every number while there is none.
abbrev pub IsNewer : Option Signal → ℕ → Type 0
IsNewer none seq = Unit
IsNewer (some old) seq = old.seq < seq

-- A presence is broadcast exactly if its number is newer than the actor's last one. Then it is on
-- record with a deadline of thirty seconds, and otherwise nothing changes; no other actor's entry
-- is touched either way.
pub accept_presence_lem :
    (s : EphemeralSignals) (actor : String) (state : Attention) (seq now : ℕ)
    → let r = accept_presence s actor state seq now in
      ((r.1 ≡ some (presence actor state (now + 30_000))) ↔ IsNewer (get actor s.presences) seq)
      × ((r.1 ≡ none)
          ⊎ (get actor r.0.presences ≡ some (record { seq = seq; expires_at = now + 30_000 })))
      × ((other : String)
          → (actor === other) ≡ false
          → get other r.0.presences ≡ get other s.presences)
unfolding accept_presence
accept_presence_lem s actor state seq now =
    let mine : Signal = record { seq = seq; expires_at = now + 30_000 } in
    (
      (ground arith, ground arith),
      ground (arith, get-put_self actor mine s.presences),
      λ other apart. ground (arith, get-put actor other mine s.presences),
    )

filterb-All :
    (P : String × Signal → Type 0) (p : String × Signal → Bool) (m : List (String × Signal))
    → ((e : String × Signal) → p e ≡ true → P e)
    → All P (filterb p m)
filterb-All P p [] h = tt
filterb-All P p (e ∷ m) h =
    if-cases (All P) (p e) (λ t. (h e t, filterb-All P p m h)) (λ _. filterb-All P p m h)

length-split :
    (now : ℕ) (m : List (String × Signal))
    → length (filterb (is_live now) m) + length (filterb (is_due now) m) ≡ length m
length-split now [] = omega arith
length-split now (e ∷ m) = ground (arith, length-split now m)

length-map :
    (f : String × Signal → ServerFrame) (m : List (String × Signal)) → length (map f m) ≡ length m
length-map f [] = refl
length-map f (e ∷ m) = ap suc (length-map f m)

-- After a sweep every entry that remains has its deadline ahead, and each entry that went is
-- answered by exactly one tombstone.
pub expire_lem :
    (s : EphemeralSignals) (now : ℕ)
    → let r = expire s now in
      All (λ e. now < (e.1).expires_at) r.0.presences
      × All (λ e. now < (e.1).expires_at) r.0.typings
      × (length r.0.presences + length r.0.typings + length r.1
          ≡ length s.presences + length s.typings)
unfolding expire
expire_lem s now =
    let ahead = λ (e : String × Signal). now < (e.1).expires_at in
    (
      filterb-All ahead (is_live now) s.presences (λ e t. ground arith),
      filterb-All ahead (is_live now) s.typings (λ e t. ground arith),
      omega (
        arith,
        length-split now s.presences,
        length-split now s.typings,
        length-append {A = ServerFrame}
            (map (λ e. presence e.0 away now) (filterb (is_due now) s.presences))
            (map (λ e. typing e.0 false now) (filterb (is_due now) s.typings)),
        length-map (λ e. presence e.0 away now) (filterb (is_due now) s.presences),
        length-map (λ e. typing e.0 false now) (filterb (is_due now) s.typings),
      ),
    )
