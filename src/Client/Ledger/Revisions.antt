-- ===== src/Client/Ledger/Revisions.antt =====
-- What the messages of a ledger remember.
use learning_orbit.Prelude.{
  ◌≤◌, ◌≡◌, refl, sym, subst, String, Bool, true, Option, none, some, inl, inr, List, [], ◌∷◌, ◌++◌,
  arith, get, get-put, ===_iff, ◌===◌, any, includes, add_ids, not, ◌&&◌, ◌||◌, if-cases,
  Bool-cases, if◌then◌else◌,
}
use learning_orbit.Wire.{RoomEvent, MessagePayload}
use learning_orbit.Client.Ledger.{
  EventLedger, LedgerMessage, message_of, supersedes, next_message, update_messages, accept,
  append_event, append, values, add_ids, collect_media, active_media_ids, is_retracted,
}

-- The message `m` lives on in what is found under its id: its author and its place are the same, and
-- its revision is no smaller.
abbrev pub LivesOn : LedgerMessage → Option LedgerMessage → Type 0
LivesOn m none = ⊥
LivesOn m (some n) =
    (m.revision ≤ n.revision)
    × (n.first_room_seq ≡ m.first_room_seq)
    × (n.actor_id ≡ m.actor_id)
    × (n.actor_kind ≡ m.actor_kind)
    × (n.actor_role ≡ m.actor_role)

LivesOn-refl : (m : LedgerMessage) → LivesOn m (some m)
LivesOn-refl m = ground arith

LivesOn-next :
    (e : RoomEvent) (id : String) (visible : Option MessagePayload) (m : LedgerMessage)
    → supersedes e (some m) ≡ true
    → LivesOn m (some (next_message e id visible (some m)))
unfolding next_message
LivesOn-next e id visible m h = ground arith

update_messages-LivesOn :
    (e : RoomEvent) (change : Option (String × Option MessagePayload))
    (ms : List (String × LedgerMessage)) (id : String) (m : LedgerMessage)
    → get id ms ≡ some m
    → LivesOn m (get id (update_messages e change ms))
unfolding update_messages
update_messages-LivesOn e none ms id m h = rw h (LivesOn-refl m)
update_messages-LivesOn e (some (k, visible)) ms id m h =
    let v = next_message e k visible (get k ms) in
    if-cases (λ (ns : List (String × LedgerMessage)). LivesOn m (get id ns))
      (supersedes e (get k ms))
      (λ newer. rw (get-put k id v ms) (
        if-cases (LivesOn m) (k === id)
          (λ same. here newer (subst (λ j. get j ms ≡ some m) (sym ((===_iff k id).0 same)) h))
          (λ _. rw h (LivesOn-refl m))))
      (λ _. rw h (LivesOn-refl m))
  where
    here :
        supersedes e (get k ms) ≡ true
        → get k ms ≡ some m
        → LivesOn m (some (next_message e k visible (get k ms)))
    here newer found = rw found (LivesOn-next e k visible m (rw found at newer))

-- No event makes the ledger forget a message: after any `append` the message is still found under
-- its id, by the same author and at its first place, with a revision that has not gone back.
pub append-LivesOn :
    (v : Option RoomEvent) (l : EventLedger) (id : String) (m : LedgerMessage)
    → get id l.message_map ≡ some m
    → LivesOn m (get id (append v l).0.message_map)
unfolding append append_event accept
append-LivesOn none l id m h = rw h (LivesOn-refl m)
append-LivesOn (some e) l id m h =
    ground
      (arith, update_messages-LivesOn e (message_of e.body) l.message_map id m h, LivesOn-refl m)

-- A message keeps a media id in use while it lists the id and is not retracted.
abbrev pub uses : String → LedgerMessage → Bool
uses x m = not (is_retracted m.operation) && includes x m.media_ids

any-append {ℓ} :
    {A : Type ℓ} (p : A → Bool) (xs ys : List A) → any p (xs ++ ys) ≡ any p xs || any p ys
any-append p [] ys = refl
any-append p (x ∷ xs) ys = ground (arith, any-append p xs ys)

includes-known :
    (x y : String) (ids : List String)
    → includes y ids ≡ true
    → includes x ids ≡ includes x ids || y === x
includes-known x y ids h = elim (Bool-cases (y === x)) [
  | inl t ↦ let found = subst (λ z. includes z ids ≡ true) ((===_iff y x).0 t) h in rw found
  | inr t ↦ ground arith
]

includes-add_id :
    (x y : String) (ids : List String)
    → includes x (if includes y ids then ids else ids ++ y ∷ []) ≡ includes x ids || y === x
includes-add_id x y ids =
    if-cases (λ js. includes x js ≡ includes x ids || y === x) (includes y ids)
      (λ h. includes-known x y ids h) (λ _. ground (arith, any-append (λ z. z === x) ids (y ∷ [])))

includes-add_ids :
    (x : String) (xs ids : List String)
    → includes x (add_ids xs ids) ≡ includes x ids || includes x xs
unfolding add_ids
includes-add_ids x [] ids = ground arith
includes-add_ids x (y ∷ xs) ids = ground (
  arith,
  includes-add_ids x xs (if includes y ids then ids else ids ++ y ∷ []),
  includes-add_id x y ids,
)

collect_media-any :
    (x : String) (ms : List LedgerMessage) (ids : List String)
    → includes x (collect_media ms ids) ≡ includes x ids || any (uses x) ms
unfolding collect_media
collect_media-any x [] ids = ground arith
collect_media-any x (m ∷ ms) ids = elim (Bool-cases (is_retracted m.operation)) [
  | inl t ↦ rw t (collect_media-any x ms ids)
  | inr t ↦ rw t (
      ground (
        arith,
        collect_media-any x ms (add_ids m.media_ids ids),
        includes-add_ids x m.media_ids ids,
      ))
]

-- A media id is active exactly if some message that is not retracted lists it; a retraction releases
-- an id that no other message lists.
pub active_media_ids_lem :
    (x : String) (l : EventLedger)
    → includes x (active_media_ids l) ≡ any (uses x) (values l.message_map)
unfolding active_media_ids
active_media_ids_lem x l = collect_media-any x (values l.message_map) []
