-- ===== src/Client/Commands/WellMade.antt =====
-- What reaches the transport from `send` of the command bus, and what `send` answers.
use learning_orbit.Prelude.{
  String, Bool, true, Option, none, some, List, [], ◌∷◌, ◌||◌, ◌&&◌, not, ◌===◌, ===_iff, ◌≡◌, refl,
  ◌≤◌, ◌<◌, ◌≢◌, ltb, length, unique, AreDistinct, add_ids-AreDistinct, if-cases, inl, inr, arith,
  ◌⊎◌, ap, subst,
}
use learning_orbit.Wire.{CommandType, message_add, message_revise, CommandPayload, RoomCommand}
use learning_orbit.Client.Commands.{
  RoomChange, open_room, pause_room, resume_room, close_room, RoomCommandIntent, change, add,
  revise, retract, BusError, command_clock_invalid, message_text_or_media_required,
  message_media_limit_exceeded, message_text_required, invalid_room_command, Common, no_payload,
  change_type, Built, built, refused, Sent, sent, thrown, build, confirm, freeze, dispatch_built,
  send,
}

abbrev pub is_blank : Option String → Bool
is_blank none = true
is_blank (some t) = t === ""

abbrev pub listed : Option (List String) → List String
listed none = []
listed (some xs) = xs

-- A message that is added has text or media, one that is revised has text.
abbrev pub has_content : CommandType → CommandPayload → Bool
has_content message_add p = not (is_blank p.text) || ltb 0 (length (listed p.media_ids))
has_content message_revise p = not (is_blank p.text)
has_content _ p = true

pub record IsWellMade (id room_id : String) (c : RoomCommand) : Type 0 where
  pub own_id : c.command_id ≡ id
  pub own_room : c.room_id ≡ room_id
  pub content : has_content c.command_type c.payload ≡ true
  pub mentions_distinct : AreDistinct (listed c.payload.mentions)
  pub media_distinct : AreDistinct (listed c.payload.media_ids)
  pub media_bounded : length (listed c.payload.media_ids) ≤ 4

unique-AreDistinct : (xs : List String) → AreDistinct (unique xs)
unique-AreDistinct xs = add_ids-AreDistinct xs [] tt

change-content : (c : RoomChange) → has_content (change_type c) no_payload ≡ true
change-content open_room = refl
change-content pause_room = refl
change-content resume_room = refl
change-content close_room = refl

module _ (trim : String → String) where
  -- What an intent lacks that is refused with this error.
  abbrev pub Lacks : RoomCommandIntent → BusError → Type 0
  Lacks (add text _ _ media_ids) message_text_or_media_required =
      (trim text ≡ "") × (length (unique media_ids) ≡ 0)
  Lacks (add _ _ _ media_ids) message_media_limit_exceeded = 4 < length (unique media_ids)
  Lacks (revise _ text _ _ _) message_text_required = trim text ≡ ""
  Lacks _ _ = ⊥

  abbrev IsBuilt : String → String → RoomCommandIntent → Built → Type 0
  IsBuilt id room_id intent (refused e) = Lacks intent e
  IsBuilt id room_id intent (built c) = IsWellMade id room_id c

  build-IsBuilt :
      (common : Common) (intent : RoomCommandIntent)
      → IsBuilt common.command_id common.room_id intent (build trim common intent)
  unfolding build
  build-IsBuilt common (change c) = record {
    own_id = refl;
    own_room = refl;
    content = change-content c;
    mentions_distinct = tt;
    media_distinct = tt;
    media_bounded = omega arith;
  }
  build-IsBuilt common (add text reply_to mentions media_ids) =
      let P = IsBuilt common.command_id common.room_id (add text reply_to mentions media_ids) in
      if-cases P (trim text === "" && not (ltb 0 (length (unique media_ids))))
        (λ t. (ground (arith, t, ===_iff (trim text) ""), ground (arith, t)))
        (λ f.
          if-cases P (ltb 4 (length (unique media_ids))) (λ t. ground (arith, t))
            (λ g. record {
              own_id = refl;
              own_room = refl;
              content = ground (arith, f);
              mentions_distinct = unique-AreDistinct mentions;
              media_distinct = unique-AreDistinct media_ids;
              media_bounded = ground (arith, g);
            }))
  build-IsBuilt common (revise message_id text reply_to mentions base) =
      if-cases
        (IsBuilt common.command_id common.room_id (revise message_id text reply_to mentions base))
        (trim text === "") (λ t. (===_iff (trim text) "").0 t)
        (λ f. record {
          own_id = refl;
          own_room = refl;
          content = ap not f;
          mentions_distinct = unique-AreDistinct mentions;
          media_distinct = tt;
          media_bounded = omega arith;
        })
  build-IsBuilt common (retract message_id base) = record {
    own_id = refl;
    own_room = refl;
    content = refl;
    mentions_distinct = tt;
    media_distinct = tt;
    media_bounded = omega arith;
  }

  module _ (encode : RoomCommand → Option String) (transport : RoomCommand → Option String) where
    -- The transport is not called: the clock is invalid, the intent lacks something, or the contract
    -- does not encode the command.
    abbrev pub IsUnsent : Option String → String → String → RoomCommandIntent → BusError → Type 0
    IsUnsent now id room_id intent e =
        ((now ≡ none) × (e ≡ command_clock_invalid))
        ⊎ Lacks intent e
        ⊎ ((e ≡ invalid_room_command)
            × ((c : RoomCommand) × IsWellMade id room_id c × (encode c ≡ none)))

    -- What one call of `send` amounts to: it throws before the transport is called; or the transport
    -- gets one command, well made and valid, and `send` returns its id if the transport answers with
    -- it, and throws if it does not.
    abbrev pub Amounts :
        Option String → String → String → RoomCommandIntent → List RoomCommand × Sent → Type 0
    Amounts now id room_id intent r =
        ((r.0 ≡ []) × ((e : BusError) × (r.1 ≡ thrown e) × IsUnsent now id room_id intent e))
        ⊎ ((c : RoomCommand) × (r.0 ≡ c ∷ [])
            × IsWellMade id room_id c
            × ((text : String) × (encode c ≡ some text))
            × (((transport c ≡ some id) × (r.1 ≡ sent id))
                ⊎ ((transport c ≢ some id) × ((e : BusError) × (r.1 ≡ thrown e)))))

    confirm-cases :
        (id : String) (r : Option String)
        → ((r ≡ some id) × (confirm trim encode transport id r ≡ sent id))
          ⊎ ((r ≢ some id) × ((e : BusError) × (confirm trim encode transport id r ≡ thrown e)))
    unfolding confirm
    confirm-cases id none = inr ((λ q. ground (arith, q)), (_, refl))
    confirm-cases id (some s) =
        if-cases
          (λ (o : Sent).
            ((some s ≡ some id) × (o ≡ sent id))
            ⊎ ((some s ≢ some id) × ((e : BusError) × (o ≡ thrown e))))
          (not (s === id)) (λ t. inr ((λ q. ground (arith, t, q, ===_iff s id)), (_, refl)))
          (λ t. inl (ground (arith, t, ===_iff s id), refl))

    freeze-Amounts :
        (now : Option String) (id room_id : String) (intent : RoomCommandIntent) (c : RoomCommand)
        (r : Option String)
        → encode c ≡ r
        → IsWellMade id room_id c
        → Amounts now id room_id intent (freeze trim encode transport c r)
    unfolding freeze
    freeze-Amounts now id room_id intent c none h w =
        inl (refl, (_, refl, inr (inr (refl, (c, w, h)))))
    freeze-Amounts now id room_id intent c (some text) h w = inr (
      c,
      refl,
      w,
      (text, h),
      subst
          (λ i.
            ((transport c ≡ some i)
              × (confirm trim encode transport c.command_id (transport c) ≡ sent i))
            ⊎ ((transport c ≢ some i)
                × ((e : BusError) × (confirm trim encode transport c.command_id (transport c)
                      ≡ thrown e))))
          w.own_id (confirm-cases c.command_id (transport c)),
    )

    built-Amounts :
        (now : Option String) (id room_id : String) (intent : RoomCommandIntent) (b : Built)
        → IsBuilt id room_id intent b
        → Amounts now id room_id intent (dispatch_built trim encode transport b)
    unfolding dispatch_built
    built-Amounts now id room_id intent (refused e) w = inl (refl, (e, refl, inr (inl w)))
    built-Amounts now id room_id intent (built c) w =
        freeze-Amounts now id room_id intent c (encode c) refl w

    -- For every intent, `send` either throws and the transport is not called, since the clock is
    -- invalid, the trimmed text or the media are missing where a message needs them, there are more
    -- than four media ids, or the contract does not encode the command; or the transport is called
    -- once, with a command that the contract encodes, under the fresh id, in the bus's room, with no
    -- mention or media id twice, four media ids at most, and text or media where a message needs
    -- them. Then `send` returns that id if the transport answers with it, and throws if not.
    pub send-Amounts :
        (room_id : String) (now : Option String) (id : String) (intent : RoomCommandIntent)
        → Amounts now id room_id intent (send trim encode transport room_id now id intent)
    unfolding send
    send-Amounts room_id none id intent = inl (refl, (_, refl, inl (refl, refl)))
    send-Amounts room_id (some now) id intent =
        built-Amounts (some now) id room_id intent _
          (build-IsBuilt (record { command_id = id; room_id = room_id; client_time = now }) intent)
