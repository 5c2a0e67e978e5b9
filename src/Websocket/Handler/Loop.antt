-- ===== src/Websocket/Handler/Loop.antt =====
-- What the loop of a connection sends, when it ends, and what its end leaves in the registry.
use alert_distributor.Base.{
  ℕ, ◌-◌, ◌≡◌, refl, ◌∙◌, ap, sym, ◌↔◌, Bool, true, false, Option, none, some, List, [], ◌∷◌, ◌++◌,
  arith, leb, subst, nat_eq, Option-cases, Bool-cases, inl, inr,
}
use alert_distributor.Text.{Text}
use alert_distributor.Websocket.Handler.{
  Frame, text_frame, ping_frame, pong_frame, close, ping, pong, text_message, binary_message,
  failed, ended, Input, outbound, incoming, tick, Transport, Live, socket_step, socket_loop,
  send_or_break, send_serialized, on_incoming,
}

module _ {Message : Type 0} (transport : Transport Message) (heartbeat_timeout : ℕ) where
  -- The frames go out one after the other, and none fails.
  abbrev pub SentAll : List Frame → transport.Socket → transport.Socket → Type 0
  SentAll [] s s' = s ≡ s'
  SentAll (f ∷ fs) s s' = (t : transport.Socket) × (transport.send f s ≡ some t) × SentAll fs t s'

  -- A message that cannot be serialized is left out.
  abbrev pub serialized : Option Text → List Frame
  serialized none = []
  serialized (some payload) = text_frame payload ∷ []

  -- What an input makes the loop send.
  abbrev pub frames_of : Input Message → List Frame
  frames_of (outbound none) = []
  frames_of (outbound (some message)) = serialized (transport.to_string message)
  frames_of (incoming (ping payload) now) = pong_frame payload ∷ []
  frames_of (incoming close now) = []
  frames_of (incoming pong now) = []
  frames_of (incoming text_message now) = []
  frames_of (incoming binary_message now) = []
  frames_of (incoming failed now) = []
  frames_of (incoming ended now) = []
  frames_of (tick now) = ping_frame [] ∷ []

  -- The inputs that end the loop by themselves, after a last pong at that time.
  abbrev pub ends : Input Message → ℕ → Bool
  ends (outbound none) last_pong = true
  ends (outbound (some message)) last_pong = false
  ends (incoming (ping payload) now) last_pong = false
  ends (incoming close now) last_pong = true
  ends (incoming pong now) last_pong = false
  ends (incoming text_message now) last_pong = false
  ends (incoming binary_message now) last_pong = false
  ends (incoming failed now) last_pong = true
  ends (incoming ended now) last_pong = true
  ends (tick now) last_pong = leb heartbeat_timeout (now - last_pong)

  abbrev pub pong_after : Input Message → ℕ → ℕ
  pong_after (outbound message) last_pong = last_pong
  pong_after (incoming (ping payload) now) last_pong = last_pong
  pong_after (incoming close now) last_pong = last_pong
  pong_after (incoming pong now) last_pong = now
  pong_after (incoming text_message now) last_pong = last_pong
  pong_after (incoming binary_message now) last_pong = last_pong
  pong_after (incoming failed now) last_pong = last_pong
  pong_after (incoming ended now) last_pong = last_pong
  pong_after (tick now) last_pong = last_pong

  -- One round goes on from `live` to `live'`.
  pub record GoesOn (input : Input Message) (live live' : Live transport heartbeat_timeout)
      : Type 0 where
    pub stays : ends input live.last_pong ≡ false
    pub sent : SentAll (frames_of input) live.socket live'.socket
    pub heard : live'.last_pong ≡ pong_after input live.last_pong

  sent-SentAll :
      (frame : Frame) (live live' : Live transport heartbeat_timeout)
      → send_or_break transport heartbeat_timeout frame live ≡ some live'
      → SentAll (frame ∷ []) live.socket live'.socket × (live'.last_pong ≡ live.last_pong)
  unfolding send_or_break
  sent-SentAll frame live live' h = elim (Option-cases (transport.send frame live.socket)) [
    | inl e ↦ ground (arith, e)
    | inr (s, e) ↦ ((s, e, ground (arith, e)), ground (arith, e))
  ]

  SentAll-sent :
      (frame : Frame) (live live' : Live transport heartbeat_timeout)
      → SentAll (frame ∷ []) live.socket live'.socket
      → live'.last_pong ≡ live.last_pong
      → send_or_break transport heartbeat_timeout frame live ≡ some live'
  unfolding send_or_break
  SentAll-sent frame live live' (s, e, same) k = ground (arith, e, same)

  serialized-SentAll :
      (payload : Option Text) (live live' : Live transport heartbeat_timeout)
      → send_serialized transport heartbeat_timeout payload live ≡ some live'
      → SentAll (serialized payload) live.socket live'.socket × (live'.last_pong ≡ live.last_pong)
  unfolding send_serialized
  serialized-SentAll none live live' h = (ground arith, ground arith)
  serialized-SentAll (some payload) live live' h = sent-SentAll (text_frame payload) live live' h

  SentAll-serialized :
      (payload : Option Text) (live live' : Live transport heartbeat_timeout)
      → SentAll (serialized payload) live.socket live'.socket
      → live'.last_pong ≡ live.last_pong
      → send_serialized transport heartbeat_timeout payload live ≡ some live'
  unfolding send_serialized
  SentAll-serialized none live live' h k = ground arith
  SentAll-serialized (some payload) live live' h k =
      SentAll-sent (text_frame payload) live live' h k

  step-GoesOn :
      (input : Input Message) (live live' : Live transport heartbeat_timeout)
      → socket_step transport heartbeat_timeout input live ≡ some live'
      → GoesOn input live live'
  unfolding socket_step send_serialized on_incoming
  step-GoesOn (outbound none) live live' h = cc
  step-GoesOn (outbound (some message)) live live' h =
      let (s, k) = serialized-SentAll (transport.to_string message) live live' h in
      record { stays = refl; sent = s; heard = k }
  step-GoesOn (incoming (ping payload) now) live live' h =
      let (s, k) = sent-SentAll _ live live' h in record { stays = refl; sent = s; heard = k }
  step-GoesOn (incoming close now) live live' h = cc
  step-GoesOn (incoming pong now) live live' h = record {
    stays = refl;
    sent = ground arith;
    heard = ground arith;
  }
  step-GoesOn (incoming text_message now) live live' h = record {
    stays = refl;
    sent = ground arith;
    heard = ground arith;
  }
  step-GoesOn (incoming binary_message now) live live' h = record {
    stays = refl;
    sent = ground arith;
    heard = ground arith;
  }
  step-GoesOn (incoming failed now) live live' h = cc
  step-GoesOn (incoming ended now) live live' h = cc
  step-GoesOn (tick now) live live' h =
      elim (Bool-cases (leb heartbeat_timeout (now - live.last_pong))) [
        | inl e ↦ ground (arith, e)
        | inr e ↦
            let (s, k) = sent-SentAll _ live live' (rw (e, socket_step) at h) in
            record { stays = e; sent = s; heard = k }
      ]

  GoesOn-step :
      (input : Input Message) (live live' : Live transport heartbeat_timeout)
      → GoesOn input live live'
      → socket_step transport heartbeat_timeout input live ≡ some live'
  unfolding socket_step send_serialized on_incoming
  GoesOn-step (outbound none) live live' g = absurd (ground (arith, g.stays))
  GoesOn-step (outbound (some message)) live live' g =
      SentAll-serialized (transport.to_string message) live live' g.sent g.heard
  GoesOn-step (incoming (ping payload) now) live live' g =
      SentAll-sent (pong_frame payload) live live' g.sent g.heard
  GoesOn-step (incoming close now) live live' g = absurd (ground (arith, g.stays))
  GoesOn-step (incoming pong now) live live' g = ground (arith, g.sent, g.heard)
  GoesOn-step (incoming text_message now) live live' g = ground (arith, g.sent, g.heard)
  GoesOn-step (incoming binary_message now) live live' g = ground (arith, g.sent, g.heard)
  GoesOn-step (incoming failed now) live live' g = absurd (ground (arith, g.stays))
  GoesOn-step (incoming ended now) live live' g = absurd (ground (arith, g.stays))
  GoesOn-step (tick now) live live' g =
      rw (g.stays, socket_step) (SentAll-sent (ping_frame []) live live' g.sent g.heard)

  abbrev pub all_frames : List (Input Message) → List Frame
  all_frames [] = []
  all_frames (input ∷ inputs) = frames_of input ++ all_frames inputs

  -- No input ends the loop; a tick does when the last pong is too old.
  abbrev pub Stays : List (Input Message) → ℕ → Type 0
  Stays [] last_pong = Unit
  Stays (input ∷ inputs) last_pong =
      (ends input last_pong ≡ false) × Stays inputs (pong_after input last_pong)

  abbrev pub last_pong_after : List (Input Message) → ℕ → ℕ
  last_pong_after [] last_pong = last_pong
  last_pong_after (input ∷ inputs) last_pong = last_pong_after inputs (pong_after input last_pong)

  pub record IsOpen (inputs : List (Input Message)) (live live' : Live transport heartbeat_timeout)
      : Type 0 where
    pub stays : Stays inputs live.last_pong
    pub sent : SentAll (all_frames inputs) live.socket live'.socket
    pub heard : live'.last_pong ≡ last_pong_after inputs live.last_pong

  SentAll-append :
      (fs gs : List Frame) (s t u : transport.Socket)
      → SentAll fs s t
      → SentAll gs t u
      → SentAll (fs ++ gs) s u
  SentAll-append [] gs s t u h k = subst (λ (x : transport.Socket). SentAll gs x u) (sym h) k
  SentAll-append (f ∷ fs) gs s t u (m, e, h) k = (m, e, SentAll-append fs gs m t u h k)

  SentAll-split :
      (fs gs : List Frame) (s u : transport.Socket)
      → SentAll (fs ++ gs) s u
      → (t : transport.Socket) × SentAll fs s t × SentAll gs t u
  SentAll-split [] gs s u h = (s, refl, h)
  SentAll-split (f ∷ fs) gs s u (m, e, h) =
      let (t, a, b) = SentAll-split fs gs m u h in (t, (m, e, a), b)

  loop-IsOpen :
      (inputs : List (Input Message)) (live live' : Live transport heartbeat_timeout)
      → socket_loop transport heartbeat_timeout inputs live ≡ some live'
      → IsOpen inputs live live'
  unfolding socket_loop
  loop-IsOpen [] live live' h = record { stays = tt; sent = ground arith; heard = ground arith }
  loop-IsOpen (input ∷ inputs) live live' h =
      elim (Option-cases (socket_step transport heartbeat_timeout input live)) [
        | inl e ↦ ground (arith, e)
        | inr (middle, e) ↦
            let g = step-GoesOn input live middle e in
            let o = loop-IsOpen inputs middle live' (rw (e, socket_loop) at h) in
            record {
              stays = (g.stays, subst (Stays inputs) g.heard o.stays);
              sent = SentAll-append (frames_of input) (all_frames inputs) _ _ _ g.sent o.sent;
              heard = o.heard ∙ ap (last_pong_after inputs) g.heard;
            }
      ]

  IsOpen-loop :
      (inputs : List (Input Message)) (live live' : Live transport heartbeat_timeout)
      → IsOpen inputs live live'
      → socket_loop transport heartbeat_timeout inputs live ≡ some live'
  unfolding socket_loop
  IsOpen-loop [] live live' o = ground (arith, o.sent, o.heard)
  IsOpen-loop (input ∷ inputs) live live' o =
      let (socket, first, rest) = SentAll-split (frames_of input) (all_frames inputs) _ _ o.sent in
      let middle : Live transport heartbeat_timeout = record {
        socket = socket;
        last_pong = pong_after input live.last_pong;
      } in
      let e =
        GoesOn-step input live middle (record { stays = o.stays.0; sent = first; heard = refl }) in
      rw (e, socket_loop)
        (IsOpen-loop inputs middle live'
          (record { stays = o.stays.1; sent = rest; heard = o.heard }))

  -- The loop of a connection is still open after a sequence of inputs, in a given state, exactly
  -- when no input ends it (a closed channel, a close, an error or the end of the stream, or a tick
  -- at which the last pong is at least the timeout ago), all frames that the inputs call for were
  -- sent in order (each alert that serializes, a pong for each ping, a ping for each tick) without
  -- failure, and the time of the last pong is that of the last one received.
  pub socket_loop-IsOpen :
      (inputs : List (Input Message)) (live live' : Live transport heartbeat_timeout)
      → (socket_loop transport heartbeat_timeout inputs live ≡ some live')
        ↔ IsOpen inputs live live'
  socket_loop-IsOpen inputs live live' =
      (loop-IsOpen inputs live live', IsOpen-loop inputs live live')
