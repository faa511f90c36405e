-- ===== src/Ws/Delivery.antt =====
-- internal/ws/hub.go, `Broadcast`, `deliver` and `markDropped`: who gets a frame, and who is closed.
use machmqtt_dashboard.Prelude.{
  ℕ, ◌+◌, ◌^◌, ◌≤◌, ◌<◌, ◌≡◌, inl, inr, List, [], ◌∷◌, ◌++◌, String, true, some, leb, ◌==◌,
  if◌then◌else◌, length, add_u64, arith, Bool-cases,
}
use machmqtt_dashboard.Ws.{
  Client, Hub, deliver, deliver_all, receives, broadcast, get_client, mark_dropped, note_delivered,
  teardown, drop_of,
}

module _ {Frame : Type 0} where
  -- What one broadcast does to a client.
  abbrev pub delivered : String → Frame → Client Frame → Client Frame
  delivered env frame c = if receives env c then deliver frame c else c

  pub deliver-id : (frame : Frame) (c : Client Frame) → (deliver frame c).id ≡ c.id
  unfolding deliver mark_dropped
  deliver-id frame c = ground arith

  pub get_client-deliver_all :
      (env : String) (frame : Frame) (id d : ℕ) (cs : List (Client Frame)) (c : Client Frame)
      → get_client id cs ≡ some c
      → get_client id (deliver_all env frame cs d).0 ≡ some (delivered env frame c)
  unfolding get_client deliver_all
  get_client-deliver_all env frame id d [] c h = absurd (ground arith)
  get_client-deliver_all env frame id d (x ∷ xs) c h = elim (Bool-cases (x.id == id)) [
    | inl e ↦ ground (arith, e, deliver-id frame x)
    | inr e ↦ ground (
      arith,
      e,
      deliver-id frame x,
      get_client-deliver_all env frame id (add_u64 d (drop_of x)) xs c (ground (arith, e)),
      get_client-deliver_all env frame id d xs c (ground (arith, e)),
    )
  ]

  -- A broadcast gives the frame to a client exactly if the client is registered and subscribed to
  -- the environment, once; every other client is as it was.
  pub get_client-broadcast :
      (h : Hub Frame) (env : String) (frame : Frame) (id : ℕ) (c : Client Frame)
      → get_client id h.clients ≡ some c
      → get_client id (broadcast h env (some frame)).clients
        ≡ some (if receives env c then deliver frame c else c)
  unfolding broadcast
  get_client-broadcast h env frame id c e =
      get_client-deliver_all env frame id h.dropped h.clients c e

  unfoldable pub broadcast_each : Hub Frame → String → List Frame → Hub Frame
  broadcast_each h env [] = h
  broadcast_each h env (f ∷ fs) = broadcast_each (broadcast h env (some f)) env fs

  done-broadcast_each :
      (env : String) (id : ℕ) (frames : List Frame) (h : Hub Frame) (c : Client Frame)
      → get_client id h.clients ≡ some c
      → c.done ≡ true
      → (c' : Client Frame) × (get_client id (broadcast_each h env frames).clients ≡ some c')
        × (c'.done ≡ true)
  unfolding broadcast_each deliver mark_dropped note_delivered teardown
  done-broadcast_each env id [] h c e d = (c, e, d)
  done-broadcast_each env id (f ∷ fs) h c e d =
      done-broadcast_each env id fs (broadcast h env (some f)) (delivered env f c)
        (get_client-broadcast h env f id c e) (ground (arith, d))

  -- A registered client whose channel is full and stays so is torn down by as many broadcasts to its
  -- environment as it takes to reach 128 drops in a row, the run that it already has counted in.
  pub broadcast_each-done :
      (env : String) (id : ℕ) (frames : List Frame) (h : Hub Frame) (c : Client Frame)
      → get_client id h.clients ≡ some c
      → receives env c ≡ true
      → 64 ≤ length c.send
      → 0 < length frames
      → 128 ≤ c.consecutive_drops + length frames
      → c.consecutive_drops + length frames < 2 ^ 64
      → (c' : Client Frame) × (get_client id (broadcast_each h env frames).clients ≡ some c')
        × (c'.done ≡ true)
  unfolding broadcast_each deliver mark_dropped teardown
  broadcast_each-done env id [] h c e r full some_frame many small = absurd (omega arith)
  broadcast_each-done env id (f ∷ fs) h c e r full some_frame many small =
      elim (Bool-cases (leb 128 (c.consecutive_drops + 1))) [
        | inl closed ↦
            done-broadcast_each env id fs (broadcast h env (some f)) (delivered env f c)
              (get_client-broadcast h env f id c e) (ground (arith, r, closed))
        | inr still ↦
            broadcast_each-done env id fs (broadcast h env (some f)) (delivered env f c)
              (get_client-broadcast h env f id c e) (ground (arith, r, still))
              (ground (arith, r, still)) (ground (arith, still)) (ground (arith, r, still))
              (ground (arith, r, still))
      ]

  -- A frame that fits is the last of the channel, and ends the run of drops; nothing else changes.
  pub deliver-room :
      (frame : Frame) (c : Client Frame)
      → length c.send < 64
      → deliver frame c ≡ record c { send = c.send ++ frame ∷ []; consecutive_drops = 0 }
  unfolding deliver note_delivered
  deliver-room frame c h = ground arith
