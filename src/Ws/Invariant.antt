-- ===== src/Ws/Invariant.antt =====
-- internal/ws: what holds of a hub after every run.
pub mod OneClient
pub mod Run
use machmqtt_dashboard.Prelude.{
  ℕ, ◌+◌, ◌%◌, ◌^◌, ◌≤◌, ◌<◌, ◌≡◌, refl, ◌∙◌, ◌⊎◌, inl, inr, List, [], ◌∷◌, ◌++◌, String, Bool,
  true, false, ◌&&◌, not, Option, some, none, ltb, leb, ◌==◌, ==_iff, str_eq, if◌then◌else◌, length,
  length-append, count, add_u64, arith, Bool-cases, Option-cases, All,
}
use machmqtt_dashboard.Ws.{
  Client, Hub, new_hub, new_client, deliver, deliver_all, receives, broadcast, get_client,
  at_client, mark_dropped, note_delivered, teardown, drop_of, send_to, send_all, unregister,
}
use machmqtt_dashboard.Ws.Pumps.{
  Read, read_error, garbage, subscribe, Write, sees_done, takes_frame, pings, set_env, set_send,
  end_read, end_write, read_round, write_round, fail_write, Event, connects, reads, writes,
  broadcasts, sends, read_of, write_of, step, run,
}

module _ {Frame : Type 0} where
  -- The channel is within its bound; a client with 128 drops in a row is closed; and one is a key of
  -- the hub's map exactly while its read pump runs, and is closed when one of its pumps has ended.
  pub record Sound (c : Client Frame) : Type 0 where
    pub bounded : length c.send ≤ 64
    pub closed : (c.consecutive_drops < 128) ⊎ (c.done ≡ true)
    pub known : c.registered ≡ c.reading
    pub read_end : (c.reading ≡ true) ⊎ (c.done ≡ true)
    pub write_end : (c.writing ≡ true) ⊎ (c.done ≡ true)

  -- The drops of all clients that there have been, and how many of them have left.
  unfoldable pub total : List (Client Frame) → ℕ
  total [] = 0
  total (c ∷ cs) = c.dropped + total cs

  unfoldable pub gone : List (Client Frame) → ℕ
  gone [] = 0
  gone (c ∷ cs) = (if c.registered then 0 else 1) + gone cs

  pub record IsValid (h : Hub Frame) : Type 0 where
    pub sound : All Sound h.clients
    pub dropped : h.dropped ≡ total h.clients % 2 ^ 64
    pub disconnects : h.disconnects ≡ gone h.clients % 2 ^ 64

  pub deliver-Sound : (frame : Frame) (c : Client Frame) → Sound c → Sound (deliver frame c)
  unfolding deliver mark_dropped note_delivered teardown
  deliver-Sound frame c s = elim (Bool-cases (ltb (length c.send) 64)) [
    | inl e ↦ record {
      bounded = ground (arith, e, length-append {0} c.send (frame ∷ []));
      closed = ground (arith, e);
      known = ground (arith, e, s.known);
      read_end = ground (arith, e, s.read_end);
      write_end = ground (arith, e, s.write_end);
    }
    | inr e ↦ record {
      bounded = ground (arith, e, s.bounded);
      closed = ground (arith, e, s.closed);
      known = ground (arith, e, s.known);
      read_end = ground (arith, e, s.read_end);
      write_end = ground (arith, e, s.write_end);
    }
  ]

  -- A delivery adds to the client's counter what it adds to the hub's.
  pub deliver-dropped :
      (frame : Frame) (c : Client Frame) (n : ℕ)
      → ((deliver frame c).dropped + n) % 2 ^ 64 ≡ (c.dropped + n + drop_of c) % 2 ^ 64
  unfolding deliver mark_dropped note_delivered teardown drop_of
  deliver-dropped frame c n = elim (Bool-cases (ltb (length c.send) 64)) [
    | inl e ↦ ground (arith, e)
    | inr e ↦ elim (Bool-cases (leb 128 (add_u64 c.consecutive_drops 1))) [
      | inl f ↦ ground (arith, e, f)
      | inr f ↦ ground (arith, e, f)
    ]
  ]

  pub deliver-registered :
      (frame : Frame) (c : Client Frame) → (deliver frame c).registered ≡ c.registered
  unfolding deliver mark_dropped note_delivered teardown
  deliver-registered frame c = ground arith

  deliver_all-Sound :
      (env : String) (frame : Frame) (cs : List (Client Frame)) (d : ℕ)
      → All Sound cs
      → All Sound (deliver_all env frame cs d).0
  unfolding deliver_all
  deliver_all-Sound env frame [] d s = tt
  deliver_all-Sound env frame (c ∷ cs) d s = elim (Bool-cases (receives env c)) [
    | inl e ↦
        rw e (deliver-Sound frame c s.0, deliver_all-Sound env frame cs (add_u64 d (drop_of c)) s.1)
    | inr e ↦ rw e (s.0, deliver_all-Sound env frame cs d s.1)
  ]

  deliver_all-dropped :
      (env : String) (frame : Frame) (cs : List (Client Frame)) (d n : ℕ)
      → d ≡ (n + total cs) % 2 ^ 64
      → (deliver_all env frame cs d).1 ≡ (n + total (deliver_all env frame cs d).0) % 2 ^ 64
  unfolding deliver_all total
  deliver_all-dropped env frame [] d n h = h
  deliver_all-dropped env frame (c ∷ cs) d n h = elim (Bool-cases (receives env c)) [
    | inl e ↦
        let ih =
          deliver_all-dropped env frame cs (add_u64 d (drop_of c)) (n + (deliver frame c).dropped)
            (omega (arith, h, deliver-dropped frame c (n + total cs))) in
        ground (arith, e, ih)
    | inr e ↦
        let ih = deliver_all-dropped env frame cs d (n + c.dropped) (omega (arith, h)) in
        ground (arith, e, ih)
  ]

  deliver_all-gone :
      (env : String) (frame : Frame) (cs : List (Client Frame)) (d : ℕ)
      → gone (deliver_all env frame cs d).0 ≡ gone cs
  unfolding deliver_all gone
  deliver_all-gone env frame [] d = refl
  deliver_all-gone env frame (c ∷ cs) d = ground (
    arith,
    deliver-registered frame c,
    deliver_all-gone env frame cs d,
    deliver_all-gone env frame cs (add_u64 d (drop_of c)),
  )

  pub broadcast-IsValid :
      (h : Hub Frame) (env : String) (frame : Option Frame)
      → IsValid h
      → IsValid (broadcast h env frame)
  unfolding broadcast
  broadcast-IsValid h env none v = v
  broadcast-IsValid h env (some frame) v = record {
    sound = deliver_all-Sound env frame h.clients h.dropped v.sound;
    dropped =
        omega
          (arith, deliver_all-dropped env frame h.clients h.dropped 0 (omega (arith, v.dropped)));
    disconnects = v.disconnects ∙ omega (arith, deliver_all-gone env frame h.clients h.dropped);
  }
