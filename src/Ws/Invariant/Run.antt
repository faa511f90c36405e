-- ===== src/Ws/Invariant/Run.antt =====
-- internal/ws: every step of a hub keeps what holds of it, so every run does.
use machmqtt_dashboard.Prelude.{
  ℕ, ◌+◌, ◌≡◌, refl, ap, inl, inr, List, [], ◌∷◌, ◌++◌, String, true, false, Option, some, ◌==◌,
  str_eq, if◌then◌else◌, length, add_u64, arith, Bool-cases, Option-cases, All,
}
use machmqtt_dashboard.Ws.{Client, Hub, new_hub, new_client, get_client, at_client, teardown}
use machmqtt_dashboard.Ws.Pumps.{
  Read, read_error, garbage, subscribe, Write, sees_done, takes_frame, pings, set_env, set_send,
  end_read, end_write, read_round, write_round, fail_write, Event, connects, reads, writes,
  broadcasts, sends, read_of, write_of, step, run,
}
use machmqtt_dashboard.Ws.Invariant.{Sound, IsValid, total, gone, broadcast-IsValid}
use machmqtt_dashboard.Ws.Invariant.OneClient.{
  at_client-All, total-at_client, gone-at_client, send_to-IsValid, send_all-IsValid, quiet-IsValid,
  end_write-Sound, end_read-Sound, set_env-Sound,
}

module _ {Frame : Type 0} where
  get_client-at_client :
      (f : Client Frame → Client Frame) (id : ℕ) (c : Client Frame) (cs : List (Client Frame))
      → get_client id cs ≡ some c
      → ((x : Client Frame) → (f x).id ≡ x.id)
      → get_client id (at_client id f cs) ≡ some (f c)
  unfolding at_client get_client
  get_client-at_client f id c [] e k = absurd (ground (arith, e))
  get_client-at_client f id c (x ∷ xs) e k = elim (Bool-cases (x.id == id)) [
    | inl hit ↦ ground (arith, hit, k x)
    | inr miss ↦ ground (arith, miss, get_client-at_client f id c xs (ground (arith, miss)) k)
  ]

  fail_write-IsValid :
      (h : Hub Frame) (id : ℕ) (c : Client Frame)
      → get_client id h.clients ≡ some c
      → IsValid h
      → IsValid (fail_write h id)
  unfolding end_write teardown
  fail_write-IsValid h id c e v =
      quiet-IsValid h (fail_write h id) end_write id c e refl refl refl (end_write-Sound c) refl
        refl v

  takes-IsValid :
      (h : Hub Frame) (id : ℕ) (c : Client Frame) (frame : Frame) (rest : List Frame)
      → get_client id h.clients ≡ some c
      → c.send ≡ frame ∷ rest
      → IsValid h
      → IsValid (record h { clients = at_client id (set_send rest) h.clients })
  takes-IsValid h id c frame rest e q v =
      quiet-IsValid h (record h { clients = at_client id (set_send rest) h.clients })
        (set_send rest) id c e refl refl refl
        (λ s. record {
          bounded = ground (arith, q, s.bounded);
          closed = s.closed;
          known = s.known;
          read_end = s.read_end;
          write_end = s.write_end;
        })
        refl refl v

  write_round-IsValid :
      (h : Hub Frame) (id : ℕ) (c : Client Frame) (queue : List Frame) (w : Write)
      → get_client id h.clients ≡ some c
      → c.send ≡ queue
      → IsValid h
      → IsValid (write_round h id c queue w)
  unfolding write_round end_write teardown
  write_round-IsValid h id c queue sees_done e q v = elim (Bool-cases c.done) [
    | inl d ↦ rw d (
        quiet-IsValid h (record h { clients = at_client id end_write h.clients }) end_write id c e
          refl refl refl (end_write-Sound c) refl refl v)
    | inr d ↦ rw d v
  ]
  write_round-IsValid h id c [] (takes_frame succeeds) e q v = v
  write_round-IsValid h id c (frame ∷ rest) (takes_frame true) e q v =
      takes-IsValid h id c frame rest e q v
  write_round-IsValid h id c (frame ∷ rest) (takes_frame false) e q v =
      fail_write-IsValid (record h { clients = at_client id (set_send rest) h.clients }) id
        (set_send rest c) (get_client-at_client (set_send rest) id c h.clients e (λ x. refl))
        (takes-IsValid h id c frame rest e q v)
  write_round-IsValid h id c queue (pings true) e q v = v
  write_round-IsValid h id c queue (pings false) e q v = fail_write-IsValid h id c e v

  read_round-IsValid :
      (hook : String → List (Option Frame)) (h : Hub Frame) (id : ℕ) (c : Client Frame) (r : Read)
      → get_client id h.clients ≡ some c
      → IsValid h
      → IsValid (read_round hook h id c r)
  unfolding read_round end_read teardown
  read_round-IsValid hook h id c garbage e v = v
  read_round-IsValid hook h id c read_error e v = record {
    sound = at_client-All Sound end_read id c h.clients e (end_read-Sound c) v.sound;
    dropped =
        omega (arith, v.dropped, total-at_client end_read id 0 0 c h.clients e (λ m. omega arith));
    disconnects =
        let left =
          gone-at_client end_read id (if c.registered then 1 else 0) c h.clients e (ground arith) in
        ground (arith, left, v.disconnects);
  }
  read_round-IsValid hook h id c (subscribe env) e v = elim (Bool-cases (str_eq env "")) [
    | inl empty ↦ rw empty v
    | inr named ↦
        let h' = record h {
          clients = at_client id (set_env env) h.clients;
          subscribed = add_u64 h.subscribed 1;
        } in
        rw named (
          send_all-IsValid h' id (hook env) (
            quiet-IsValid h h' (set_env env) id c e refl refl refl (set_env-Sound env c) refl refl
              v))
  ]

  connects-IsValid :
      (h : Hub Frame) (id : ℕ)
      → IsValid h
      → IsValid (record h { clients = h.clients ++ new_client id ∷ [] })
  unfolding total gone
  connects-IsValid h id v = record {
    sound = go h.clients v.sound;
    dropped = omega (arith, v.dropped, sum h.clients);
    disconnects = omega (arith, v.disconnects, left h.clients);
  }
    where
      go : (cs : List (Client Frame)) → All Sound cs → All Sound (cs ++ new_client id ∷ [])
      go [] a = (
        record {
          bounded = omega arith;
          closed = inl (omega arith);
          known = refl;
          read_end = inl refl;
          write_end = inl refl;
        },
        tt,
      )
      go (x ∷ xs) a = (a.0, go xs a.1)

      sum : (cs : List (Client Frame)) → total (cs ++ new_client id ∷ []) ≡ total cs
      sum [] = refl
      sum (x ∷ xs) = ap (◌+◌ x.dropped) (sum xs)

      left : (cs : List (Client Frame)) → gone (cs ++ new_client id ∷ []) ≡ gone cs
      left [] = refl
      left (x ∷ xs) = ap (◌+◌ (if x.registered then 0 else 1)) (left xs)

  step-IsValid :
      (hook : String → List (Option Frame)) (h : Hub Frame) (e : Event Frame)
      → IsValid h
      → IsValid (step hook h e)
  unfolding step read_round write_round
  step-IsValid hook h connects v = connects-IsValid h (length h.clients) v
  step-IsValid hook h (reads id r) v = elim (Option-cases (get_client id h.clients)) [
    | inl e ↦ rw (e, read_of) v
    | inr (c, e) ↦ elim (Bool-cases c.reading) [
      | inl on ↦ rw (e, read_of, on) (read_round-IsValid hook h id c r e v)
      | inr off ↦ rw (e, read_of, off) v
    ]
  ]
  step-IsValid hook h (writes id w) v = elim (Option-cases (get_client id h.clients)) [
    | inl e ↦ rw (e, write_of) v
    | inr (c, e) ↦ elim (Bool-cases c.writing) [
      | inl on ↦ rw (e, write_of, on) (write_round-IsValid h id c c.send w e refl v)
      | inr off ↦ rw (e, write_of, off) v
    ]
  ]
  step-IsValid hook h (broadcasts env frame) v = broadcast-IsValid h env frame v
  step-IsValid hook h (sends id frame) v = send_to-IsValid h id frame v

  go-run :
      (hook : String → List (Option Frame)) (h : Hub Frame) (es : List (Event Frame))
      → IsValid h
      → IsValid (run hook h es)
  unfolding run
  go-run hook h [] v = v
  go-run hook h (e ∷ es) v = go-run hook (step hook h e) es (step-IsValid hook h e v)

  -- After any run of connections, subscriptions, broadcasts, direct sends, pump rounds and errors, in
  -- any order: every channel holds at most 64 frames; a client that missed 128 in a row is closed; a
  -- client is registered exactly while it reads, and closed once a pump has ended; the hub's drop
  -- counter is the sum of the clients' counters, and its disconnect counter the number of clients that
  -- have left, both modulo 2 ^ 64.
  pub run-IsValid :
      (hook : String → List (Option Frame)) (es : List (Event Frame))
      → IsValid (run hook new_hub es)
  unfolding total gone
  run-IsValid hook es =
      go-run hook new_hub es (record { sound = tt; dropped = refl; disconnects = refl })
