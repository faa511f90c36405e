-- ===== src/Ws/Invariant/OneClient.antt =====
-- internal/ws: changes of one client of a hub, and the calls of `SendTo`.
use machmqtt_dashboard.Prelude.{
  ℕ, ◌+◌, ◌%◌, ◌^◌, ◌≡◌, refl, ap, ◌∙◌, inl, inr, List, [], ◌∷◌, String, Option, some, none, ◌==◌,
  if◌then◌else◌, arith, Bool-cases, Option-cases, All,
}
use machmqtt_dashboard.Ws.{
  Client, Hub, deliver, get_client, at_client, teardown, drop_of, send_to, send_all,
}
use machmqtt_dashboard.Ws.Pumps.{set_env, end_read, end_write}
use machmqtt_dashboard.Ws.Invariant.{
  Sound, IsValid, total, gone, deliver-Sound, deliver-dropped, deliver-registered,
}

module _ {Frame : Type 0} where
  pub at_client-All :
      (P : Client Frame → Type 0) (f : Client Frame → Client Frame) (id : ℕ) (c : Client Frame)
      (cs : List (Client Frame))
      → get_client id cs ≡ some c
      → (P c → P (f c))
      → All P cs
      → All P (at_client id f cs)
  unfolding at_client get_client
  at_client-All P f id c [] e k a = tt
  at_client-All P f id c (x ∷ xs) e k a = elim (Bool-cases (x.id == id)) [
    | inl hit ↦
        let same : x ≡ c = ground (arith, hit) in
        let keeps : P x → P (f x) = rw same k in rw hit (keeps a.0, a.1)
    | inr miss ↦ rw miss (a.0, at_client-All P f id c xs (ground (arith, miss)) k a.1)
  ]

  -- A change of one client moves the two sums by what it moves that client's parts.
  pub total-at_client :
      (f : Client Frame → Client Frame) (id k n : ℕ) (c : Client Frame) (cs : List (Client Frame))
      → get_client id cs ≡ some c
      → ((m : ℕ) → ((f c).dropped + m) % 2 ^ 64 ≡ (c.dropped + m + k) % 2 ^ 64)
      → (n + total (at_client id f cs)) % 2 ^ 64 ≡ (n + total cs + k) % 2 ^ 64
  unfolding at_client get_client total
  total-at_client f id k n c [] e h = absurd (ground (arith, e))
  total-at_client f id k n c (x ∷ xs) e h = elim (Bool-cases (x.id == id)) [
    | inl hit ↦
        let same : x ≡ c = ground (arith, hit) in
        let moved : ((f x).dropped + (n + total xs)) % 2 ^ 64
            ≡ (x.dropped + (n + total xs) + k) % 2 ^ 64 =
          rw same (h (n + total xs)) in
        ground (arith, hit, moved)
    | inr miss ↦
        ground (arith, miss, total-at_client f id k (n + x.dropped) c xs (ground (arith, miss)) h)
  ]

  pub gone-at_client :
      (f : Client Frame → Client Frame) (id k : ℕ) (c : Client Frame) (cs : List (Client Frame))
      → get_client id cs ≡ some c
      → (if (f c).registered then 0 else 1) ≡ (if c.registered then 0 else 1) + k
      → gone (at_client id f cs) ≡ gone cs + k
  unfolding at_client get_client gone
  gone-at_client f id k c [] e h = absurd (ground (arith, e))
  gone-at_client f id k c (x ∷ xs) e h = elim (Bool-cases (x.id == id)) [
    | inl hit ↦
        let same : x ≡ c = ground (arith, hit) in
        let moved : (if (f x).registered then 0 else 1) ≡ (if x.registered then 0 else 1) + k =
          rw same h in
        ground (arith, hit, moved)
    | inr miss ↦ ground (arith, miss, gone-at_client f id k c xs (ground (arith, miss)) h)
  ]

  pub All-get_client :
      (P : Client Frame → Type 0) (id : ℕ) (c : Client Frame) (cs : List (Client Frame))
      → get_client id cs ≡ some c
      → All P cs
      → P c
  unfolding get_client
  All-get_client P id c [] e a = absurd (ground (arith, e))
  All-get_client P id c (x ∷ xs) e a = elim (Bool-cases (x.id == id)) [
    | inl hit ↦ let same : c ≡ x = ground (arith, hit) in rw same a.0
    | inr miss ↦ All-get_client P id c xs (ground (arith, miss)) a.1
  ]

  pub send_to-IsValid :
      (h : Hub Frame) (id : ℕ) (frame : Option Frame) → IsValid h → IsValid (send_to h id frame)
  unfolding send_to
  send_to-IsValid h id none v = v
  send_to-IsValid h id (some frame) v = elim (Option-cases (get_client id h.clients)) [
    | inl e ↦ rw (e, send_to) v
    | inr (c, e) ↦
        rw (e, send_to)
          record {
            sound =
                at_client-All Sound (deliver frame) id c h.clients e (deliver-Sound frame c)
                  v.sound;
            dropped = omega (
              arith,
              v.dropped,
              total-at_client (deliver frame) id (drop_of c) 0 c h.clients e
                  (deliver-dropped frame c),
            );
            disconnects = omega (
              arith,
              v.disconnects,
              gone-at_client (deliver frame) id 0 c h.clients e
                  (ground (arith, deliver-registered frame c)),
            );
          }
  ]

  pub send_all-IsValid :
      (h : Hub Frame) (id : ℕ) (frames : List (Option Frame))
      → IsValid h
      → IsValid (send_all h id frames)
  unfolding send_all
  send_all-IsValid h id [] v = v
  send_all-IsValid h id (f ∷ fs) v =
      send_all-IsValid (send_to h id f) id fs (send_to-IsValid h id f v)

  -- A change that leaves the counter and the registration alone.
  pub quiet-IsValid :
      (h h' : Hub Frame) (f : Client Frame → Client Frame) (id : ℕ) (c : Client Frame)
      → get_client id h.clients ≡ some c
      → h'.clients ≡ at_client id f h.clients
      → h'.dropped ≡ h.dropped
      → h'.disconnects ≡ h.disconnects
      → (Sound c → Sound (f c))
      → (f c).dropped ≡ c.dropped
      → (f c).registered ≡ c.registered
      → IsValid h
      → IsValid h'
  quiet-IsValid h h' f id c e changed d g k same_drops same_registration v = record {
    sound = rw changed (at_client-All Sound f id c h.clients e k v.sound);
    dropped =
        let sum =
          total-at_client f id 0 0 c h.clients e
            (λ m. ap (λ x. (x + m) % 2 ^ 64) same_drops ∙ omega arith) in
        rw changed (omega (arith, d, v.dropped, sum));
    disconnects =
        let left = gone-at_client f id 0 c h.clients e (ground (arith, same_registration)) in
        rw changed (omega (arith, g, v.disconnects, left));
  }

  pub end_write-Sound : (c : Client Frame) → Sound c → Sound (end_write c)
  unfolding end_write teardown
  end_write-Sound c s = record {
    bounded = s.bounded;
    closed = inr refl;
    known = s.known;
    read_end = inr refl;
    write_end = inr refl;
  }

  pub end_read-Sound : (c : Client Frame) → Sound c → Sound (end_read c)
  unfolding end_read teardown
  end_read-Sound c s = record {
    bounded = s.bounded;
    closed = inr refl;
    known = refl;
    read_end = inr refl;
    write_end = inr refl;
  }

  pub set_env-Sound : (env : String) (c : Client Frame) → Sound c → Sound (set_env env c)
  set_env-Sound env c s = record {
    bounded = s.bounded;
    closed = s.closed;
    known = s.known;
    read_end = s.read_end;
    write_end = s.write_end;
  }
