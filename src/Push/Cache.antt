-- ===== src/Push/Cache.antt =====
-- internal/collector/mqtt_subscriber.go: how long a bridge stays in the cache.
use machmqtt_dashboard.Prelude.{
  ℕ, ◌+◌, ◌≤◌, ◌≡◌, refl, inl, inr, leb, List, [], ◌∷◌, Bool, true, false, Option, none, some,
  Bytes, bytes_eq, ByteMap, get, get-put, filter, All, arith, Bool-cases,
}
use machmqtt_dashboard.Push.{
  Message, Cached, Subscriber, Numbers, Event, publish, sweep, is_live, is_accepted, with_rates,
  store_message, handle_message, sweep_expired, step, run, time_of,
}

module _ {Rest Float : Type 0} (num : Numbers Rest Float) where
  -- The entry is there, and of that time or later.
  abbrev pub is_since : ℕ → Option (Cached Rest Float) → Bool
  is_since t none = false
  is_since t (some cb) = leb t cb.received_at

  received_at-with_rates :
      (now : ℕ) (m : Message Rest) (o : Option (Cached Rest Float))
      → (with_rates num now m o).received_at ≡ now
  unfolding with_rates
  received_at-with_rates now m none = refl
  received_at-with_rates now m (some prev) = ground arith

  get-filter :
      (name : Bytes) (ttl now t : ℕ) (m : ByteMap (Cached Rest Float))
      → now ≤ t + ttl
      → is_since t (get name m) ≡ true
      → is_since t (get name (filter (is_live num ttl now) m)) ≡ true
  unfolding get
  get-filter name ttl now t [] h k = k
  get-filter name ttl now t ((n, cb) ∷ m) h k = elim (Bool-cases (bytes_eq n name)) [
    | inl e ↦ ground (arith, e, k, h)
    | inr e ↦ elim (Bool-cases (is_live num ttl now (n, cb))) [
      | inl f ↦ rw (f, e) (get-filter name ttl now t m h (rw e at k))
      | inr f ↦ rw f (get-filter name ttl now t m h (rw e at k))
    ]
  ]

  store_message-keeps :
      (name : Bytes) (t now : ℕ) (m : Message Rest) (s : Subscriber Rest Float)
      → t ≤ now
      → is_since t (get name s.bridges) ≡ true
      → is_since t (get name (store_message num now m s).bridges) ≡ true
  store_message-keeps name t now m s h k =
      let new = with_rates num now m (get m.instance_name s.bridges) in
      elim (Bool-cases (bytes_eq m.instance_name name)) [
        | inl e ↦ ground (
          arith,
          get-put m.instance_name name new s.bridges,
          received_at-with_rates now m (get m.instance_name s.bridges),
          e,
        )
        | inr e ↦ ground (arith, get-put m.instance_name name new s.bridges, e, k)
      ]

  step-keeps :
      (name : Bytes) (t : ℕ) (e : Event Rest) (s : Subscriber Rest Float)
      → t ≤ time_of num e
      → time_of num e ≤ t + s.ttl
      → is_since t (get name s.bridges) ≡ true
      → (is_since t (get name (step num e s).bridges) ≡ true) × ((step num e s).ttl ≡ s.ttl)
  unfolding step handle_message sweep_expired
  step-keeps name t (publish now none) s h k l = (l, refl)
  step-keeps name t (publish now (some m)) s h k l = elim (Bool-cases (is_accepted num m)) [
    | inl e ↦ rw e (store_message-keeps name t now m s h l, refl)
    | inr e ↦ rw e (l, refl)
  ]
  step-keeps name t (sweep now) s h k l = (get-filter name s.ttl now t s.bridges k l, refl)

  -- A bridge that was heard of is listed for its time to live: from a state in which the last word of it is
  -- of the time t or later, no run of messages, of it or others, readable or not, and of sweeps takes it
  -- from the cache before t plus the time to live is over.
  pub run-keeps :
      (name : Bytes) (t : ℕ) (es : List (Event Rest)) (s : Subscriber Rest Float)
      → All (λ e. (t ≤ time_of num e) × (time_of num e ≤ t + s.ttl)) es
      → is_since t (get name s.bridges) ≡ true
      → is_since t (get name (run num es s).bridges) ≡ true
  unfolding run
  run-keeps name t [] s h k = k
  run-keeps name t (e ∷ es) s h k =
      let one = step-keeps name t e s h.0.0 h.0.1 k in
      run-keeps name t es (step num e s) (rw one.1 h.1) one.0

  get-is_within :
      (name : Bytes) (ttl now : ℕ) (m : ByteMap (Cached Rest Float)) (cb : Cached Rest Float)
      → get name (filter (is_live num ttl now) m) ≡ some cb
      → now ≤ cb.received_at + ttl
  unfolding get
  get-is_within name ttl now [] cb h = ground (arith, h)
  get-is_within name ttl now ((n, c) ∷ m) cb h = elim (Bool-cases (is_live num ttl now (n, c))) [
    | inr f ↦ get-is_within name ttl now m cb (rw f at h)
    | inl f ↦ elim (Bool-cases (bytes_eq n name)) [
      | inl e ↦ ground (arith, f, rw (f, e) at h)
      | inr e ↦ get-is_within name ttl now m cb (rw (f, e) at h)
    ]
  ]

  -- What a sweep leaves in the cache was heard of within the time to live.
  pub sweep_expired-is_within :
      (name : Bytes) (now : ℕ) (s : Subscriber Rest Float) (cb : Cached Rest Float)
      → get name (sweep_expired num now s).bridges ≡ some cb
      → now ≤ cb.received_at + s.ttl
  unfolding sweep_expired
  sweep_expired-is_within name now s cb h = get-is_within name s.ttl now s.bridges cb h
