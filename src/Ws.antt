-- ===== src/Ws.antt =====
-- internal/ws/hub.go and internal/ws/client.go: the live feed to the browsers.
-- A `Hub` holds every client that has connected; `registered` says which of them are keys of the
-- map `clients`. A step is what one goroutine does under a lock or on a channel: a client's read
-- pump and write pump, and the calls of `Broadcast` and `SendTo`. Frames are a parameter, and so is
-- the hook on subscriptions, as the frames that it sends to the client.
pub mod Pumps
pub mod Delivery
pub mod Invariant
mod Tests
use machmqtt_dashboard.Prelude.{
  ℕ, ◌+◌, List, [], ◌∷◌, ◌++◌, String, Bool, true, false, ◌&&◌, not, Option, some, none, ltb, leb,
  ◌==◌, str_eq, if◌then◌else◌, length, count, add_u64,
}

abbrev pub send_buf_len : ℕ
send_buf_len = 64

abbrev pub max_consecutive_drops : ℕ
max_consecutive_drops = 128

-- `id` is the client's address. `reading` and `writing` say whether its pumps still run, `done`
-- whether the channel of that name is closed.
pub record Client (Frame : Type 0) : Type 0 where
  pub id : ℕ
  pub env : String
  pub send : List Frame
  pub dropped : ℕ
  pub consecutive_drops : ℕ
  pub done : Bool
  pub registered : Bool
  pub reading : Bool
  pub writing : Bool

pub record Hub (Frame : Type 0) : Type 0 where
  pub clients : List (Client Frame)
  pub dropped : ℕ
  pub subscribed : ℕ
  pub disconnects : ℕ
  pub write_failures : ℕ

abbrev pub new_hub : {Frame : Type 0} → Hub Frame
new_hub = record { clients = []; dropped = 0; subscribed = 0; disconnects = 0; write_failures = 0 }

-- `NewClient` and the start of `Run`: the hub knows the client, and both pumps run.
abbrev pub new_client : {Frame : Type 0} → ℕ → Client Frame
new_client id = record {
  id = id;
  env = "";
  send = [];
  dropped = 0;
  consecutive_drops = 0;
  done = false;
  registered = true;
  reading = true;
  writing = true;
}

module _ {Frame : Type 0} where
  unfoldable pub teardown : Client Frame → Client Frame
  teardown c = record c { done = true }

  unfoldable pub note_delivered : Client Frame → Client Frame
  note_delivered c = record c { consecutive_drops = 0 }

  -- The client's part of `markDropped`; the hub's is `drop_of`.
  unfoldable pub mark_dropped : Client Frame → Client Frame
  unfolding teardown
  mark_dropped c =
      let drops = add_u64 c.consecutive_drops 1 in
      let c' = record c { dropped = add_u64 c.dropped 1; consecutive_drops = drops } in
      if leb max_consecutive_drops drops then teardown c' else c'

  -- The `select` of `deliver`: a full channel drops the frame.
  unfoldable pub deliver : Frame → Client Frame → Client Frame
  unfolding note_delivered mark_dropped
  deliver frame c =
      if ltb (length c.send) send_buf_len
      then note_delivered (record c { send = c.send ++ frame ∷ [] })
      else mark_dropped c

  -- What `deliver` adds to the hub's counter.
  unfoldable pub drop_of : Client Frame → ℕ
  drop_of c = if ltb (length c.send) send_buf_len then 0 else 1

  abbrev pub receives : String → Client Frame → Bool
  receives env c = c.registered && str_eq c.env env

  -- The loop of `Broadcast`, with the counter that it adds to.
  unfoldable pub deliver_all : String → Frame → List (Client Frame) → ℕ → List (Client Frame) × ℕ
  deliver_all env frame [] dropped = ([], dropped)
  deliver_all env frame (c ∷ cs) dropped =
      let on = deliver_all env frame cs (add_u64 dropped (drop_of c)) in
      let off = deliver_all env frame cs dropped in
      if receives env c then (deliver frame c ∷ on.0, on.1) else (c ∷ off.0, off.1)

  -- `frame` is what `prepare` makes, `none` where encoding fails.
  unfoldable pub broadcast : Hub Frame → String → Option Frame → Hub Frame
  broadcast h env none = h
  broadcast h env (some frame) =
      let r = deliver_all env frame h.clients h.dropped in record h { clients = r.0; dropped = r.1 }

  unfoldable pub at_client :
      ℕ → (Client Frame → Client Frame) → List (Client Frame) → List (Client Frame)
  at_client id f [] = []
  at_client id f (c ∷ cs) = if c.id == id then f c ∷ cs else c ∷ at_client id f cs

  unfoldable pub get_client : ℕ → List (Client Frame) → Option (Client Frame)
  get_client id [] = none
  get_client id (c ∷ cs) = if c.id == id then some c else get_client id cs

  unfoldable pub send_to : Hub Frame → ℕ → Option Frame → Hub Frame
  unfolding at_client get_client
  send_to h id none = h
  send_to h id (some frame) = elim (get_client id h.clients) [
    | none ↦ h
    | some c ↦ record h {
      clients = at_client id (deliver frame) h.clients;
      dropped = add_u64 h.dropped (drop_of c);
    }
  ]

  unfoldable pub send_all : Hub Frame → ℕ → List (Option Frame) → Hub Frame
  send_all h id [] = h
  send_all h id (f ∷ fs) = send_all (send_to h id f) id fs

  -- `Unregister`: the counter counts the first call for a client.
  abbrev pub unregister : Client Frame → Client Frame
  unregister c = record c { registered = false }

  unfoldable pub client_count : Hub Frame → ℕ
  client_count h = count (λ c. c.registered) h.clients

  unfoldable pub stale_client_count : Hub Frame → ℕ
  stale_client_count h = count (λ c. c.registered && ltb 0 c.dropped) h.clients

  -- `len(client.send)` of every client of the map, added up.
  unfoldable pub queue_depth : List (Client Frame) → ℕ
  queue_depth [] = 0
  queue_depth (c ∷ cs) = (if c.registered then length c.send else 0) + queue_depth cs

-- `Stats`.
pub record Stats : Type 0 where
  pub connected : ℕ
  pub dropped : ℕ
  pub subscriptions : ℕ
  pub disconnects : ℕ
  pub write_failures : ℕ
  pub send_queue_depth : ℕ

unfoldable pub stats : {Frame : Type 0} → Hub Frame → Stats
unfolding client_count queue_depth
stats h = record {
  connected = client_count h;
  dropped = h.dropped;
  subscriptions = h.subscribed;
  disconnects = h.disconnects;
  write_failures = h.write_failures;
  send_queue_depth = queue_depth h.clients;
}
