-- ===== src/Store/Users/Lockout.antt =====
-- internal/store/store.go, `Authenticate`: who gets in, and the lockout of an account.
use machmqtt_dashboard.Prelude.{
  ℕ, ◌+◌, ◌≤◌, ◌<◌, ◌≡◌, refl, ◌⊎◌, inl, inr, List, [], ◌∷◌, String, Bool, true, false, some, arith,
  Bool-cases, Option-cases, length,
}
use machmqtt_dashboard.Store.Users.{
  Db, Row, User, Bcrypt, ok, err, account_locked, find, update, has_id, is_local_named,
  authenticate, check_password, note_failure, note_login, is_locked, logged_in, or_empty,
  max_failed_attempts, lockout_window,
}

-- An UPDATE of the row that a query finds, which does not touch what the query asks for.
pub find-update :
    (p : Row → Bool) (f : Row → Row) (r : Row) (rs : List Row)
    → ((x : Row) → p (f x) ≡ p x)
    → find p rs ≡ some r
    → find p (update (has_id r.id) f rs) ≡ some (f r)
unfolding find update
find-update p f r [] same h = ground arith
find-update p f r (x ∷ rs) same h = ground (arith, same x, same r, find-update p f r rs same)

-- Whoever is let in is the local user of that name, whose hash matches the password, and whose
-- account is not locked; the login is recorded, and the count of failures starts again.
pub authenticate-ok :
    (b : Bcrypt) (db db' : Db) (username password : String) (now : ℕ) (u : User)
    → authenticate b db username password now ≡ (db', ok u)
    → (r : Row) × (find (is_local_named username) db.rows ≡ some r)
      × (is_locked r now ≡ false)
      × (b.compare (or_empty r.password_hash) password ≡ true)
      × (u ≡ logged_in r)
      × (find (is_local_named username) db'.rows ≡ some (note_login now r))
unfolding authenticate check_password
authenticate-ok b db db' username password now u h =
    elim (Option-cases (find (is_local_named username) db.rows)) [
      | inl e ↦ absurd (ground (arith, e))
      | inr (r, e) ↦ (
        r,
        e,
        ground (arith, e),
        ground (arith, e),
        ground (arith, e),
        ground (
          arith,
          e,
          find-update (is_local_named username) (note_login now) r db.rows (λ _. refl),
        ),
      )
    ]

-- Attempts on one account with the passwords given, in order.
unfoldable pub attempt_all : Bcrypt → Db → String → List (ℕ × String) → Db
attempt_all b db username [] = db
attempt_all b db username ((now, password) ∷ rest) =
    attempt_all b (authenticate b db username password now).0 username rest

-- Each attempt falls in the time from `start` until the window after it, and its password is wrong.
abbrev pub AllWrong : Bcrypt → String → ℕ → List (ℕ × String) → Type 0
AllWrong b hash start [] = Unit {0}
AllWrong b hash start ((now, password) ∷ rest) =
    (start ≤ now)
    × (now < start + lockout_window)
    × (b.compare hash password ≡ false)
    × AllWrong b hash start rest

module _ (b : Bcrypt) (username hash : String) (start : ℕ) where
  -- What is known of the account after `n` failed attempts from `start` on.
  record Failed (db : Db) (n : ℕ) : Type 0 where
    up : db.available ≡ true
    row : Row
    found : find (is_local_named username) db.rows ≡ some row
    hashed : row.password_hash ≡ some hash
    last : ℕ
    last_failure : row.last_failed_at ≡ some last
    recent : start ≤ last
    failures : (n ≤ row.failed_attempts) ⊎ (max_failed_attempts ≤ row.failed_attempts)

  -- A wrong password for an account that is not locked is counted.
  wrong-Failed :
      (db : Db) (row : Row) (n now : ℕ) (password : String)
      → db.available ≡ true
      → find (is_local_named username) db.rows ≡ some row
      → row.password_hash ≡ some hash
      → is_locked row now ≡ false
      → b.compare hash password ≡ false
      → start ≤ now
      → (n ≤ row.failed_attempts) ⊎ (max_failed_attempts ≤ row.failed_attempts)
      → Failed (authenticate b db username password now).0 (n + 1)
  unfolding authenticate check_password
  wrong-Failed db row n now password up e h open_ wrong le count =
      let there =
        find-update (is_local_named username) (note_failure now) row db.rows (λ _. refl) e in
      record {
        up = ground (arith, e);
        row = note_failure now row;
        found = ground (arith, e, there);
        hashed = h;
        last = now;
        last_failure = refl;
        recent = le;
        failures = ground arith;
      }

  locked :
      (db : Db) (row : Row) (now : ℕ) (password : String)
      → db.available ≡ true
      → find (is_local_named username) db.rows ≡ some row
      → row.password_hash ≡ some hash
      → is_locked row now ≡ true
      → authenticate b db username password now ≡ (db, err account_locked)
  unfolding authenticate check_password
  locked db row now password up e h l = ground (arith, e)

  attempt-Failed :
      (db : Db) (n now : ℕ) (password : String)
      → Failed db n
      → start ≤ now
      → now < start + lockout_window
      → b.compare hash password ≡ false
      → Failed (authenticate b db username password now).0 (n + 1)
  attempt-Failed db n now password f le lt wrong = elim (Bool-cases (is_locked f.row now)) [
    | inl l ↦ rw (locked db f.row now password f.up f.found f.hashed l) (record {
      up = f.up;
      row = f.row;
      found = f.found;
      hashed = f.hashed;
      last = f.last;
      last_failure = f.last_failure;
      recent = f.recent;
      failures = inr (ground arith);
    })
    | inr o ↦ wrong-Failed db f.row n now password f.up f.found f.hashed o wrong le f.failures
  ]

  attempt_all-Failed :
      (db : Db) (n m : ℕ) (attempts : List (ℕ × String))
      → Failed db n
      → AllWrong b hash start attempts
      → n + length attempts ≡ m
      → Failed (attempt_all b db username attempts) m
  unfolding attempt_all
  attempt_all-Failed db n m [] f w e = let e' : n ≡ m = omega arith in rw (← e') f
  attempt_all-Failed db n m ((now, password) ∷ rest) f w e =
      attempt_all-Failed (authenticate b db username password now).0 (n + 1) m rest
        (attempt-Failed db n now password f w.0 w.1 w.2) w.3 (omega arith)

  -- Ten wrong passwords on an account that was open lock it: for the rest of the window after the
  -- first of them, no password gets in, the right one included, and nothing is recorded.
  pub authenticate_locked_out :
      (db : Db) (row : Row) (attempts : List (ℕ × String)) (now : ℕ) (password : String)
      → db.available ≡ true
      → find (is_local_named username) db.rows ≡ some row
      → row.password_hash ≡ some hash
      → is_locked row start ≡ false
      → AllWrong b hash start attempts
      → max_failed_attempts ≤ length attempts
      → start ≤ now
      → now < start + lockout_window
      → authenticate b (attempt_all b db username attempts) username password now
        ≡ (attempt_all b db username attempts, err account_locked)
  unfolding attempt_all
  authenticate_locked_out db row [] now password up e h o w many le lt = absurd (omega arith)
  authenticate_locked_out db row ((t, wrong) ∷ rest) now password up e h o w many le lt =
      let first = wrong-Failed db row 0 t wrong up e h (ground arith) w.2 w.0 (inl (omega arith)) in
      let f =
        attempt_all-Failed (authenticate b db username wrong t).0 1 (1 + length rest) rest first w.3
          refl in
      locked (attempt_all b (authenticate b db username wrong t).0 username rest) f.row now password
        f.up f.found f.hashed (ground (arith, f.failures, f.last_failure, f.recent))
