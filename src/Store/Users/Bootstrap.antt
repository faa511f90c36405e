-- ===== src/Store/Users/Bootstrap.antt =====
-- internal/store/store.go, `EnsureBreakGlassAdmin`: what its success means.
use machmqtt_dashboard.Prelude.{
  ℕ, ◌<◌, ◌≡◌, refl, inl, inr, List, [], ◌∷◌, String, true, Option, some, count, arith, Bool-cases,
  Option-cases,
}
use machmqtt_dashboard.Store.Users.{
  Db, Row, User, Bcrypt, Result, ok, err, find, update, has_id, is_local_named, is_local_admin,
  create_user, insert_local, role_admin, local_row,
}
use machmqtt_dashboard.Store.Users.Admins.{
  local_admins, ensure_break_glass_admin, finish_bootstrap, promote, require_change, get_user,
}
use machmqtt_dashboard.Store.Users.Valid.{count-append, count-le-update, KeepsAdmins}

-- Promoting the local user that a query finds makes an administrator.
count-promote :
    (name : String) (r : Row) (rs : List Row)
    → find (is_local_named name) rs ≡ some r
    → 0 < count is_local_admin (update (has_id r.id) promote rs)
unfolding find update
count-promote name r [] h = absurd (ground arith)
count-promote name r (x ∷ rs) h = elim (Bool-cases (is_local_named name x)) [
  | inl hit ↦
      let same : x ≡ r = ground (arith, hit) in
      let self : has_id x.id x ≡ true = ground arith in rw (← same, self) (ground (arith, hit))
  | inr miss ↦ ground (arith, miss, count-promote name r rs)
]

require_change-KeepsAdmins : (id : ℕ) → KeepsAdmins (has_id id) require_change
require_change-KeepsAdmins id = record { id = λ r. refl; admin = λ r _ h. h }

create_user-admin :
    (b : Bcrypt) (db db' : Db) (salt : ℕ) (name password : String) (now : ℕ) (u : User)
    → create_user b db salt name password role_admin now ≡ (db', ok u)
    → 0 < local_admins db'
unfolding create_user insert_local
create_user-admin b db db' salt name password now u h =
    elim (Option-cases (b.generate salt password)) [
      | inl e ↦ absurd (ground (arith, e))
      | inr (hash, e) ↦ elim (Option-cases (find (is_local_named name) db.rows)) [
        | inl f ↦
            ground
              (arith, e, f, count-append db.rows (local_row db.next_id name hash role_admin now))
        | inr (r, f) ↦ absurd (ground (arith, e, f))
      ]
    ]

finish_bootstrap-admin :
    (made : Db × Result User) (db' : Db) (o : Option User)
    → ((db : Db) (u : User) → made ≡ (db, ok u) → 0 < local_admins db)
    → finish_bootstrap made ≡ (db', ok o)
    → 0 < local_admins db'
unfolding finish_bootstrap
finish_bootstrap-admin (db, err e) db' o some_admin h = absurd (ground arith)
finish_bootstrap-admin (db, ok u) db' o some_admin h = ground (
  arith,
  some_admin db u refl,
  count-le-update (has_id u.id) require_change (require_change-KeepsAdmins u.id) db.rows,
)

-- Whenever it reports no error, whether it found an administrator, promoted the local user "admin" or
-- created one, the table has a local administrator.
pub local_admins-ensure :
    (b : Bcrypt) (db db' : Db) (salt : ℕ) (password : String) (now : ℕ) (o : Option User)
    → ensure_break_glass_admin b db salt password now ≡ (db', ok o)
    → 0 < local_admins db'
unfolding ensure_break_glass_admin get_user
local_admins-ensure b db db' salt password now o h =
    elim (Option-cases (find (is_local_named "admin") db.rows)) [
      | inl e ↦
          let made =
            finish_bootstrap-admin (create_user b db salt "admin" password role_admin now) db' o
              (λ d u q. create_user-admin b db d salt "admin" password now u q) in
          ground (arith, e, made)
      | inr (r, e) ↦ ground (arith, e, count-promote "admin" r db.rows e)
    ]
