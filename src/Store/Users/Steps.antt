-- ===== src/Store/Users/Steps.antt =====
-- internal/store/store.go: what each write of the table `users` does to its administrators.
use machmqtt_dashboard.Prelude.{
  ℕ, ◌+◌, ◌≤◌, ◌<◌, ◌≡◌, refl, ◌∙◌, ap, inl, inr, List, [], ◌∷◌, ◌++◌, String, Bool, false, ◌&&◌,
  not, none, leb, ==_iff, str_eq, eq_iff, count, arith, Option-cases,
}
use machmqtt_dashboard.Store.Users.{
  Db, Row, User, Bcrypt, Result, ok, err, find, update, remove, has_id, is_local_named,
  is_local_admin, provider_local, role_admin, create_user, insert_local, authenticate,
  check_password, note_failure, note_login,
}
use machmqtt_dashboard.Store.Users.Admins.{
  local_admins, is_deletable, delete_user, ensure_break_glass_admin, finish_bootstrap, promote,
  require_change,
}
use machmqtt_dashboard.Store.Users.External.{upsert_external_user, upsert, is_identity, refresh}
use machmqtt_dashboard.Store.Users.Sessions.{
  bump_token_version, bump, change_password, new_password,
}
use machmqtt_dashboard.Store.Users.Valid.{
  IsValid, DistinctIds, KeepsAdmins, append-IsValid, update-IsValid, count-le-update,
  remove-IsValid, count-append,
}

-- A step that keeps the table well formed and takes no local administrator away.
pub record Grows (db db' : Db) : Type 0 where
  pub valid : IsValid db'
  pub admins : local_admins db ≤ local_admins db'

pub Grows-refl : (db : Db) → IsValid db → Grows db db
Grows-refl db v = record { valid = v; admins = omega arith }

update-Grows :
    (p : Row → Bool) (f : Row → Row) (db : Db)
    → KeepsAdmins p f
    → IsValid db
    → Grows db (record db { rows = update p f db.rows })
update-Grows p f db k v = record {
  valid = update-IsValid p f k db v;
  admins = count-le-update p f k db.rows;
}

append-Grows :
    (db : Db) (r : Row)
    → r.id ≡ db.next_id
    → IsValid db
    → Grows db (record db { rows = db.rows ++ r ∷ []; next_id = db.next_id + 1 })
append-Grows db r e v = record {
  valid = append-IsValid db r e v;
  admins = omega (arith, count-append db.rows r);
}

insert_local-Grows :
    (db : Db) (username hash role : String) (now : ℕ)
    → IsValid db
    → Grows db (insert_local db username hash role now).0
unfolding insert_local
insert_local-Grows db username hash role now v =
    elim (Option-cases (find (is_local_named username) db.rows)) [
      | inl e ↦ rw (e, insert_local) (append-Grows db _ refl v)
      | inr (r, e) ↦ rw (e, insert_local) (Grows-refl db v)
    ]

pub create_user-Grows :
    (b : Bcrypt) (db : Db) (salt : ℕ) (username password role : String) (now : ℕ)
    → IsValid db
    → Grows db (create_user b db salt username password role now).0
unfolding create_user
create_user-Grows b db salt username password role now v =
    elim (Option-cases (b.generate salt password)) [
      | inl e ↦ ground (arith, e, Grows-refl db v)
      | inr (hash, e) ↦
          ground (arith, e, Grows-refl db v, insert_local-Grows db username hash role now v)
    ]

same-KeepsAdmins :
    (p : Row → Bool) (f : Row → Row)
    → ((r : Row) → (f r).id ≡ r.id)
    → ((r : Row) → is_local_admin (f r) ≡ is_local_admin r)
    → KeepsAdmins p f
same-KeepsAdmins p f i a = record { id = i; admin = λ r _ h. a r ∙ h }

check_password-Grows :
    (b : Bcrypt) (db : Db) (r : Row) (password : String) (now : ℕ)
    → IsValid db
    → Grows db (check_password b db r password now).0
unfolding check_password
check_password-Grows b db r password now v =
    let failed =
      update-Grows (has_id r.id) (note_failure now) db
        (same-KeepsAdmins (has_id r.id) (note_failure now) (λ _. refl) (λ _. refl)) v in
    let passed =
      update-Grows (has_id r.id) (note_login now) db
        (same-KeepsAdmins (has_id r.id) (note_login now) (λ _. refl) (λ _. refl)) v in
    ground (arith, failed, passed, Grows-refl db v)

pub authenticate-Grows :
    (b : Bcrypt) (db : Db) (username password : String) (now : ℕ)
    → IsValid db
    → Grows db (authenticate b db username password now).0
unfolding authenticate
authenticate-Grows b db username password now v =
    elim (Option-cases (find (is_local_named username) db.rows)) [
      | inl e ↦ ground (arith, e, Grows-refl db v)
      | inr (r, e) ↦ ground (arith, e, Grows-refl db v, check_password-Grows b db r password now v)
    ]

refresh-KeepsAdmins :
    (provider subject username display_name email role : String) (now : ℕ)
    → str_eq provider provider_local ≡ false
    → KeepsAdmins (is_identity provider subject) (refresh username display_name email role now)
unfolding refresh
refresh-KeepsAdmins provider subject username display_name email role now h = record {
  id = λ r. refl;
  admin = λ r hit admin. absurd (
      ground (
        arith,
        eq_iff r.auth_provider provider,
        eq_iff r.auth_provider provider_local,
        eq_iff provider provider_local,
      ));
}

upsert-Grows :
    (db : Db) (provider subject username display_name email role : String) (now : ℕ)
    → str_eq provider provider_local ≡ false
    → IsValid db
    → Grows db (upsert db provider subject username display_name email role now)
unfolding upsert
upsert-Grows db provider subject username display_name email role now h v =
    elim (Option-cases (find (is_identity provider subject) db.rows)) [
      | inl e ↦ rw (e, upsert) (append-Grows db _ refl v)
      | inr (r, e) ↦
          rw (e, upsert)
            (update-Grows (is_identity provider subject)
              (refresh username display_name email role now) db
              (refresh-KeepsAdmins provider subject username display_name email role now h) v)
    ]

pub upsert_external_user-Grows :
    (db : Db) (provider subject username display_name email role : String) (now : ℕ)
    → IsValid db
    → Grows db (upsert_external_user db provider subject username display_name email role now).0
unfolding upsert_external_user
upsert_external_user-Grows db provider subject username display_name email role now v =
    ground (
      arith,
      Grows-refl db v,
      upsert-Grows db provider subject username display_name email role now,
    )

pub change_password-Grows :
    (b : Bcrypt) (db : Db) (salt id : ℕ) (old_password password : String)
    → IsValid db
    → Grows db (change_password b db salt id old_password password).0
unfolding change_password
change_password-Grows b db salt id old_password password v =
    elim (Option-cases (b.generate salt password)) [
      | inl e ↦ ground (arith, e, Grows-refl db v)
      | inr (hash, e) ↦
          let changed =
            update-Grows (has_id id) (new_password hash) db
              (same-KeepsAdmins (has_id id) (new_password hash) (λ _. refl) (λ _. refl)) v in
          ground (arith, e, Grows-refl db v, changed)
    ]

pub bump_token_version-Grows :
    (db : Db) (id : ℕ) → IsValid db → Grows db (bump_token_version db id).0
unfolding bump_token_version
bump_token_version-Grows db id v =
    let bumped =
      update-Grows (has_id id) bump db (same-KeepsAdmins (has_id id) bump (λ _. refl) (λ _. refl))
        v in
    ground (arith, Grows-refl db v, bumped)

promote-KeepsAdmins : (id : ℕ) → KeepsAdmins (has_id id) promote
promote-KeepsAdmins id = record { id = λ r. refl; admin = λ r _ h. ground arith }

finish_bootstrap-Grows :
    (db : Db) (made : Db × Result User) → Grows db made.0 → Grows db (finish_bootstrap made).0
unfolding finish_bootstrap
finish_bootstrap-Grows db (db', err e) g = g
finish_bootstrap-Grows db (db', ok u) g =
    let marked =
      update-Grows (has_id u.id) require_change db'
        (same-KeepsAdmins (has_id u.id) require_change (λ _. refl) (λ _. refl)) g.valid in
    record { valid = marked.valid; admins = omega (arith, g.admins, marked.admins) }

pub ensure_break_glass_admin-Grows :
    (b : Bcrypt) (db : Db) (salt : ℕ) (password : String) (now : ℕ)
    → IsValid db
    → Grows db (ensure_break_glass_admin b db salt password now).0
unfolding ensure_break_glass_admin
ensure_break_glass_admin-Grows b db salt password now v =
    let made =
      finish_bootstrap-Grows db (create_user b db salt "admin" password role_admin now)
        (create_user-Grows b db salt "admin" password role_admin now v) in
    elim (Option-cases (find (is_local_named "admin") db.rows)) [
      | inl e ↦ ground (arith, e, Grows-refl db v, made)
      | inr (r, e) ↦ ground (
        arith,
        e,
        Grows-refl db v,
        update-Grows (has_id r.id) promote db (promote-KeepsAdmins r.id) v,
      )
    ]

-- A row that is no administrator goes without changing their number.
count-remove_last :
    (id n : ℕ) (rs : List Row)
    → n ≤ 1
    → count is_local_admin (remove (λ r. has_id id r && not (is_local_admin r && leb n 1)) rs)
      ≡ count is_local_admin rs
unfolding remove
count-remove_last id n [] h = refl
count-remove_last id n (r ∷ rs) h = ground (arith, count-remove_last id n rs)

remove_absent :
    (id n : ℕ) (rs : List Row)
    → find (has_id id) rs ≡ none
    → remove (λ r. has_id id r && not (is_local_admin r && leb n 1)) rs ≡ rs
unfolding remove find
remove_absent id n [] h = refl
remove_absent id n (r ∷ rs) h = ground (arith, remove_absent id n rs)

-- An id belongs to one row, so a deletion takes at most one administrator.
count-remove_one :
    (id n : ℕ) (rs : List Row)
    → DistinctIds rs
    → count is_local_admin rs
      ≤ count is_local_admin (remove (λ r. has_id id r && not (is_local_admin r && leb n 1)) rs) + 1
unfolding remove
count-remove_one id n [] d = omega arith
count-remove_one id n (r ∷ rs) d = ground (
  arith,
  ==_iff r.id id,
  remove_absent id n rs,
  ap (λ k. find (has_id k) rs),
  count-remove_one id n rs d.1,
)

pub delete_user-IsValid : (db : Db) (id : ℕ) → IsValid db → IsValid (delete_user db id).0
unfolding delete_user
delete_user-IsValid db id v = ground (arith, v, remove-IsValid (is_deletable id db) db v)

pub local_admins-delete_user :
    (db : Db) (id : ℕ) → IsValid db → 0 < local_admins db → 0 < local_admins (delete_user db id).0
unfolding delete_user
local_admins-delete_user db id v some_left = ground (
  arith,
  count-remove_last id (local_admins db) db.rows,
  count-remove_one id (local_admins db) db.rows v.distinct,
)
