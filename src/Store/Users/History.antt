-- ===== src/Store/Users/History.antt =====
-- internal/store/store.go: every method that writes the table `users`, as one step.
use machmqtt_dashboard.Prelude.{ℕ, ◌<◌, List, [], ◌∷◌, String, arith}
use machmqtt_dashboard.Store.Users.{Db, Bcrypt, create_user, authenticate}
use machmqtt_dashboard.Store.Users.Admins.{local_admins, delete_user, ensure_break_glass_admin}
use machmqtt_dashboard.Store.Users.External.{upsert_external_user}
use machmqtt_dashboard.Store.Users.Sessions.{bump_token_version, change_password}
use machmqtt_dashboard.Store.Users.Valid.{IsValid}
use machmqtt_dashboard.Store.Users.Steps.{
  create_user-Grows, authenticate-Grows, upsert_external_user-Grows, change_password-Grows,
  bump_token_version-Grows, ensure_break_glass_admin-Grows, delete_user-IsValid,
  local_admins-delete_user,
}

pub data Op : Type 0 where
  creates : (salt : ℕ) (username password role : String) → Op
  authenticates : (username password : String) → Op
  upserts : (provider subject username display_name email role : String) → Op
  changes : (salt id : ℕ) (old_password password : String) → Op
  bumps : (id : ℕ) → Op
  deletes : (id : ℕ) → Op
  bootstraps : (salt : ℕ) (password : String) → Op

unfoldable pub apply : Bcrypt → Db → ℕ × Op → Db
apply b db (now, creates salt username password role) =
    (create_user b db salt username password role now).0
apply b db (now, authenticates username password) = (authenticate b db username password now).0
apply b db (now, upserts provider subject username display_name email role) =
    (upsert_external_user db provider subject username display_name email role now).0
apply b db (now, changes salt id old_password password) =
    (change_password b db salt id old_password password).0
apply b db (now, bumps id) = (bump_token_version db id).0
apply b db (now, deletes id) = (delete_user db id).0
apply b db (now, bootstraps salt password) = (ensure_break_glass_admin b db salt password now).0

unfoldable pub run : Bcrypt → Db → List (ℕ × Op) → Db
run b db [] = db
run b db (op ∷ ops) = run b (apply b db op) ops

apply-IsValid : (b : Bcrypt) (db : Db) (op : ℕ × Op) → IsValid db → IsValid (apply b db op)
unfolding apply
apply-IsValid b db (now, creates salt username password role) v =
    (create_user-Grows b db salt username password role now v).valid
apply-IsValid b db (now, authenticates username password) v =
    (authenticate-Grows b db username password now v).valid
apply-IsValid b db (now, upserts provider subject username display_name email role) v =
    (upsert_external_user-Grows db provider subject username display_name email role now v).valid
apply-IsValid b db (now, changes salt id old_password password) v =
    (change_password-Grows b db salt id old_password password v).valid
apply-IsValid b db (now, bumps id) v = (bump_token_version-Grows db id v).valid
apply-IsValid b db (now, deletes id) v = delete_user-IsValid db id v
apply-IsValid b db (now, bootstraps salt password) v =
    (ensure_break_glass_admin-Grows b db salt password now v).valid

local_admins-apply :
    (b : Bcrypt) (db : Db) (op : ℕ × Op)
    → IsValid db
    → 0 < local_admins db
    → 0 < local_admins (apply b db op)
unfolding apply
local_admins-apply b db (now, creates salt username password role) v h =
    omega (arith, (create_user-Grows b db salt username password role now v).admins)
local_admins-apply b db (now, authenticates username password) v h =
    omega (arith, (authenticate-Grows b db username password now v).admins)
local_admins-apply b db (now, upserts provider subject username display_name email role) v h =
    omega (
      arith,
      (upsert_external_user-Grows db provider subject username display_name email role now
          v).admins,
    )
local_admins-apply b db (now, changes salt id old_password password) v h =
    omega (arith, (change_password-Grows b db salt id old_password password v).admins)
local_admins-apply b db (now, bumps id) v h =
    omega (arith, (bump_token_version-Grows db id v).admins)
local_admins-apply b db (now, deletes id) v h = local_admins-delete_user db id v h
local_admins-apply b db (now, bootstraps salt password) v h =
    omega (arith, (ensure_break_glass_admin-Grows b db salt password now v).admins)

-- Once a local administrator exists, no sequence of calls of the methods that write the table leaves
-- it without one; and the ids stay distinct and below the next one.
pub local_admins-run :
    (b : Bcrypt) (db : Db) (ops : List (ℕ × Op))
    → IsValid db
    → 0 < local_admins db
    → IsValid (run b db ops) × (0 < local_admins (run b db ops))
unfolding run
local_admins-run b db [] v h = (v, h)
local_admins-run b db (op ∷ ops) v h =
    local_admins-run b (apply b db op) ops (apply-IsValid b db op v)
      (local_admins-apply b db op v h)
