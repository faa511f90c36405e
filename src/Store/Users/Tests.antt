-- ===== src/Store/Users/Tests.antt =====
-- Runs and instances of the user methods of internal/store/store.go.
use machmqtt_dashboard.Prelude.{ℕ, ◌<◌, ◌≡◌, refl, List, [], ◌∷◌, String, true, some, str_eq, arith}
use machmqtt_dashboard.Store.Users.{
  Db, Row, Bcrypt, err, account_locked, last_administrator, local_row, role_admin, role_viewer,
  find, update, remove, create_user, authenticate,
}
use machmqtt_dashboard.Store.Users.Admins.{local_admins, delete_user, ensure_break_glass_admin}
use machmqtt_dashboard.Store.Users.Lockout.{attempt_all, authenticate_locked_out}
use machmqtt_dashboard.Store.Users.External.{upsert_external_user}
use machmqtt_dashboard.Store.Users.Identity.{local_rows, local_rows-upsert_external_user}
use machmqtt_dashboard.Store.Users.Valid.{IsValid}
use machmqtt_dashboard.Store.Users.History.{deletes, run, apply, local_admins-run}

program : Unit {0}
unfolding create_user authenticate delete_user ensure_break_glass_admin find update remove
    attempt_all apply run
program = tt

-- A hash is the password itself.
abbrev plain : Bcrypt
plain = record { generate = λ salt p. some p; compare = str_eq }

abbrev root : Row
root = local_row 1 "admin" "secret" role_admin 5

abbrev viewer : Row
viewer = local_row 2 "vera" "look" role_viewer 6

abbrev db : Db
db = record { rows = root ∷ viewer ∷ []; next_id = 3; available = true }

db-IsValid : IsValid db
unfolding program
db-IsValid = record { distinct = (refl, (refl, tt)); fresh = omega arith }

last_admin_stays : (delete_user db 1) ≡ (db, err last_administrator)
unfolding program
last_admin_stays = refl

abbrev wrong_guesses : List (ℕ × String)
wrong_guesses =
    (10, "a")
    ∷ (11, "a")
    ∷ (12, "a")
    ∷ (13, "a")
    ∷ (14, "a")
    ∷ (15, "a")
    ∷ (16, "a")
    ∷ (17, "a")
    ∷ (18, "a")
    ∷ (19, "a")
    ∷ []

local_admins-run_example : 0 < local_admins (run plain db ((7, deletes 1) ∷ (8, deletes 2) ∷ []))
local_admins-run_example =
    (local_admins-run plain db ((7, deletes 1) ∷ (8, deletes 2) ∷ []) db-IsValid (omega arith)).1

authenticate_locked_out_example :
    authenticate plain (attempt_all plain db "vera" wrong_guesses) "vera" "look" 30
    ≡ (attempt_all plain db "vera" wrong_guesses, err account_locked)
unfolding program
authenticate_locked_out_example =
    authenticate_locked_out plain "vera" "look" 10 db viewer wrong_guesses 30 "look" refl refl refl
      refl
      (
        omega arith,
        omega arith,
        refl,
        (
          omega arith,
          omega arith,
          refl,
          (
            omega arith,
            omega arith,
            refl,
            (
              omega arith,
              omega arith,
              refl,
              (
                omega arith,
                omega arith,
                refl,
                (
                  omega arith,
                  omega arith,
                  refl,
                  (
                    omega arith,
                    omega arith,
                    refl,
                    (
                      omega arith,
                      omega arith,
                      refl,
                      (omega arith, omega arith, refl, (omega arith, omega arith, refl, tt)),
                    ),
                  ),
                ),
              ),
            ),
          ),
        ),
      )
      (omega arith) (omega arith) (omega arith)

abbrev no_admin : Db
no_admin = record db { rows = viewer ∷ [] }

-- Someone at the provider calls themselves "admin".
local_rows-upsert_external_user_example :
    local_rows (upsert_external_user db "sso" "s9" "admin" "" "" role_admin 40).0.rows
    ≡ root ∷ viewer ∷ []
local_rows-upsert_external_user_example =
    local_rows-upsert_external_user "sso" "s9" "admin" "" "" role_admin 40 db
