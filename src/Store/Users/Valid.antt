-- ===== src/Store/Users/Valid.antt =====
-- internal/store/store.go: the invariant of the table `users`, and what one statement does to it.
use machmqtt_dashboard.Prelude.{
  ℕ, ◌+◌, ◌≤◌, ◌<◌, ◌≡◌, refl, List, [], ◌∷◌, ◌++◌, Bool, true, false, none, if◌then◌else◌, count,
  arith, All,
}
use machmqtt_dashboard.Store.Users.{Db, Row, find, update, remove, has_id, is_local_admin}

-- `id` is the primary key, handed out in rising order.
abbrev pub DistinctIds : List Row → Type 0
DistinctIds [] = Unit {0}
DistinctIds (r ∷ rs) = (find (has_id r.id) rs ≡ none) × DistinctIds rs

pub record IsValid (db : Db) : Type 0 where
  pub distinct : DistinctIds db.rows
  pub fresh : All (λ r. r.id < db.next_id) db.rows

-- An UPDATE that keeps the ids, and every local administrator as one.
pub record KeepsAdmins (p : Row → Bool) (f : Row → Row) : Type 0 where
  pub id : (r : Row) → (f r).id ≡ r.id
  pub admin : (r : Row) → p r ≡ true → is_local_admin r ≡ true → is_local_admin (f r) ≡ true

find-append :
    (p : Row → Bool) (rs : List Row) (r : Row)
    → find p rs ≡ none
    → p r ≡ false
    → find p (rs ++ r ∷ []) ≡ none
unfolding find
find-append p [] r h e = rw e
find-append p (x ∷ rs) r h e = ground (arith, find-append p rs r)

fresh-absent : (n : ℕ) (rs : List Row) → All (λ r. r.id < n) rs → find (has_id n) rs ≡ none
unfolding find
fresh-absent n [] h = refl
fresh-absent n (r ∷ rs) h = ground (arith, fresh-absent n rs h.1)

append-DistinctIds :
    (rs : List Row) (r : Row)
    → DistinctIds rs
    → All (λ x. x.id < r.id) rs
    → DistinctIds (rs ++ r ∷ [])
unfolding find
append-DistinctIds [] r d h = (refl, tt)
append-DistinctIds (x ∷ rs) r d h =
    (find-append (has_id x.id) rs r d.0 (ground arith), append-DistinctIds rs r d.1 h.1)

append-fresh :
    (n : ℕ) (rs : List Row) (r : Row)
    → All (λ x. x.id < n) rs
    → r.id ≡ n
    → All (λ x. x.id < n + 1) (rs ++ r ∷ [])
append-fresh n [] r h e = (omega arith, tt)
append-fresh n (x ∷ rs) r h e = (omega arith, append-fresh n rs r h.1 e)

-- An INSERT takes the next id.
pub append-IsValid :
    (db : Db) (r : Row)
    → r.id ≡ db.next_id
    → IsValid db
    → IsValid (record db { rows = db.rows ++ r ∷ []; next_id = db.next_id + 1 })
append-IsValid db r e v = record {
  distinct = append-DistinctIds db.rows r v.distinct (rw e v.fresh);
  fresh = append-fresh db.next_id db.rows r v.fresh e;
}

module _ (p : Row → Bool) (f : Row → Row) (keeps : KeepsAdmins p f) where
  find-update_absent :
      (id : ℕ) (rs : List Row)
      → find (has_id id) rs ≡ none
      → find (has_id id) (update p f rs) ≡ none
  unfolding find update
  find-update_absent id [] h = refl
  find-update_absent id (r ∷ rs) h = ground (arith, keeps.id r, find-update_absent id rs)

  update-DistinctIds : (rs : List Row) → DistinctIds rs → DistinctIds (update p f rs)
  unfolding update
  update-DistinctIds [] d = tt
  update-DistinctIds (r ∷ rs) d =
      ground (arith, keeps.id r, update-DistinctIds rs d.1, find-update_absent r.id rs d.0)

  update-fresh :
      (n : ℕ) (rs : List Row) → All (λ r. r.id < n) rs → All (λ r. r.id < n) (update p f rs)
  unfolding update
  update-fresh n [] h = tt
  update-fresh n (r ∷ rs) h = ground (arith, keeps.id r, update-fresh n rs h.1)

  pub update-IsValid : (db : Db) → IsValid db → IsValid (record db { rows = update p f db.rows })
  update-IsValid db v = record {
    distinct = update-DistinctIds db.rows v.distinct;
    fresh = update-fresh db.next_id db.rows v.fresh;
  }

  pub count-le-update :
      (rs : List Row) → count is_local_admin rs ≤ count is_local_admin (update p f rs)
  unfolding update
  count-le-update [] = omega arith
  count-le-update (r ∷ rs) = ground (arith, keeps.admin r, count-le-update rs)

module _ (p : Row → Bool) where
  find-remove_absent :
      (id : ℕ) (rs : List Row) → find (has_id id) rs ≡ none → find (has_id id) (remove p rs) ≡ none
  unfolding find remove
  find-remove_absent id [] h = refl
  find-remove_absent id (r ∷ rs) h = ground (arith, find-remove_absent id rs)

  remove-DistinctIds : (rs : List Row) → DistinctIds rs → DistinctIds (remove p rs)
  unfolding remove
  remove-DistinctIds [] d = tt
  remove-DistinctIds (r ∷ rs) d =
      ground (arith, remove-DistinctIds rs d.1, find-remove_absent r.id rs d.0)

  remove-fresh :
      (n : ℕ) (rs : List Row) → All (λ r. r.id < n) rs → All (λ r. r.id < n) (remove p rs)
  unfolding remove
  remove-fresh n [] h = tt
  remove-fresh n (r ∷ rs) h = ground (arith, remove-fresh n rs h.1)

  pub remove-IsValid : (db : Db) → IsValid db → IsValid (record db { rows = remove p db.rows })
  remove-IsValid db v = record {
    distinct = remove-DistinctIds db.rows v.distinct;
    fresh = remove-fresh db.next_id db.rows v.fresh;
  }

pub count-append :
    (rs : List Row) (r : Row)
    → count is_local_admin (rs ++ r ∷ [])
      ≡ count is_local_admin rs + (if is_local_admin r then 1 else 0)
count-append [] r = ground arith
count-append (x ∷ rs) r = ground (arith, count-append rs r)
