-- ===== src/Auth/RateLimit/Eviction/Keys.antt =====
-- internal/auth/ratelimit.go, `evictStaleLocked`: the candidates, their order and their deletion.
use machmqtt_dashboard.Prelude.{
  ℕ, zero, suc, ◌+◌, ◌≡◌, refl, ◌∙◌, List, [], ◌∷◌, String, Map, lookup, delete, length, take, All,
  arith, leb, Bool, true, false, not, ◌||◌, str_eq, eq_iff, if◌then◌else◌, Option, some, none,
  Distinct, lookup-delete, delete-Distinct, length-delete,
}
use machmqtt_dashboard.Auth.RateLimit.{Aged, live, evictable, insert_aged, sort_aged, delete_aged}

pub mem_key : String → List Aged → Bool
mem_key k [] = false
mem_key k (a ∷ bs) = str_eq a.key k || mem_key k bs

pub mem_key-insert_aged :
    (k : String) (a : Aged) (bs : List Aged)
    → mem_key k (insert_aged a bs) ≡ (str_eq a.key k || mem_key k bs)
unfolding mem_key insert_aged
mem_key-insert_aged k a [] = refl
mem_key-insert_aged k a (b ∷ bs) = ground (arith, mem_key-insert_aged k a bs)

pub mem_key-sort_aged : (k : String) (bs : List Aged) → mem_key k (sort_aged bs) ≡ mem_key k bs
unfolding mem_key sort_aged
mem_key-sort_aged k [] = refl
mem_key-sort_aged k (b ∷ bs) =
    ground (arith, mem_key-insert_aged k b (sort_aged bs), mem_key-sort_aged k bs)

pub mem_key-take :
    (k : String) (n : ℕ) (bs : List Aged) → mem_key k bs ≡ false → mem_key k (take n bs) ≡ false
unfolding mem_key
mem_key-take k zero bs h = refl
mem_key-take k (suc n) [] h = refl
mem_key-take k (suc n) (b ∷ bs) h = ground (arith, mem_key-take k n bs)

pub lookup-delete_aged :
    (k : String) (bs : List Aged) (m : Map (List ℕ))
    → lookup k (delete_aged bs m) ≡ (if mem_key k bs then none else lookup k m)
unfolding mem_key delete_aged
lookup-delete_aged k [] m = refl
lookup-delete_aged k (b ∷ bs) m =
    ground (arith, lookup-delete_aged k bs (delete b.key m), lookup-delete b.key k m)

pub delete_aged-Distinct :
    (bs : List Aged) (m : Map (List ℕ)) → Distinct m → Distinct (delete_aged bs m)
unfolding delete_aged
delete_aged-Distinct [] m d = d
delete_aged-Distinct (b ∷ bs) m d =
    delete_aged-Distinct bs (delete b.key m) (delete-Distinct b.key m d)

module _ (max window now : ℕ) where
  abbrev pub has_budget : Option (List ℕ) → Bool
  has_budget none = false
  has_budget (some ts) = not (leb max (live window now ts))

  -- Exactly the keys with budget left are candidates.
  pub mem_key-evictable :
      (k : String) (m : Map (List ℕ))
      → Distinct m
      → mem_key k (evictable max window now m) ≡ has_budget (lookup k m)
  unfolding mem_key evictable lookup
  mem_key-evictable k [] d = refl
  mem_key-evictable k ((j, ts) ∷ m) d = ground (arith, eq_iff j k, mem_key-evictable k m d.1)

-- The candidates are distinct keys of the table, so each deletion frees one entry.
abbrev pub DistinctKeys : List Aged → Type 0
DistinctKeys [] = Unit {0}
DistinctKeys (b ∷ bs) = (mem_key b.key bs ≡ false) × DistinctKeys bs

abbrev pub is_present : Option (List ℕ) → Bool
is_present none = false
is_present (some ts) = true

abbrev pub AllPresent : Map (List ℕ) → List Aged → Type 0
AllPresent m = All (λ b. is_present (lookup b.key m) ≡ true)

insert_aged-DistinctKeys :
    (a : Aged) (bs : List Aged)
    → mem_key a.key bs ≡ false
    → DistinctKeys bs
    → DistinctKeys (insert_aged a bs)
unfolding insert_aged mem_key
insert_aged-DistinctKeys a [] h d = (refl, tt)
insert_aged-DistinctKeys a (b ∷ bs) h d = ground (
  arith,
  eq_iff a.key b.key,
  eq_iff b.key a.key,
  mem_key-insert_aged b.key a bs,
  insert_aged-DistinctKeys a bs,
)

pub sort_aged-DistinctKeys : (bs : List Aged) → DistinctKeys bs → DistinctKeys (sort_aged bs)
unfolding sort_aged
sort_aged-DistinctKeys [] d = tt
sort_aged-DistinctKeys (b ∷ bs) d =
    insert_aged-DistinctKeys b (sort_aged bs) (mem_key-sort_aged b.key bs ∙ d.0)
      (sort_aged-DistinctKeys bs d.1)

pub take-DistinctKeys : (n : ℕ) (bs : List Aged) → DistinctKeys bs → DistinctKeys (take n bs)
take-DistinctKeys zero bs d = tt
take-DistinctKeys (suc n) [] d = tt
take-DistinctKeys (suc n) (b ∷ bs) d = (mem_key-take b.key n bs d.0, take-DistinctKeys n bs d.1)

insert_aged-AllPresent :
    (m : Map (List ℕ)) (a : Aged) (bs : List Aged)
    → AllPresent m (a ∷ bs)
    → AllPresent m (insert_aged a bs)
unfolding insert_aged
insert_aged-AllPresent m a [] h = h
insert_aged-AllPresent m a (b ∷ bs) h = ground (arith, insert_aged-AllPresent m a bs (h.0, h.1.1))

pub sort_aged-AllPresent :
    (m : Map (List ℕ)) (bs : List Aged) → AllPresent m bs → AllPresent m (sort_aged bs)
unfolding sort_aged
sort_aged-AllPresent m [] h = tt
sort_aged-AllPresent m (b ∷ bs) h =
    insert_aged-AllPresent m b (sort_aged bs) (h.0, sort_aged-AllPresent m bs h.1)

pub take-AllPresent :
    (m : Map (List ℕ)) (n : ℕ) (bs : List Aged) → AllPresent m bs → AllPresent m (take n bs)
take-AllPresent m zero bs h = tt
take-AllPresent m (suc n) [] h = tt
take-AllPresent m (suc n) (b ∷ bs) h = (h.0, take-AllPresent m n bs h.1)

delete-AllPresent :
    (k : String) (m : Map (List ℕ)) (bs : List Aged)
    → mem_key k bs ≡ false
    → AllPresent m bs
    → AllPresent (delete k m) bs
unfolding mem_key
delete-AllPresent k m [] e h = tt
delete-AllPresent k m (b ∷ bs) e h =
    ground
      (arith, eq_iff k b.key, eq_iff b.key k, lookup-delete k b.key m, delete-AllPresent k m bs)

pub length-delete_aged :
    (bs : List Aged) (m : Map (List ℕ))
    → Distinct m
    → DistinctKeys bs
    → AllPresent m bs
    → length (delete_aged bs m) + length bs ≡ length m
unfolding delete_aged
length-delete_aged [] m d k h = omega arith
length-delete_aged (b ∷ bs) m d k h =
    let rest =
      length-delete_aged bs (delete b.key m) (delete-Distinct b.key m d) k.1
        (delete-AllPresent b.key m bs k.0 h.1) in
    omega (arith, rest, freed (lookup b.key m) refl h.0)
  where
    freed :
        (o : Option (List ℕ))
        → lookup b.key m ≡ o
        → is_present o ≡ true
        → length (delete b.key m) + 1 ≡ length m
    freed none e p = ground arith
    freed (some ts) e p = length-delete b.key ts m d e

length-insert_aged : (a : Aged) (bs : List Aged) → length (insert_aged a bs) ≡ length bs + 1
unfolding insert_aged
length-insert_aged a [] = refl
length-insert_aged a (b ∷ bs) = ground (arith, length-insert_aged a bs)

pub length-sort_aged : (bs : List Aged) → length (sort_aged bs) ≡ length bs
unfolding sort_aged
length-sort_aged [] = refl
length-sort_aged (b ∷ bs) = omega (arith, length-insert_aged b (sort_aged bs), length-sort_aged bs)

weaken-AllPresent :
    (k : String) (ts : List ℕ) (m : Map (List ℕ)) (bs : List Aged)
    → AllPresent m bs
    → AllPresent ((k, ts) ∷ m) bs
unfolding lookup
weaken-AllPresent k ts m [] h = tt
weaken-AllPresent k ts m (b ∷ bs) h = ground (arith, weaken-AllPresent k ts m bs h.1)

module _ (max window now : ℕ) where
  pub evictable-DistinctKeys :
      (m : Map (List ℕ)) → Distinct m → DistinctKeys (evictable max window now m)
  unfolding evictable
  evictable-DistinctKeys [] d = tt
  evictable-DistinctKeys ((k, ts) ∷ m) d =
      ground (arith, mem_key-evictable max window now k m d.1, evictable-DistinctKeys m d.1)

  pub evictable-AllPresent : (m : Map (List ℕ)) → AllPresent m (evictable max window now m)
  unfolding evictable lookup
  evictable-AllPresent [] = tt
  evictable-AllPresent ((k, ts) ∷ m) =
      let rest = weaken-AllPresent k ts m (evictable max window now m) (evictable-AllPresent m) in
      ground (arith, rest, eq_iff k k)
