-- ===== src/Logbuf/Refine.antt =====
-- The ring buffer of internal/logbuf/logbuf.go against a bounded log: it holds the latest entries.
use mathlib.Core.List.{append-nil, append_assoc}
use native.Mathlib.Decide.{dec_lt}
use native.Mathlib.Nat.{mod-eq_of_lt, mod_self}
use machmqtt_dashboard.Prelude.{
  ℕ, zero, suc, ◌+◌, ◌-◌, ◌%◌, ◌≤◌, ◌<◌, ◌≡◌, refl, sym, ap, ◌∙◌, List, [], ◌∷◌, ◌++◌, String, Map,
  length, set, take, drop, replicate, arith, length-set, length-append, length-take, length-drop,
  length-replicate, take-suc-set, drop-suc-set, take_of_length-le, drop_of_length-le, drop-append,
  drop-suc, inl, inr, ltb, if◌then◌else◌, Bool-cases, map, leb,
}
use machmqtt_dashboard.Logbuf.{
  Core, Entry, Record, add, entries, new_core, make_entry, default_size, zero_entry, Handler, Inner,
  handle,
}

pub record IsValid {Value : Type 0} (c : Core Value) : Type 0 where
  pub storage : length c.buf ≡ c.size
  pub in_range : c.pos < c.size
  pub bounded : c.count ≤ c.size
  pub filling : c.count < c.size → c.pos ≡ c.count

-- A log of at most `n` entries: one more drops the oldest when it is full.
abbrev pub append_bounded : {A : Type 0} → ℕ → List A → A → List A
append_bounded n xs x = drop (length xs + 1 - n) (xs ++ x ∷ [])

fresh-IsValid :
    {Value : Type 0} (n : ℕ)
    → 0 < n
    → IsValid
        (record { buf = replicate n (zero_entry {Value = Value}); pos = 0; size = n; count = 0 })
fresh-IsValid n h = record {
  storage = length-replicate n _;
  in_range = h;
  bounded = omega arith;
  filling = λ _. refl;
}

pub new_core-IsValid : {Value : Type 0} (n : ℕ) → IsValid (new_core {Value = Value} n)
unfolding new_core
new_core-IsValid n = elim (Bool-cases (leb n 0)) [
  | inl e ↦ rw e (fresh-IsValid default_size (omega arith))
  | inr e ↦ rw e (fresh-IsValid n (ground arith))
]

module _ {A : Type 0} where
  -- Oldest first, once the buffer has gone round.
  abbrev rotated : List A → ℕ → List A
  rotated xs p = drop p xs ++ take p xs

  -- Reading from the wrapped index is reading from one past the last.
  rotated-mod :
      (xs : List A) (p n : ℕ)
      → length xs ≡ n
      → p < n
      → rotated xs ((p + 1) % n) ≡ rotated xs (suc p)
  rotated-mod xs p n e h = elim (dec_lt (suc p) n) [
    | yes lt ↦
        let step : p + 1 ≡ suc p = omega arith in
        let wrapped : (p + 1) % n ≡ suc p = rw step (mod-eq_of_lt lt) in rw wrapped
    | no ge ↦
        let last : suc p ≡ n = omega arith in
        let round : p + 1 ≡ n = omega arith in
        let wrapped : (p + 1) % n ≡ 0 = rw round (mod_self n) in
        rw
          (
            wrapped,
            last,
            drop_of_length-le n xs (omega arith),
            take_of_length-le n xs (omega arith),
          )
          (append-nil xs)
  ]

  rotated-set :
      (xs : List A) (p n : ℕ) (x : A)
      → length xs ≡ n
      → p < n
      → rotated (set xs p x) ((p + 1) % n) ≡ drop (suc p) xs ++ (take p xs ++ x ∷ [])
  rotated-set xs p n x e h = rw (
    rotated-mod (set xs p x) p n (length-set xs p x ∙ e) h,
    drop-suc-set xs p x,
    take-suc-set xs p x (omega arith),
  )

  drop-rotated :
      (xs : List A) (p : ℕ) (x : A)
      → p < length xs
      → drop 1 (rotated xs p ++ x ∷ []) ≡ drop (suc p) xs ++ (take p xs ++ x ∷ [])
  drop-rotated xs p x h = rw (
    append_assoc (drop p xs) (take p xs) (x ∷ []),
    drop-append 1 (drop p xs) (take p xs ++ x ∷ []) (omega (arith, length-drop p xs)),
    drop-suc p xs,
  )

  length-rotated : (xs : List A) (p : ℕ) → length (rotated xs p) ≡ length xs
  length-rotated xs p =
      omega (arith, length-append {0} (drop p xs) (take p xs), length-drop p xs, length-take p xs)

module _ {Level Value : Type 0} (level_string : Level → String) (r : Record Level Value)
    (base : Map Value) (group_path : String) where
  pub add-IsValid : {c : Core Value} → IsValid c → IsValid (add level_string c r base group_path)
  unfolding add
  add-IsValid {c} v = record {
    storage = length-set c.buf c.pos _ ∙ v.storage;
    in_range = omega (arith, v.in_range);
    bounded = ground arith;
    filling = λ lt. elim (Bool-cases (ltb c.count c.size)) [
      | inl e ↦ ground (arith, v.filling (ground arith), mod-eq_of_lt {n = c.pos + 1} {m = c.size})
      | inr e ↦ ground arith
    ];
  }

  size-add : (c : Core Value) → (add level_string c r base group_path).size ≡ c.size
  unfolding add
  size-add c = refl

  -- The buffer then holds the entry as its latest, and the oldest is gone only if it was full.
  pub entries-add :
      {c : Core Value}
      → IsValid c
      → entries (add level_string c r base group_path)
        ≡ append_bounded c.size (entries c) (make_entry level_string r base group_path)
  unfolding add entries
  entries-add {c} v =
      let x = make_entry level_string r base group_path in
      ground (
        arith,
        v.filling,
        rotated-set c.buf c.pos c.size x v.storage v.in_range,
        drop-rotated c.buf c.pos x,
        length-rotated c.buf c.pos,
        length-take c.count c.buf,
        take-suc-set c.buf c.count x,
        drop_of_length-le c.size c.buf,
      )

drop-drop : {A : Type 0} (a k m : ℕ) (xs : List A) → k + a ≡ m → drop a (drop k xs) ≡ drop m xs
drop-drop a zero m xs e = ap (λ j. drop j xs) (omega arith)
drop-drop a (suc k) m [] e =
    drop_of_length-le a [] (omega arith) ∙ sym (drop_of_length-le m [] (omega arith))
drop-drop a (suc k) zero (x ∷ xs) e = absurd (omega arith)
drop-drop a (suc k) (suc m) (x ∷ xs) e = drop-drop a k m xs (omega arith)

-- A log kept by `append_bounded` holds the latest `n` of what was appended to it.
abbrev pub latest : {A : Type 0} → ℕ → List A → List A
latest n xs = drop (length xs - n) xs

append_bounded-latest :
    {A : Type 0} (n : ℕ) (xs : List A) (x : A)
    → 0 < n
    → append_bounded n (latest n xs) x ≡ latest n (xs ++ x ∷ [])
append_bounded-latest n xs x h =
    let k = length xs - n in
    let held = length-drop k xs in
    let total = length-append xs (x ∷ []) in
    rw (← drop-append k xs (x ∷ []) (omega arith))
      (drop-drop _ k (length (xs ++ x ∷ []) - n) (xs ++ x ∷ []) (omega (arith, held, total)))

-- What the handlers derived from one buffer do: each handles a record, in the order of the calls.
module _ {Inst Level Value Err : Type 0} (api : Inner Inst Level Value Err)
    (level_string : Level → String) where
  unfoldable pub log_all : Core Value → List (Handler Inst Value × Record Level Value) → Core Value
  log_all c [] = c
  log_all c ((h, r) ∷ calls) = log_all (handle api level_string c h r).0 calls

module _ {Inst Level Value Err : Type 0} (api : Inner Inst Level Value Err)
    (level_string : Level → String) where
  abbrev pub logged : List (Handler Inst Value × Record Level Value) → List (Entry Value)
  logged = map (λ call. make_entry level_string call.1 call.0.attrs call.0.group)

  entries-log_all_from :
      (n : ℕ) (c : Core Value) (es : List (Entry Value))
      (calls : List (Handler Inst Value × Record Level Value))
      → IsValid c
      → c.size ≡ n
      → entries c ≡ latest n es
      → entries (log_all api level_string c calls) ≡ latest n (es ++ logged calls)
  unfolding log_all handle
  entries-log_all_from n c es [] v z e = rw (append-nil es) e
  entries-log_all_from n c es ((h, r) ∷ calls) v z e =
      let x = make_entry level_string r h.attrs h.group in
      let step = entries-add level_string r h.attrs h.group v in
      let held : entries (add level_string c r h.attrs h.group) ≡ latest n (es ++ x ∷ []) =
        step ∙ rw (e, z) (append_bounded-latest n es x (omega arith)) in
      entries-log_all_from n (add level_string c r h.attrs h.group) (es ++ x ∷ []) calls
        (add-IsValid level_string r h.attrs h.group v)
        (size-add level_string r h.attrs h.group c ∙ z) held
      ∙ ap (latest n) (append_assoc es (x ∷ []) (logged calls))

  -- Whatever is logged to a new buffer of `n` entries, through whichever derived handlers, `Entries`
  -- returns the latest `n` of it, oldest first, with the default size for an `n` that is not positive.
  pub entries-log_all :
      (n : ℕ) (calls : List (Handler Inst Value × Record Level Value))
      → entries (log_all api level_string (new_core n) calls)
        ≡ latest (if leb n 0 then default_size else n) (logged calls)
  unfolding new_core entries
  entries-log_all n calls =
      entries-log_all_from (if leb n 0 then default_size else n) (new_core n) [] calls
        (new_core-IsValid n) refl (ground arith)
