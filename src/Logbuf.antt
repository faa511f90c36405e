-- ===== src/Logbuf.antt =====
-- internal/logbuf/logbuf.go: a ring buffer of log entries shared by derived slog handlers.
-- A `Core` is the shared buffer; a `Handler` is what `WithAttrs` and `WithGroup` derive. Attribute
-- values (`any`), levels and the inner handler are types of the surrounding program, so they are
-- parameters. A nil attribute map is the empty one: reads do not tell them apart.
pub mod Refine
pub mod Context
mod Tests
use machmqtt_dashboard.Prelude.{
  ℕ, ◌+◌, ◌%◌, List, [], ◌∷◌, ◌++◌, Bool, String, concat, Map, insert, length, set, take, drop,
  replicate, ltb, leb, if◌then◌else◌, str_eq,
}

abbrev pub default_size : ℕ
default_size = 500

-- `slog.Record`: what the logger hands over.
pub record Record (Level Value : Type 0) : Type 0 where
  pub time : ℕ
  pub level : Level
  pub message : String
  pub attrs : List (String × Value)

pub record Entry (Value : Type 0) : Type 0 where
  pub time : ℕ
  pub level : String
  pub message : String
  pub attrs : Map Value

abbrev pub zero_entry : {Value : Type 0} → Entry Value
zero_entry = record { time = 0; level = ""; message = ""; attrs = [] }

-- `core`, under its mutex: each method is one step.
pub record Core (Value : Type 0) : Type 0 where
  pub buf : List (Entry Value)
  pub pos : ℕ
  pub size : ℕ
  pub count : ℕ

-- The loop of `add` over a record's attributes: each key takes the group's prefix.
unfoldable pub add_attrs : {Value : Type 0} → String → Map Value → List (String × Value) → Map Value
add_attrs path m [] = m
add_attrs path m ((k, v) ∷ rest) = add_attrs path (insert (concat path k) v m) rest

module _ {Level Value : Type 0} (level_string : Level → String) where
  unfoldable pub make_entry : Record Level Value → Map Value → String → Entry Value
  make_entry r base group_path = record {
    time = r.time;
    level = level_string r.level;
    message = r.message;
    attrs = add_attrs group_path base r.attrs;
  }

  unfoldable pub add : Core Value → Record Level Value → Map Value → String → Core Value
  add c r base group_path = record c {
    buf = set c.buf c.pos (make_entry r base group_path);
    pos = (c.pos + 1) % c.size;
    count = if ltb c.count c.size then c.count + 1 else c.count;
  }

-- Oldest first.
unfoldable pub entries : {Value : Type 0} → Core Value → List (Entry Value)
entries c = if ltb c.count c.size then take c.count c.buf else drop c.pos c.buf ++ take c.pos c.buf

-- `New`: a size that is not positive takes the default.
unfoldable pub new_core : {Value : Type 0} → ℕ → Core Value
new_core size =
    let n = if leb size 0 then default_size else size in
    record { buf = replicate n zero_entry; pos = 0; size = n; count = 0 }

-- The inner `slog.Handler`.
pub record Inner (Inst Level Value Err : Type 0) : Type 0 where
  pub enabled : Inst → Level → Bool
  pub handle : Inst → Record Level Value → Err
  pub with_attrs : Inst → List (String × Value) → Inst
  pub with_group : Inst → String → Inst

pub record Handler (Inst Value : Type 0) : Type 0 where
  pub inner : Inst
  pub attrs : Map Value
  pub group : String

module _ {Inst Level Value Err : Type 0} (api : Inner Inst Level Value Err) where
  unfoldable pub new : Inst → Handler Inst Value
  new inner = record { inner = inner; attrs = []; group = "" }

  unfoldable pub enabled : Handler Inst Value → Level → Bool
  enabled h level = api.enabled h.inner level

  -- The shared core is the state; what the inner handler returns is the result.
  unfoldable pub handle :
      (Level → String) → Core Value → Handler Inst Value → Record Level Value → Core Value × Err
  handle level_string c h r = (add level_string c r h.attrs h.group, api.handle h.inner r)

  unfoldable pub with_attrs : Handler Inst Value → List (String × Value) → Handler Inst Value
  with_attrs h attrs = record {
    inner = api.with_attrs h.inner attrs;
    attrs = add_attrs h.group h.attrs attrs;
    group = h.group;
  }

  unfoldable pub with_group : Handler Inst Value → String → Handler Inst Value
  with_group h name = if str_eq name "" then h else record {
    inner = api.with_group h.inner name;
    attrs = h.attrs;
    group = concat (concat h.group name) ".";
  }
