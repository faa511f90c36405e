-- ===== src/Logbuf/Context.antt =====
-- The attributes of an entry: internal/logbuf/logbuf.go, `WithAttrs`, `WithGroup` and `add`.
use machmqtt_dashboard.Prelude.{
  ◌≡◌, refl, List, [], ◌∷◌, String, concat, Map, lookup, insert, lookup-insert, Option, none, some,
  arith, if◌then◌else◌, str_eq, false,
}
use machmqtt_dashboard.Logbuf.{
  Record, Handler, Inner, add_attrs, make_entry, with_attrs, with_group,
}

abbrev pub or_else : {A : Type 0} → Option A → Option A → Option A
or_else (some a) o = some a
or_else none o = o

-- The value that a list of attributes gives the qualified key `k`: the last one wins.
unfoldable pub last_of : {V : Type 0} → String → String → List (String × V) → Option V
last_of path k [] = none
last_of path k ((j, v) ∷ rest) =
    or_else (last_of path k rest) (if str_eq (concat path j) k then some v else none)

pub lookup-add_attrs :
    {V : Type 0} (path k : String) (m : Map V) (attrs : List (String × V))
    → lookup k (add_attrs path m attrs) ≡ or_else (last_of path k attrs) (lookup k m)
unfolding add_attrs last_of
lookup-add_attrs path k m [] = refl
lookup-add_attrs path k m ((j, v) ∷ rest) = ground (
  arith,
  lookup-add_attrs path k (insert (concat path j) v m) rest,
  lookup-insert (concat path j) k v m,
)

module _ {Inst Level Value Err : Type 0} (level_string : Level → String)
    (api : Inner Inst Level Value Err) where
  -- An entry logged through `h.WithGroup(name).WithAttrs(attrs)`, with a group that is not empty, has at
  -- each key the record's last attribute of that key under the group's prefix, or else the last of
  -- `attrs` under it, or else what `h` had there.
  pub lookup-make_entry :
      (h : Handler Inst Value) (name k : String) (attrs : List (String × Value))
      (r : Record Level Value)
      → str_eq name "" ≡ false
      → let derived = with_attrs api (with_group api h name) attrs in
        let path = concat (concat h.group name) "." in
        lookup k (make_entry level_string r derived.attrs derived.group).attrs
        ≡ or_else (last_of path k r.attrs) (or_else (last_of path k attrs) (lookup k h.attrs))
  unfolding make_entry with_attrs with_group
  lookup-make_entry h name k attrs r e = rw e (
      let path = concat (concat h.group name) "." in
      ground (
        arith,
        lookup-add_attrs path k (add_attrs path h.attrs attrs) r.attrs,
        lookup-add_attrs path k h.attrs attrs,
      ))
