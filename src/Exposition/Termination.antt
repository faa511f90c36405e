-- ===== src/Exposition/Termination.antt =====
-- internal/collector/mqtt_metrics_parser.go: the loop over the labels of a line comes to its end.
use machmqtt_dashboard.Prelude.{
  ℕ, zero, suc, ◌≤◌, ◌<◌, ◌≡◌, inl, inr, [], ◌∷◌, Bool, true, false, some, ◌==◌, length, Bytes,
  bytes_eq, cut, is_some, arith, Bool-cases, Option-cases,
}
use machmqtt_dashboard.Exposition.{
  quote, backslash, scan, skip_separators, quoted_value, next_label, find_label,
}

length-cut :
    (b : ℕ) (line before after : Bytes)
    → cut b line ≡ some (before, after)
    → length after < length line
unfolding cut
length-cut b [] before after h = ground arith
length-cut b (c ∷ cs) before after h = elim (Option-cases (cut b cs)) [
  | inl e ↦ ground arith
  | inr (p, e) ↦ ground (arith, length-cut b cs p.0 p.1 e)
]

length-scan :
    (escaped : Bool) (line value rest : Bytes)
    → scan escaped line ≡ some (value, rest)
    → length rest < length line
unfolding scan
length-scan true [] value rest h = ground arith
length-scan false [] value rest h = ground arith
length-scan true (c ∷ cs) value rest h = elim (Option-cases (scan false cs)) [
  | inl e ↦ ground arith
  | inr (p, e) ↦ ground (arith, length-scan false cs p.0 p.1 e)
]
length-scan false (c ∷ cs) value rest h = elim (Option-cases (scan (c == backslash) cs)) [
  | inl e ↦ ground arith
  | inr (p, e) ↦ ground (arith, length-scan (c == backslash) cs p.0 p.1 e)
]

length-skip_separators : (line : Bytes) → length (skip_separators line) ≤ length line
unfolding skip_separators
length-skip_separators [] = omega arith
length-skip_separators (c ∷ cs) = ground (arith, length-skip_separators cs)

length-quoted_value :
    (line value rest : Bytes) → quoted_value line ≡ some (value, rest) → length rest < length line
length-quoted_value [] value rest h = ground arith
length-quoted_value (c ∷ cs) value rest h = elim (Bool-cases (c == quote)) [
  | inl e ↦ ground (arith, length-scan false cs value rest)
  | inr e ↦ ground arith
]

length-next_label :
    (line name value rest : Bytes)
    → next_label line ≡ some (name, value, rest)
    → length rest < length line
unfolding next_label
length-next_label line name value rest h = elim (Option-cases (cut b'=' line)) [
  | inl e ↦ ground arith
  | inr (p, e) ↦ elim (Option-cases (quoted_value p.1)) [
    | inl f ↦ ground arith
    | inr (q, f) ↦ ground (
      arith,
      length-cut b'=' line p.0 p.1 e,
      length-quoted_value p.1 q.0 q.1 f,
      length-skip_separators q.1,
    )
  ]
]

-- The loop over the labels of any line, well-formed or not, comes to an end: fuel above the line's length
-- gives an answer, since every round takes at least one byte.
pub find_label-is_some :
    (fuel : ℕ) (key line : Bytes) → length line < fuel → is_some (find_label fuel key line) ≡ true
unfolding find_label
find_label-is_some zero key line h = absurd (omega arith)
find_label-is_some (suc fuel) key line h = elim (Option-cases (next_label line)) [
  | inl e ↦ ground arith
  | inr (p, e) ↦ elim (Bool-cases (bytes_eq p.0 key)) [
    | inl f ↦ ground arith
    | inr f ↦ ground (arith, length-next_label line p.0 p.1 p.2 e, find_label-is_some fuel key p.2)
  ]
]
