-- ===== src/Exposition/Labels.antt =====
-- internal/collector/mqtt_metrics_parser.go: what is read of a sample that was written by the rules of the
-- exposition format.
use machmqtt_dashboard.Prelude.{
  ℕ, zero, suc, ◌≤◌, ◌<◌, ◌≡◌, refl, List, [], ◌∷◌, ◌++◌, Bool, true, false, ◌&&◌, not, some, ◌==◌,
  if◌then◌else◌, length, length-append, Bytes, bytes_eq, trim_space, trim_left, trim_right, cut,
  is_space, All, arith,
}
use machmqtt_dashboard.Exposition.{
  quote, backslash, scan, scan_label_value, skip_separators, next_label, at_end, find_label,
}

-- The three escapes of the format.
abbrev pub escape_byte : ℕ → Bytes
escape_byte c =
    if c == b'\n'
    then backslash ∷ b'n' ∷ []
    else if c == backslash
    then backslash ∷ backslash ∷ []
    else if c == quote
    then backslash ∷ quote ∷ []
    else c ∷ []

unfoldable pub escape : Bytes → Bytes
escape [] = []
escape (c ∷ cs) = escape_byte c ++ escape cs

pub scan-escape :
    (value rest : Bytes) → scan_label_value (escape value ++ quote ∷ rest) ≡ some (value, rest)
unfolding scan escape
scan-escape [] rest = refl
scan-escape (c ∷ cs) rest = ground (arith, scan-escape cs rest)

-- A byte of a name or of a value: no white space, and none of the marks of the format.
abbrev pub is_plain : ℕ → Bool
is_plain c =
    not (is_space c)
    && (not (c == b'=')
        && (not (c == quote)
            && (not (c == b'{') && (not (c == b'}') && (not (c == b',') && not (c == backslash))))))

abbrev pub IsPlain : Bytes → Type 0
IsPlain = All (λ c. is_plain c ≡ true)

-- The labels of a sample from behind the opening brace on, with what follows the closing one.
unfoldable pub block : List (Bytes × Bytes) → Bytes → Bytes
block [] rest = b'}' ∷ rest
block ((name, value) ∷ []) rest = name ++ b'=' ∷ quote ∷ (escape value ++ quote ∷ b'}' ∷ rest)
block ((name, value) ∷ l ∷ ls) rest =
    name ++ b'=' ∷ quote ∷ (escape value ++ quote ∷ b',' ∷ block (l ∷ ls) rest)

pub cut-name :
    (b : ℕ) (name rest : Bytes)
    → is_plain b ≡ false
    → IsPlain name
    → cut b (name ++ b ∷ rest) ≡ some (name, rest)
unfolding cut
cut-name b [] rest h p = ground arith
cut-name b (c ∷ cs) rest h p = ground (arith, p.0, cut-name b cs rest h p.1)

trim_right-name : (name : Bytes) → IsPlain name → trim_right name ≡ name
unfolding trim_right
trim_right-name [] p = refl
trim_right-name (c ∷ []) p = ground (arith, p.0)
trim_right-name (c ∷ d ∷ ds) p = rw (trim_right-name (d ∷ ds) p.1, trim_right) refl

trim_space-name : (name : Bytes) → IsPlain name → trim_space name ≡ name
unfolding trim_space trim_left
trim_space-name [] p = refl
trim_space-name (c ∷ cs) p = ground (arith, p.0, trim_right-name (c ∷ cs) p)

at_end-name : (name rest : Bytes) → IsPlain name → at_end (name ++ b'=' ∷ rest) ≡ false
at_end-name [] rest p = refl
at_end-name (c ∷ cs) rest p = ground (arith, p.0)

skip_separators-name :
    (name rest : Bytes) → IsPlain name → skip_separators (name ++ b'=' ∷ rest) ≡ name ++ b'=' ∷ rest
unfolding skip_separators
skip_separators-name [] rest p = refl
skip_separators-name (c ∷ cs) rest p = ground (arith, p.0)

next_label-label :
    (name value rest : Bytes)
    → IsPlain name
    → next_label (name ++ b'=' ∷ quote ∷ (escape value ++ quote ∷ rest))
      ≡ some (name, value, skip_separators rest)
unfolding next_label
next_label-label name value rest p = ground (
  arith,
  cut-name b'=' name (quote ∷ (escape value ++ quote ∷ rest)) refl p,
  scan-escape value rest,
  trim_space-name name p,
)

-- The value of the first label of that name, empty without one.
unfoldable pub value_of : Bytes → List (Bytes × Bytes) → Bytes
value_of key [] = []
value_of key ((name, value) ∷ ls) = if bytes_eq name key then value else value_of key ls

abbrev pub PlainNames : List (Bytes × Bytes) → Type 0
PlainNames = All (λ l. IsPlain l.0)

skip_separators-block :
    (name value : Bytes) (ls : List (Bytes × Bytes)) (rest : Bytes)
    → IsPlain name
    → skip_separators (b',' ∷ block ((name, value) ∷ ls) rest) ≡ block ((name, value) ∷ ls) rest
unfolding skip_separators block
skip_separators-block name value [] rest p =
    skip_separators-name name (quote ∷ (escape value ++ quote ∷ b'}' ∷ rest)) p
skip_separators-block name value (l ∷ ls) rest p =
    skip_separators-name name (quote ∷ (escape value ++ quote ∷ b',' ∷ block (l ∷ ls) rest)) p

pub find_label-block :
    (fuel : ℕ) (key : Bytes) (ls : List (Bytes × Bytes)) (rest : Bytes)
    → length ls < fuel
    → PlainNames ls
    → find_label fuel key (block ls rest) ≡ some (value_of key ls)
unfolding find_label block value_of
find_label-block zero key ls rest h p = absurd (omega arith)
find_label-block (suc fuel) key [] rest h p = refl
find_label-block (suc fuel) key ((name, value) ∷ []) rest h p = ground (
  arith,
  at_end-name name (quote ∷ (escape value ++ quote ∷ b'}' ∷ rest)) p.0,
  next_label-label name value (b'}' ∷ rest) p.0,
  find_label-block fuel key [] rest (omega arith) tt,
)
find_label-block (suc fuel) key ((name, value) ∷ (name', value') ∷ ls) rest h p = ground (
  arith,
  at_end-name name (quote ∷ (escape value ++ quote ∷ b',' ∷ block ((name', value') ∷ ls) rest)) p.0,
  next_label-label name value (b',' ∷ block ((name', value') ∷ ls) rest) p.0,
  skip_separators-block name' value' ls rest p.1.0,
  find_label-block fuel key ((name', value') ∷ ls) rest (omega arith) p.1,
)

pub length-block : (ls : List (Bytes × Bytes)) (rest : Bytes) → length ls ≤ length (block ls rest)
unfolding block
length-block [] rest = omega arith
length-block ((name, value) ∷ []) rest =
    ground (arith, length-append {0} name (b'=' ∷ quote ∷ (escape value ++ quote ∷ b'}' ∷ rest)))
length-block ((name, value) ∷ l ∷ ls) rest = ground (
  arith,
  length-append {0} name (b'=' ∷ quote ∷ (escape value ++ quote ∷ b',' ∷ block (l ∷ ls) rest)),
  length-append {0} (escape value) (quote ∷ b',' ∷ block (l ∷ ls) rest),
  length-block (l ∷ ls) rest,
)
