-- ===== src/Exposition/Samples.antt =====
-- internal/collector/mqtt_metrics_parser.go: a whole sample, its name, labels and value.
use mathlib.Core.List.{append_assoc, append-nil}
use machmqtt_dashboard.Prelude.{
  ℕ, suc, ◌≡◌, refl, sym, ◌∙◌, ap, List, [], ◌∷◌, ◌++◌, true, false, Option, some, none, length,
  Bytes, fields, is_space, starts_word, All, arith,
}
use machmqtt_dashboard.Exposition.{
  quote, backslash, before_value, block_end, label_block_end, extract_label, first_field,
  parse_metric_line,
}
use machmqtt_dashboard.Exposition.Labels.{
  escape, IsPlain, block, PlainNames, value_of, cut-name, find_label-block, length-block,
}

before_value-nil : (end : Option (Bytes × Bytes)) → before_value [] end ≡ end
before_value-nil none = refl
before_value-nil (some (value, rest)) = refl

before_value-append :
    (cs ds : Bytes) (end : Option (Bytes × Bytes))
    → before_value cs (before_value ds end) ≡ before_value (cs ++ ds) end
before_value-append cs ds none = refl
before_value-append cs ds (some (value, rest)) =
    ap (λ v. some (v, rest)) (sym (append_assoc cs ds value))

block_end-name :
    (name rest : Bytes)
    → IsPlain name
    → block_end false false (name ++ rest) ≡ before_value name (block_end false false rest)
unfolding block_end
block_end-name [] rest p = sym (before_value-nil (block_end false false rest))
block_end-name (c ∷ cs) rest p = ground (
  arith,
  p.0,
  before_value-append (c ∷ []) cs (block_end false false rest),
  block_end-name cs rest p.1,
)

block_end-value :
    (value rest : Bytes)
    → block_end true false (escape value ++ quote ∷ rest)
      ≡ before_value (escape value ++ quote ∷ []) (block_end false false rest)
unfolding block_end escape
block_end-value [] rest = refl
block_end-value (c ∷ cs) rest =
    let end = block_end false false rest in
    let behind = escape cs ++ quote ∷ [] in
    ground (
      arith,
      before_value-append (c ∷ []) behind end,
      before_value-append (backslash ∷ []) (c ∷ behind) end,
      before_value-append (b'n' ∷ []) behind end,
      before_value-append (backslash ∷ []) (b'n' ∷ behind) end,
      block_end-value cs rest,
    )

-- A label as it is written.
abbrev pub label : Bytes → Bytes → Bytes
label name value = name ++ b'=' ∷ quote ∷ (escape value ++ quote ∷ [])

block_end-label :
    (name value rest : Bytes)
    → IsPlain name
    → block_end false false (name ++ b'=' ∷ quote ∷ (escape value ++ quote ∷ rest))
      ≡ before_value (label name value) (block_end false false rest)
unfolding block_end
block_end-label name value rest p =
    let end = block_end false false rest in
    let behind = escape value ++ quote ∷ [] in
    block_end-name name (b'=' ∷ quote ∷ (escape value ++ quote ∷ rest)) p
    ∙ ap (λ e. before_value name (before_value (b'=' ∷ []) (before_value (quote ∷ []) e)))
        (block_end-value value rest)
    ∙ ap (λ e. before_value name (before_value (b'=' ∷ []) e))
        (before_value-append (quote ∷ []) behind end)
    ∙ ap (before_value name) (before_value-append (b'=' ∷ []) (quote ∷ behind) end)
    ∙ before_value-append name (b'=' ∷ quote ∷ behind) end

-- The labels of a sample as they are written, between the braces.
unfoldable pub label_text : List (Bytes × Bytes) → Bytes
label_text [] = []
label_text ((name, value) ∷ []) = label name value
label_text ((name, value) ∷ l ∷ ls) = label name value ++ b',' ∷ label_text (l ∷ ls)

pub block_end-block :
    (ls : List (Bytes × Bytes)) (rest : Bytes)
    → PlainNames ls
    → label_block_end (block ls rest) ≡ some (label_text ls, rest)
unfolding block_end block label_text
block_end-block [] rest p = refl
block_end-block ((name, value) ∷ []) rest p =
    block_end-label name value (b'}' ∷ rest) p.0
    ∙ ap (λ t. some (t, rest)) (append-nil (label name value))
block_end-block ((name, value) ∷ l ∷ ls) rest p =
    block_end-label name value (b',' ∷ block (l ∷ ls) rest) p.0
    ∙ ap (λ e. before_value (label name value) (before_value (b',' ∷ []) e))
        (block_end-block (l ∷ ls) rest p.1)

-- A word: no white space in it.
abbrev pub IsWord : Bytes → Type 0
IsWord = All (λ c. is_space c ≡ false)

first_field-word :
    (c : ℕ) (word tail : Bytes)
    → IsWord (c ∷ word)
    → starts_word tail ≡ false
    → first_field (fields (c ∷ word ++ tail)) ≡ c ∷ word
unfolding fields
first_field-word c [] tail p h = ground (arith, p.0)
first_field-word c (d ∷ word) tail p h =
    ground (arith, p.0, p.1.0, first_field-word d word tail p.1 h)

first_field-skip : (word : Bytes) → first_field (fields (b' ' ∷ word)) ≡ first_field (fields word)
unfolding fields
first_field-skip word = refl

-- A sample: its name, its labels, its value, and whatever follows the value.
abbrev pub sample : Bytes → List (Bytes × Bytes) → Bytes → Bytes → Bytes
sample name ls value tail = name ++ b'{' ∷ block ls (b' ' ∷ value ++ tail)

parse_metric_line-block :
    (name block text rest : Bytes)
    → IsPlain name
    → label_block_end block ≡ some (text, rest)
    → parse_metric_line (name ++ b'{' ∷ block) ≡ (name, first_field (fields rest))
unfolding parse_metric_line
parse_metric_line-block name block text rest p h =
    ground (arith, cut-name b'{' name block refl p, h)

extract_label-sample :
    (name : Bytes) (ls : List (Bytes × Bytes)) (key rest : Bytes)
    → IsPlain name
    → PlainNames ls
    → extract_label (name ++ b'{' ∷ block ls rest) key ≡ value_of key ls
unfolding extract_label
extract_label-sample name ls key rest p q = ground (
  arith,
  cut-name b'{' name (block ls rest) refl p,
  find_label-block (suc (length (block ls rest))) key ls rest (ground (arith, length-block ls rest))
      q,
)

-- What is read of a sample is what was written into it, for plain names and any label values, also those
-- with braces, quotes, backslashes, commas and line feeds: its name, its value (a word, with or without a
-- timestamp behind it), and under each key the value of the first label of that name.
pub parse_metric_line-sample :
    (name : Bytes) (ls : List (Bytes × Bytes)) (key : Bytes) (c : ℕ) (word tail : Bytes)
    → IsPlain name
    → PlainNames ls
    → IsWord (c ∷ word)
    → starts_word tail ≡ false
    → (parse_metric_line (sample name ls (c ∷ word) tail) ≡ (name, c ∷ word))
      × (extract_label (sample name ls (c ∷ word) tail) key ≡ value_of key ls)
parse_metric_line-sample name ls key c word tail p q w h = (
  parse_metric_line-block name (block ls (b' ' ∷ c ∷ word ++ tail)) (label_text ls)
        (b' ' ∷ c ∷ word ++ tail) p (block_end-block ls (b' ' ∷ c ∷ word ++ tail) q)
      ∙ ap (λ v. (name, v))
          (first_field-skip (c ∷ word ++ tail) ∙ first_field-word c word tail w h),
  extract_label-sample name ls key (b' ' ∷ c ∷ word ++ tail) p q,
)
