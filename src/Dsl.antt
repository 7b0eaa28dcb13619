-- ===== src/Dsl.antt =====
-- tilepo/dsl/parser.py: the blocks of a `.tmem` plan. `ast.literal_eval`, `str.lower` and `repr` are
-- parameters of the functions that use them.
pub mod Blocks
use Prim.Native.Char.{Char, code}
use tile_mem.Common.{
  leb, ◌==◌, str_eq, if◌then◌else◌, any, keep, dsl_error, Result, err, ok, ◌>>=◌, ◌>>◌, check_each,
  ℕ, ◌+◌, String, Bool, true, false, not, ◌&&◌, ◌||◌, Option, none, some, List, [], ◌∷◌, ◌++◌,
}
use tile_mem.Values.{Value, null, bool, dict, Fields, end, field}

abbrev pub required_blocks : List String
required_blocks =
    "model" ∷ "workload" ∷ "tile" ∷ "memory" ∷ "precision" ∷ "schedule" ∷ "autotune" ∷ "runtime"
    ∷ []

pub record DslBlock (F : Type 0) : Type 0 where
  pub kind : String
  pub name : String
  pub values : Fields F
  pub line : ℕ

-- `DSLPlan.required_block`
unfoldable pub required_block : {F : Type 0} → String → List (DslBlock F) → Result (DslBlock F)
unfolding keep
required_block kind blocks = elim (keep (λ b. str_eq b.kind kind) blocks) [
  | [] ↦ err (dsl_error "missing required block")
  | block ∷ others ↦ elim others [ [] ↦ ok block | _ ∷ _ ↦ err (dsl_error "duplicate block kind") ]
]

-- `_strip_comment`: a `#` outside a string ends the line. The two flags are `in_string` and `escaped`.
unfoldable pub strip_from : Bool → Bool → String → String
strip_from in_string escaped String.[] = String.[]
strip_from in_string escaped (String.◌∷◌ c s) =
    let backslash = String.◌∷◌ c (strip_from in_string (not escaped) s) in
    let quote = String.◌∷◌ c (strip_from (not in_string) false s) in
    let other = String.◌∷◌ c (strip_from in_string false s) in
    if code c == 92 && in_string
    then backslash
    else if code c == 34 && not escaped
    then quote
    else if code c == 35 && not in_string
    then String.[]
    else other

unfoldable pub strip_comment : String → String
unfolding strip_from
strip_comment line = strip_from false false line

-- `[A-Za-z_]` and `[A-Za-z0-9_]`
abbrev name_start : Char → Bool
name_start c =
    (leb 65 (code c) && leb (code c) 90) || (leb 97 (code c) && leb (code c) 122) || code c == 95

abbrev name_part : Char → Bool
name_part c = name_start c || (leb 48 (code c) && leb (code c) 57)

-- The longest run of characters that pass, and what follows it.
unfoldable pub span : (Char → Bool) → String → String × String
span p String.[] = (String.[], String.[])
span p (String.◌∷◌ c s) =
    let (run, rest) = span p s in
    if p c then (String.◌∷◌ c run, rest) else (String.[], String.◌∷◌ c s)

-- `[A-Za-z_][A-Za-z0-9_]*` at the head of a text
unfoldable pub read_name : String → Option (String × String)
unfolding span
read_name String.[] = none
read_name (String.◌∷◌ c s) =
    let (run, rest) = span name_part s in
    if name_start c then some (String.◌∷◌ c run, rest) else none

-- `\s`: the ASCII blanks
abbrev blank : Char → Bool
blank c =
    code c == 32 || (leb 9 (code c) && leb (code c) 13) || (leb 28 (code c) && leb (code c) 31)

abbrev skip_blanks : String → String
unfolding span
skip_blanks s = (span blank s).1

-- `\s*\{\s*$` once the name before it is read
abbrev opens_block : String → Bool
unfolding skip_blanks
opens_block s = elim (skip_blanks s) [
  | String.[] ↦ false
  | String.◌∷◌ c rest ↦ code c == 123 && str_eq (skip_blanks rest) ""
]

-- `_HEADER_RE`: two names with a blank between them, and an opening brace.
unfoldable pub read_header : String → Option (String × String)
unfolding read_name span
read_header s = elim (read_name s) [
  | none ↦ none
  | some (kind, after) ↦
      if str_eq (span blank after).0 "" then none else elim (read_name (skip_blanks after)) [
        | none ↦ none
        | some (name, rest) ↦ if opens_block rest then some (kind, name) else none
      ]
]

-- `line.split("=", 1)`
unfoldable pub split_equals : String → Option (String × String)
split_equals String.[] = none
split_equals (String.◌∷◌ c s) =
    let later = split_equals s in
    if code c == 61
    then some (String.[], s)
    else elim later [ none ↦ none | some (key, value) ↦ some (String.◌∷◌ c key, value) ]

-- The key pattern, over the whole text
abbrev is_key : String → Bool
unfolding read_name
is_key s = elim (read_name s) [ none ↦ false | some (name, rest) ↦ str_eq rest "" ]

-- `text.strip()`
unfoldable pub strip_end : String → String
strip_end String.[] = String.[]
strip_end (String.◌∷◌ c s) =
    let rest = strip_end s in if str_eq rest "" && blank c then String.[] else String.◌∷◌ c rest

unfoldable pub strip : String → String
unfolding strip_end span
strip s = strip_end (skip_blanks s)

-- The variables of the loop of `parse_tmem`: the blocks so far, and the open block.
pub record ParseState (F : Type 0) : Type 0 where
  pub blocks : List (DslBlock F)
  pub current : Option (DslBlock F)

module _ {F : Type 0} where
  -- `values[key] = value`
  unfoldable pub set_field : String → Value F → Fields F → Fields F
  set_field k v end = field k v end
  set_field k v (field j w fs) =
      let rest = set_field k v fs in if str_eq j k then field k v fs else field j w rest

  module _ (lower : String → String) (literal_eval : String → Option (Value F)) where
    -- `_parse_value`; a tuple is a list already.
    unfoldable pub parse_value : String → Result (Value F)
    parse_value text =
        if str_eq text ""
        then err (dsl_error "missing value")
        else if str_eq (lower text) "true"
        then ok (bool true)
        else if str_eq (lower text) "false"
        then ok (bool false)
        else elim (literal_eval text) [
          | none ↦ err (dsl_error "invalid value")
          | some null ↦ err (dsl_error "unsupported value type")
          | some (dict fs) ↦ err (dsl_error "unsupported value type")
          | some v ↦ ok v
        ]

    open_block : ℕ → String → ParseState F → Result (ParseState F)
    unfolding read_header any
    open_block lineno line s = elim (read_header line) [
      | none ↦ err (dsl_error "expected '<block> <name> {'")
      | some (kind, name) ↦
          if any (str_eq kind) required_blocks
          then ok (record s {
            current = some (record { kind = kind; name = name; values = end; line = lineno });
          })
          else err (dsl_error "unknown block kind")
    ]

    in_block : String → DslBlock F → ParseState F → Result (ParseState F)
    unfolding split_equals strip parse_value set_field
    in_block line block s =
        if str_eq line "}"
        then ok (record { blocks = s.blocks ++ (block ∷ []); current = none })
        else elim (split_equals line) [
          | none ↦ err (dsl_error "expected key = value")
          | some (key, text) ↦
              if is_key (strip key)
              then parse_value (strip text) >>= (λ v. ok (record s {
                current = some (record block { values = set_field (strip key) v block.values });
              }))
              else err (dsl_error "invalid key")
        ]

    -- One line.
    unfoldable pub parse_line : ℕ → String → ParseState F → Result (ParseState F)
    unfolding strip strip_comment open_block in_block
    parse_line lineno raw s =
        let line = strip (strip_comment raw) in
        if str_eq line ""
        then ok s
        else elim s.current [ none ↦ open_block lineno line s | some block ↦ in_block line block s ]

    unfoldable pub parse_lines : ℕ → List String → ParseState F → Result (ParseState F)
    unfolding parse_line
    parse_lines lineno [] s = ok s
    parse_lines lineno (raw ∷ raws) s =
        parse_line lineno raw s >>= (λ s'. parse_lines (lineno + 1) raws s')

    -- `parse_tmem`, over the lines of the text
    unfoldable pub parse_tmem : List String → Result (List (DslBlock F))
    unfolding parse_lines check_each required_block
    parse_tmem lines = parse_lines 1 lines (record { blocks = []; current = none }) >>= (λ s.
        elim s.current [
          | some block ↦ err (dsl_error "unterminated block")
          | none ↦
              check_each (λ kind. required_block kind s.blocks >>= (λ block. ok tt)) required_blocks
              >> ok s.blocks
        ])
