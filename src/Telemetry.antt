-- ===== src/Telemetry.antt =====
-- src/telemetry/metrics.py: the bounded history of a run, and the incremental reading of its file. A
-- record is any value; what writes it as JSON and reads it back is a parameter.
pub mod Lines
pub mod History
pub mod Tailing
pub mod Growing
use traffic_emulator.Common.{
  ℕ, suc, ◌+◌, ◌-◌, Bool, true, false, ◌&&◌, ◌||◌, Option, none, some, List, [], ◌∷◌, ◌++◌, length,
  drop, all, ltb, leb, ◌==◌, if◌then◌else◌, Result, ok, err, value_error, or_raise, ◌>>=◌,
}
use traffic_emulator.Num.{Num, ◌⊖◌}

-- a deque with a maximal length: what is added beyond it pushes out the oldest
abbrev pub keep_last {ℓ} : {A : Type ℓ} → ℕ → List A → List A
keep_last max_length xs = drop (length xs - max_length) xs

abbrev pub extend {ℓ} : {A : Type ℓ} → ℕ → List A → List A → List A
extend max_length xs [] = xs
extend max_length xs (y ∷ ys) = extend max_length (keep_last max_length (xs ++ y ∷ [])) ys

-- `written` are the records in the file, if there is one that is open; of these `flushed` are on disk
-- for sure.
pub record TelemetryBuffer (A R : Type 0) : Type 0 where
  pub history : List A
  pub max_history : ℕ
  pub written : Option (List A)
  pub flush_interval : R
  pub records_written : ℕ
  pub last_flush : R
  pub flushed : ℕ

module _ {A R : Type 0} ⦃n : Num R⦄ where
  abbrev pub new_buffer : Bool → ℕ → R → TelemetryBuffer A R
  new_buffer has_path max_history flush_interval = record {
    history = [];
    max_history = max_history;
    written = if has_path then some [] else none;
    flush_interval = flush_interval;
    records_written = 0;
    last_flush = n.nought;
    flushed = 0;
  }

  -- the file after a record at the monotonic time `now`
  abbrev pub flush_due : R → List A → TelemetryBuffer A R → TelemetryBuffer A R
  flush_due now lines b =
      if n.le b.flush_interval (now ⊖ b.last_flush)
      then record b { last_flush = now; flushed = length lines }
      else b

  abbrev pub write_record : A → R → Option (List A) → TelemetryBuffer A R → TelemetryBuffer A R
  write_record r now none b = b
  write_record r now (some lines) b =
      let lines' = lines ++ r ∷ [] in
      flush_due now lines'
        (record b { written = some lines'; records_written = b.records_written + 1 })

  unfoldable pub record_one : A → R → TelemetryBuffer A R → TelemetryBuffer A R
  record_one r now b =
      write_record r now b.written (record b { history = extend b.max_history b.history (r ∷ []) })

  -- `close`
  abbrev pub close : TelemetryBuffer A R → TelemetryBuffer A R
  close b = record b { written = none }

  pub record_all : List (A × R) → TelemetryBuffer A R → TelemetryBuffer A R
  unfolding record_one
  record_all [] b = b
  record_all ((r, now) ∷ later) b = record_all later (record_one r now b)

-- The file of a run is its bytes.
abbrev pub newline : ℕ
newline = 10

-- a character before what is split: it begins a line, unless it is a newline
abbrev pub put_first : ℕ → List (List ℕ) → List ℕ → List (List ℕ) × List ℕ
put_first c [] rest = ([], c ∷ rest)
put_first c (line ∷ later) rest = ((c ∷ line) ∷ later, rest)

abbrev pub put_char : ℕ → List (List ℕ) × List ℕ → List (List ℕ) × List ℕ
put_char c (lines, rest) = if c == newline then ([] ∷ lines, rest) else put_first c lines rest

-- the complete lines of a chunk, and what follows the last newline
abbrev pub split_lines : List ℕ → List (List ℕ) × List ℕ
split_lines [] = ([], [])
split_lines (c ∷ cs) = put_char c (split_lines cs)

-- `splitlines` also ends a line at a carriage return. The empty part after one that ends a line is
-- blank, and blank parts are left out.
abbrev pub put_part : ℕ → List (List ℕ) → List (List ℕ)
put_part c [] = (c ∷ []) ∷ []
put_part c (part ∷ parts) = (c ∷ part) ∷ parts

abbrev pub split_returns : List ℕ → List (List ℕ)
split_returns [] = []
split_returns (c ∷ cs) =
    let parts = split_returns cs in if c == 13 then [] ∷ parts else put_part c parts

-- `f.readline()`
abbrev pub read_line : List ℕ → List ℕ
read_line [] = []
read_line (c ∷ cs) = let rest = read_line cs in if c == newline then c ∷ [] else c ∷ rest

-- `line.endswith(b"\n")`
abbrev pub ends_line : List ℕ → Bool
ends_line [] = false
ends_line (c ∷ []) = c == newline
ends_line (c ∷ d ∷ cs) = ends_line (d ∷ cs)

abbrev pub same_bytes : List ℕ → List ℕ → Bool
same_bytes [] [] = true
same_bytes (c ∷ cs) (d ∷ ds) = (c == d) && same_bytes cs ds
same_bytes _ _ = false

-- `not line.strip()`: spaces, tabs and the other ASCII blanks
abbrev pub is_blank : List ℕ → Bool
is_blank = all λ c. (c == 32) || (leb 9 c && leb c 13)

pub record JsonlTail (A : Type 0) : Type 0 where
  pub rows : List A
  pub max_rows : ℕ
  pub total_rows : ℕ
  pub offset : ℕ
  pub first_line : Option (List ℕ)

abbrev pub new_tail : {A : Type 0} → ℕ → JsonlTail A
new_tail max_rows = record {
  rows = [];
  max_rows = max_rows;
  total_rows = 0;
  offset = 0;
  first_line = none;
}

-- `parse` is `json.loads`, which raises a ValueError
module _ {A : Type 0} (parse : List ℕ → Option A) where
  -- the rows of a line, of which each part between carriage returns is one for itself
  abbrev pub parse_parts : List (List ℕ) → Result (List A)
  parse_parts [] = ok []
  parse_parts (line ∷ lines) =
      let rest = parse_parts lines in
      if is_blank line
      then rest
      else do row ← or_raise (parse line) value_error; rows ← rest; ok (row ∷ rows)

  abbrev pub parse_lines : List (List ℕ) → Result (List A)
  parse_lines [] = ok []
  parse_lines (line ∷ lines) = do
    rows ← parse_parts (split_returns line)
    rest ← parse_lines lines
    ok (rows ++ rest)

  -- `_reset`
  abbrev pub reset : JsonlTail A → JsonlTail A
  reset t = record t { rows = []; total_rows = 0; offset = 0; first_line = none }

  -- a shorter file or a different first line is a new run
  abbrev pub is_new_run : List ℕ → JsonlTail A → Bool
  is_new_run content t = ltb (length content) t.offset || elim t.first_line [
    | none ↦ false
    | some line ↦ if same_bytes (read_line content) line then false else true
  ]

  abbrev pub identify : List ℕ → JsonlTail A → JsonlTail A
  identify content t = elim t.first_line [
    | some line ↦ t
    | none ↦
        if ends_line (read_line content)
        then record t { first_line = some (read_line content) }
        else t
  ]

  -- the complete lines after the offset
  abbrev pub take_lines : List ℕ → JsonlTail A → Result (JsonlTail A)
  take_lines content t =
      let chunk = drop t.offset content in
      let (lines, rest) = split_lines chunk in
      parse_lines lines >>= λ parsed. ok (record t {
        rows = extend t.max_rows t.rows parsed;
        total_rows = t.total_rows + length parsed;
        offset = t.offset + (length chunk - length rest);
      })

  -- `_read_new`, of a file that may not exist
  unfoldable pub read_new : Option (List ℕ) → JsonlTail A → Result (JsonlTail A)
  read_new none t = ok (reset t)
  read_new (some content) t =
      take_lines content (identify content (if is_new_run content t then reset t else t))

  -- `read`: after a ValueError once more from the start, on what the file is then
  unfoldable pub read_tail : Option (List ℕ) → Option (List ℕ) → JsonlTail A → JsonlTail A
  unfolding read_new
  read_tail first second t = elim (read_new first t) [
    | ok t' ↦ t'
    | err _ ↦ elim (read_new second (reset t)) [ ok t' ↦ t' | err _ ↦ reset t ]
  ]

  -- reads of a file that grows by what is appended
  pub read_growing : List (List ℕ) → List ℕ → JsonlTail A → JsonlTail A
  unfolding read_tail
  read_growing [] content t = t
  read_growing (more ∷ later) content t =
      let content' = content ++ more in
      read_growing later content' (read_tail (some content') (some content') t)
