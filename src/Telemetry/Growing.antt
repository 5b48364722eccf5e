-- ===== src/Telemetry/Growing.antt =====
-- What a tail that has read a growing file knows of it.
use traffic_emulator.Common.{
  append_assoc, ℕ, ◌-◌, ◌≡◌, ◌≢◌, refl, sym, ap, ◌∙◌, true, false, Option, none, some, List, [],
  ◌∷◌, ◌++◌, length, length-append, drop, arith, ltb, if◌then◌else◌, ◌==◌, ==_iff, inl, inr,
  Bool-cases, drop-nil, ok, >>=-eq-ok,
}
use traffic_emulator.Telemetry.{
  keep_last, newline, split_lines, read_line, ends_line, same_bytes, JsonlTail, new_tail,
  parse_lines, parse_parts, split_returns, is_new_run,
}
use traffic_emulator.Telemetry.Lines.{Complete}

-- The first line stays what it is when the file grows.
pub read_line-append :
    (cs ds : List ℕ) → ends_line (read_line cs) ≡ true → read_line (cs ++ ds) ≡ read_line cs
read_line-append [] ds h = absurd (false-ne-true h)
  where
    false-ne-true : false ≢ true
    false-ne-true k = cc
read_line-append (c ∷ cs) ds h = elim (Bool-cases (c == newline)) [
  | inl ends ↦ rw ends refl
  | inr begins ↦
      rw begins (ap (c ∷◌) (read_line-append cs ds (later (read_line cs) begins (rw begins at h))))
]
  where
    later :
        (line : List ℕ)
        → (c == newline) ≡ false
        → ends_line (c ∷ line) ≡ true
        → ends_line line ≡ true
    later [] begins k = sym begins ∙ k
    later (d ∷ line) begins k = k

pub same_bytes_refl : (cs : List ℕ) → same_bytes cs cs ≡ true
same_bytes_refl [] = refl
same_bytes_refl (c ∷ cs) = rw ((==_iff c c).1 refl) (same_bytes_refl cs)

pub drop-length : (cs ds : List ℕ) → drop (length cs) (cs ++ ds) ≡ ds
drop-length [] ds = refl
drop-length (c ∷ cs) ds = drop-length cs ds

-- the bytes that are appended, one after the other
abbrev pub joined : List (List ℕ) → List ℕ
joined [] = []
joined (more ∷ later) = more ++ joined later

pub none-ne-some : {X : Type 0} (x : X) → none ≢ some x
none-ne-some x h = cc

pub some_injective : {X : Type 0} {x y : X} → some x ≡ some y → x ≡ y
some_injective h = cc

pub ok_injective : {X : Type 0} {x y : X} → ok x ≡ ok y → x ≡ y
ok_injective h = cc

module _ {A : Type 0} (parse : List ℕ → Option A) where
  -- Of lines that all parse, each part parses.
  pub parse_lines-append :
      (xs ys : List (List ℕ)) {rows : List A}
      → parse_lines parse (xs ++ ys) ≡ ok rows
      → (before : List A) × (after : List A) × (parse_lines parse xs ≡ ok before)
        × (parse_lines parse ys ≡ ok after)
        × (rows ≡ before ++ after)
  parse_lines-append [] ys {rows} h = ([], rows, refl, h, refl)
  parse_lines-append (x ∷ xs) ys h =
      let (found, parsed, rest) = >>=-eq-ok (parse_parts parse (split_returns x)) _ h in
      let (more, others, whole) = >>=-eq-ok (parse_lines parse (xs ++ ys)) _ rest in
      let (before, after, first, second, same) = parse_lines-append xs ys others in
      rw (parsed, first)
        (
          found ++ before,
          after,
          refl,
          second,
          sym (ok_injective whole)
              ∙ ap (λ rs. found ++ rs) same
              ∙ sym (append_assoc found before after),
        )

  -- What a tail knows of a file: all of its complete lines.
  pub record IsTail (max_rows : ℕ) (content : List ℕ) (t : JsonlTail A) : Type 0 where
    pub done : List ℕ
    pub rest : List ℕ
    pub lines : List (List ℕ)
    pub found : List A
    pub content_parts : content ≡ done ++ rest
    pub done_complete : Complete lines done
    pub all_lines : split_lines content ≡ (lines, rest)
    pub lines_parsed : parse_lines parse lines ≡ ok found
    pub bound_kept : t.max_rows ≡ max_rows
    pub rows_are_end : t.rows ≡ keep_last max_rows found
    pub rows_counted : t.total_rows ≡ length found
    pub offset_after : t.offset ≡ length done
    pub run_known :
        (line : List ℕ)
        → t.first_line ≡ some line
        → (line ≡ read_line content) × (ends_line line ≡ true)

  pub new_tail-IsTail : (max_rows : ℕ) → IsTail max_rows [] (new_tail max_rows)
  new_tail-IsTail max_rows = record {
    done = [];
    rest = [];
    lines = [];
    found = [];
    content_parts = refl;
    done_complete = refl;
    all_lines = refl;
    lines_parsed = refl;
    bound_kept = refl;
    rows_are_end = sym (drop-nil (0 - max_rows));
    rows_counted = refl;
    offset_after = refl;
    run_known = λ line h. absurd (none-ne-some line h);
  }

  -- A file that has grown is the same run.
  pub same_run :
      (max_rows : ℕ) (content more : List ℕ) (t : JsonlTail A)
      → IsTail max_rows content t
      → is_new_run parse (content ++ more) t ≡ false
  same_run max_rows content more t g =
      let long : ltb (length (content ++ more)) t.offset ≡ false = ground (
        arith,
        g.offset_after,
        ap length g.content_parts,
        length-append g.done g.rest,
        length-append content more,
      ) in
      rw long (known t.first_line refl)
    where
      known :
          (o : Option (List ℕ))
          → t.first_line ≡ o
          → elim o [
            | none ↦ false
            | some line ↦ if same_bytes (read_line (content ++ more)) line then false else true
          ]
            ≡ false
      known none h = refl
      known (some line) h =
          let (same, ends) = g.run_known line h in
          let grown = read_line-append content more (ap ends_line (sym same) ∙ ends) ∙ sym same in
          rw (ap (λ l. same_bytes l line) grown ∙ same_bytes_refl line) refl
