-- ===== src/Telemetry/Tailing.antt =====
-- Reading a growing file piece by piece gives what reading all of it at once gives.
use traffic_emulator.Common.{
  ℕ, ◌+◌, ◌-◌, ◌≡◌, refl, sym, ap, subst, ◌∙◌, Bool, true, false, Option, none, some, List, [], ◌∷◌,
  ◌++◌, length, length-append, drop, arith, if◌then◌else◌, append_assoc, append-nil, Result, ok,
  err,
}
use traffic_emulator.Telemetry.{
  keep_last, extend, split_lines, read_line, ends_line, JsonlTail, new_tail, parse_lines, reset,
  is_new_run, identify, take_lines, read_new, read_tail, read_growing,
}
use traffic_emulator.Telemetry.Lines.{split_lines-append, split_lines-Parts}
use traffic_emulator.Telemetry.History.{extend-keep_last}
use traffic_emulator.Telemetry.Growing.{
  read_line-append, drop-length, joined, none-ne-some, some_injective, ok_injective,
  parse_lines-append, IsTail, new_tail-IsTail, same_run,
}

module _ {A : Type 0} (parse : List ℕ → Option A) where
  -- What the first line of a file says of a tail.
  record IsIdentified (content : List ℕ) (t t' : JsonlTail A) : Type 0 where
    same_rows : t'.rows ≡ t.rows
    same_bound : t'.max_rows ≡ t.max_rows
    same_total : t'.total_rows ≡ t.total_rows
    same_offset : t'.offset ≡ t.offset
    known :
        (line : List ℕ)
        → t'.first_line ≡ some line
        → (line ≡ read_line content) × (ends_line line ≡ true)

  identify-IsIdentified :
      (max_rows : ℕ) (content more : List ℕ) (t : JsonlTail A)
      → IsTail parse max_rows content t
      → IsIdentified (content ++ more) t (identify parse (content ++ more) t)
  identify-IsIdentified max_rows content more t g = by_line t.first_line refl
    where
      whole : List ℕ
      whole = content ++ more

      fresh :
          (b : Bool)
          → ends_line (read_line whole) ≡ b
          → t.first_line ≡ none
          → IsIdentified whole t (if b then record t { first_line = some (read_line whole) } else t)
      fresh true ends h = record {
        same_rows = refl;
        same_bound = refl;
        same_total = refl;
        same_offset = refl;
        known = λ line k. (sym (some_injective k), ap ends_line (sym (some_injective k)) ∙ ends);
      }
      fresh false open_line h = record {
        same_rows = refl;
        same_bound = refl;
        same_total = refl;
        same_offset = refl;
        known = λ line k. absurd (none-ne-some line (sym h ∙ k));
      }

      by_line :
          (o : Option (List ℕ))
          → t.first_line ≡ o
          → IsIdentified whole t (elim o [
            | some line ↦ t
            | none ↦
                if ends_line (read_line whole)
                then record t { first_line = some (read_line whole) }
                else t
          ])
      by_line none h = fresh (ends_line (read_line whole)) refl h
      by_line (some line) h = record {
        same_rows = refl;
        same_bound = refl;
        same_total = refl;
        same_offset = refl;
        known = λ l k.
            let (same, ends) = g.run_known l k in
            (same ∙ sym (read_line-append content more (ap ends_line (sym same) ∙ ends)), ends);
      }

  taken :
      (whole chunk : List ℕ) (t : JsonlTail A) {after : List A}
      → drop t.offset whole ≡ chunk
      → parse_lines parse (split_lines chunk).0 ≡ ok after
      → take_lines parse whole t
        ≡ ok (record t {
          rows = extend t.max_rows t.rows after;
          total_rows = t.total_rows + length after;
          offset = t.offset + (length chunk - length (split_lines chunk).1);
        })
  taken whole chunk t here parsed = rw here (rw parsed refl)

  read_is :
      (whole : List ℕ) (t : JsonlTail A) {t' : JsonlTail A}
      → is_new_run parse whole t ≡ false
      → take_lines parse whole (identify parse whole t) ≡ ok t'
      → read_tail parse (some whole) (some whole) t ≡ t'
  unfolding read_tail read_new
  read_is whole t {t'} same done = ap attempt (
      ap (λ b. take_lines parse whole (identify parse whole (if b then reset parse t else t))) same
      ∙ done)
    where
      attempt : Result (JsonlTail A) → JsonlTail A
      attempt r = elim r [
        | ok t'' ↦ t''
        | err _ ↦ elim (read_new parse (some whole) (reset parse t)) [
          | ok t'' ↦ t''
          | err _ ↦ reset parse t
        ]
      ]

  -- the rows after a read: the end of those found before and those found now
  rows_after :
      (max_rows : ℕ) (whole : List ℕ) {content : List ℕ} (t t' : JsonlTail A)
      (before after : List A)
      → IsIdentified whole t t'
      → (g : IsTail parse max_rows content t) → parse_lines parse g.lines ≡ ok before
      → extend t'.max_rows t'.rows after ≡ keep_last max_rows (before ++ after)
  rows_after max_rows whole t t' before after same g first =
      ap (λ rs. extend t'.max_rows rs after)
        (same.same_rows
          ∙ g.rows_are_end
          ∙ ap (keep_last max_rows) (ok_injective (sym g.lines_parsed ∙ first)))
      ∙ ap (λ m. extend m (keep_last max_rows before) after) (same.same_bound ∙ g.bound_kept)
      ∙ extend-keep_last max_rows before after

  -- One read after the file has grown, if its complete lines parse.
  read-IsTail :
      (max_rows : ℕ) (content more : List ℕ) (t : JsonlTail A) {rows : List A}
      → IsTail parse max_rows content t
      → parse_lines parse (split_lines (content ++ more)).0 ≡ ok rows
      → IsTail parse max_rows
          (content ++ more)
          (read_tail parse (some (content ++ more)) (some (content ++ more)) t)
  unfolding read_tail read_new
  read-IsTail max_rows content more t g h =
      let whole = content ++ more in
      let t' = identify parse whole t in
      let same = identify-IsIdentified max_rows content more t g in
      let chunk = g.rest ++ more in
      let parts : whole ≡ g.done ++ chunk =
        ap (λ cs. cs ++ more) g.content_parts ∙ append_assoc g.done g.rest more in
      let here : drop t'.offset whole ≡ chunk =
        ap (λ cs. drop t'.offset cs) parts
        ∙ ap (λ i. drop i (g.done ++ chunk)) (same.same_offset ∙ g.offset_after)
        ∙ drop-length g.done chunk in
      let (part, chunk_parts, part_complete) = split_lines-Parts chunk in
      let split_whole : split_lines whole
          ≡ (g.lines ++ (split_lines chunk).0, (split_lines chunk).1) =
        ap split_lines parts ∙ split_lines-append g.lines g.done chunk g.done_complete in
      let (before, after, first, second, joint) =
        parse_lines-append parse g.lines (split_lines chunk).0
          (ap (λ (r : List (List ℕ) × List ℕ). parse_lines parse r.0) (sym split_whole) ∙ h) in
      let found : List A = before ++ after in
      subst (IsTail parse max_rows whole)
        (sym (
          read_is whole t (same_run parse max_rows content more t g)
            (taken whole chunk t' here second)))
        (record {
          done = g.done ++ part;
          rest = (split_lines chunk).1;
          lines = g.lines ++ (split_lines chunk).0;
          found = found;
          content_parts =
              parts
              ∙ ap (λ cs. g.done ++ cs) chunk_parts
              ∙ sym (append_assoc g.done part (split_lines chunk).1);
          done_complete =
              split_lines-append g.lines g.done part g.done_complete
              ∙ ap (λ (r : List (List ℕ) × List ℕ). (g.lines ++ r.0, r.1)) part_complete;
          all_lines = split_whole;
          lines_parsed =
              ap (λ (r : List (List ℕ) × List ℕ). parse_lines parse r.0) (sym split_whole)
              ∙ h
              ∙ ap ok joint;
          bound_kept = same.same_bound ∙ g.bound_kept;
          rows_are_end = rows_after max_rows whole t t' before after same g first;
          rows_counted = omega (
            arith,
            same.same_total,
            g.rows_counted,
            ap length (ok_injective (sym g.lines_parsed ∙ first)),
            length-append before after,
          );
          offset_after = omega (
            arith,
            same.same_offset,
            g.offset_after,
            length-append g.done part,
            ap length chunk_parts,
            length-append part (split_lines chunk).1,
          );
          run_known = same.known;
        })

  -- Reads after each growth of the file, of which every complete line parses in the end: all of them
  -- are known.
  read_growing-IsTail :
      (max_rows : ℕ) (later : List (List ℕ)) (content : List ℕ) (t : JsonlTail A) {rows : List A}
      → IsTail parse max_rows content t
      → parse_lines parse (split_lines (content ++ joined later)).0 ≡ ok rows
      → IsTail parse max_rows (content ++ joined later) (read_growing parse later content t)
  unfolding read_growing
  read_growing-IsTail max_rows [] content t g h =
      subst (λ cs. IsTail parse max_rows cs t) (sym (append-nil content)) g
  read_growing-IsTail max_rows (more ∷ later) content t g h =
      let regrouped = append_assoc content more (joined later) in
      let (lines, cut) = prefix (content ++ more) (joined later) in
      let (before, after, first, second, joint) =
        parse_lines-append parse (split_lines (content ++ more)).0 lines (
          ap (parse_lines parse) (sym cut)
          ∙ ap (λ cs. parse_lines parse (split_lines cs).0) regrouped
          ∙ h) in
      subst
        (λ cs. IsTail parse max_rows cs (
          read_growing parse later (content ++ more)
            (read_tail parse (some (content ++ more)) (some (content ++ more)) t)))
        regrouped
        (read_growing-IsTail max_rows later (content ++ more)
          (read_tail parse (some (content ++ more)) (some (content ++ more)) t)
          (read-IsTail max_rows content more t g first)
          (ap (λ cs. parse_lines parse (split_lines cs).0) regrouped ∙ h))
    where
      prefix :
          (cs ds : List ℕ)
          → (lines : List (List ℕ)) × ((split_lines (cs ++ ds)).0 ≡ (split_lines cs).0 ++ lines)
      prefix cs ds =
          let (part, parts, complete) = split_lines-Parts cs in
          (
            (split_lines ((split_lines cs).1 ++ ds)).0,
            ap (λ xs. (split_lines xs).0)
                  (ap (λ xs. xs ++ ds) parts ∙ append_assoc part (split_lines cs).1 ds)
                ∙ ap (λ (r : List (List ℕ) × List ℕ). r.0)
                    (split_lines-append (split_lines cs).0 part ((split_lines cs).1 ++ ds)
                      complete),
          )

  -- A file that grows by any pieces, cut anywhere, and is read after each of them by one tail: if its
  -- complete lines all parse, the rows of the tail are the last ones, up to its bound, of the rows that
  -- reading the whole file at once gives, and as many are counted.
  pub read_growing-whole :
      (max_rows : ℕ) (pieces : List (List ℕ)) {rows : List A}
      → parse_lines parse (split_lines (joined pieces)).0 ≡ ok rows
      → let t = read_growing parse pieces [] (new_tail max_rows) in
        (t.rows ≡ keep_last max_rows rows) × (t.total_rows ≡ length rows)
  read_growing-whole max_rows pieces h =
      let known =
        read_growing-IsTail max_rows pieces [] (new_tail max_rows) (new_tail-IsTail parse max_rows)
          h in
      let found = ok_injective (
        sym known.lines_parsed
        ∙ ap (λ (r : List (List ℕ) × List ℕ). parse_lines parse r.0) (sym known.all_lines)
        ∙ h) in
      (known.rows_are_end ∙ ap (keep_last max_rows) found, known.rows_counted ∙ ap length found)
