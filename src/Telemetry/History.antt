-- ===== src/Telemetry/History.antt =====
-- The history of a buffer is the end of all that was recorded.
use traffic_emulator.Common.{
  ℕ, ◌+◌, ◌-◌, ◌≤◌, ◌≡◌, ◌≢◌, refl, sym, ap, subst, ◌∙◌, Bool, true, false, Option, none, some,
  List, [], ◌∷◌, ◌++◌, length, length-append, drop, map, arith, if◌then◌else◌, inl, inr, Bool-cases,
  append_assoc, append-nil, length-drop, drop-append, drop-drop, drop-nil,
}
use traffic_emulator.Num.{Num, ◌⊖◌}
use traffic_emulator.Telemetry.{
  keep_last, extend, TelemetryBuffer, new_buffer, flush_due, write_record, record_one, record_all,
}

module _ {ℓ} {A : Type ℓ} where
  keep_last-keep_last :
      (m : ℕ) (xs ys : List A) → keep_last m (keep_last m xs ++ ys) ≡ keep_last m (xs ++ ys)
  keep_last-keep_last m xs ys =
      let k = length xs - m in
      let joined = drop-append k xs ys (omega arith) in
      ap (keep_last m) (sym joined)
      ∙ drop-drop (length (drop k (xs ++ ys)) - m) k (xs ++ ys)
      ∙ ap (λ i. drop i (xs ++ ys)) (omega (arith, length-drop k (xs ++ ys), length-append xs ys))

  pub extend-keep_last :
      (m : ℕ) (xs ys : List A) → extend m (keep_last m xs) ys ≡ keep_last m (xs ++ ys)
  extend-keep_last m xs [] = ap (keep_last m) (sym (append-nil xs))
  extend-keep_last m xs (y ∷ ys) =
      ap (λ zs. extend m zs ys) (keep_last-keep_last m xs (y ∷ []))
      ∙ extend-keep_last m (xs ++ y ∷ []) ys
      ∙ ap (keep_last m) (append_assoc xs (y ∷ []) ys)

  pub length-keep_last : (m : ℕ) (xs : List A) → length (keep_last m xs) ≤ m
  length-keep_last m xs = omega (arith, length-drop (length xs - m) xs)

some-ne-none : {X : Type 0} (x : X) → some x ≢ none
some-ne-none x h = cc

some_injective : {X : Type 0} {x y : X} → some x ≡ some y → x ≡ y
some_injective h = cc

none_counted : (path : Bool) (k : ℕ) → k ≡ (if path then k else k)
none_counted true k = refl
none_counted false k = refl

module _ {A R : Type 0} ⦃n : Num R⦄ where
  -- What a buffer holds after all of `recorded`: their end, and if there is a file all of them, of
  -- which no more are on disk than were written.
  pub record IsBuffer (max_history : ℕ) (has_path : Bool) (recorded : List A)
      (b : TelemetryBuffer A R) : Type 0 where
    pub bound_kept : b.max_history ≡ max_history
    pub history_is_end : b.history ≡ keep_last max_history recorded
    pub history_bounded : length b.history ≤ max_history
    pub file_complete : b.written ≡ (if has_path then some recorded else none)
    pub all_counted : b.records_written ≡ (if has_path then length recorded else 0)
    pub flushed_written : b.flushed ≤ length recorded

  flush_due-IsBuffer :
      (max_history : ℕ) (recorded : List A) (now : R) (b : TelemetryBuffer A R)
      → IsBuffer max_history true recorded b
      → IsBuffer max_history true recorded (flush_due now recorded b)
  flush_due-IsBuffer max_history recorded now b g =
      elim (Bool-cases (n.le b.flush_interval (now ⊖ b.last_flush))) [
        | inl due ↦ rw due (record {
          bound_kept = g.bound_kept;
          history_is_end = g.history_is_end;
          history_bounded = g.history_bounded;
          file_complete = g.file_complete;
          all_counted = g.all_counted;
          flushed_written = omega arith;
        })
        | inr early ↦ rw early g
      ]

  record_one-IsBuffer :
      (max_history : ℕ) (has_path : Bool) (recorded : List A) (r : A) (now : R)
      (o : Option (List A)) (b : TelemetryBuffer A R)
      → b.written ≡ o
      → IsBuffer max_history has_path recorded b
      → IsBuffer max_history has_path
          (recorded ++ r ∷ [])
          (write_record r now o (record b { history = extend b.max_history b.history (r ∷ []) }))
  record_one-IsBuffer max_history false recorded r now none b e g =
      let longer =
        ap (λ h. extend b.max_history h (r ∷ [])) g.history_is_end
        ∙ ap (λ m. extend m (keep_last max_history recorded) (r ∷ [])) g.bound_kept
        ∙ extend-keep_last max_history recorded (r ∷ []) in
      record {
        bound_kept = g.bound_kept;
        history_is_end = longer;
        history_bounded =
            omega (arith, ap length longer, length-keep_last max_history (recorded ++ r ∷ []));
        file_complete = e;
        all_counted = g.all_counted;
        flushed_written = omega (arith, g.flushed_written, length-append recorded (r ∷ []));
      }
  record_one-IsBuffer max_history false recorded r now (some lines) b e g =
      absurd (some-ne-none lines (sym e ∙ g.file_complete))
  record_one-IsBuffer max_history true recorded r now none b e g =
      absurd (some-ne-none recorded (sym g.file_complete ∙ e))
  record_one-IsBuffer max_history true recorded r now (some lines) b e g =
      let longer =
        ap (λ h. extend b.max_history h (r ∷ [])) g.history_is_end
        ∙ ap (λ m. extend m (keep_last max_history recorded) (r ∷ [])) g.bound_kept
        ∙ extend-keep_last max_history recorded (r ∷ []) in
      let same : lines ≡ recorded = some_injective (sym e ∙ g.file_complete) in
      subst
        (λ ls. IsBuffer max_history true (recorded ++ r ∷ []) (
          write_record r now (some ls)
            (record b { history = extend b.max_history b.history (r ∷ []) })))
        (sym same)
        (flush_due-IsBuffer max_history (recorded ++ r ∷ []) now
          (record b {
            history = extend b.max_history b.history (r ∷ []);
            written = some (recorded ++ r ∷ []);
            records_written = b.records_written + 1;
          })
          (record {
            bound_kept = g.bound_kept;
            history_is_end = longer;
            history_bounded =
                omega (arith, ap length longer, length-keep_last max_history (recorded ++ r ∷ []));
            file_complete = refl;
            all_counted = omega (arith, g.all_counted, length-append recorded (r ∷ []));
            flushed_written = omega (arith, g.flushed_written, length-append recorded (r ∷ []));
          }))

  record_all-later :
      (max_history : ℕ) (has_path : Bool) (recorded : List A) (records : List (A × R))
      (b : TelemetryBuffer A R)
      → IsBuffer max_history has_path recorded b
      → IsBuffer max_history has_path (recorded ++ map (λ r. r.0) records) (record_all records b)
  unfolding record_all record_one
  record_all-later max_history has_path recorded [] b g =
      subst (λ xs. IsBuffer max_history has_path xs b) (sym (append-nil recorded)) g
  record_all-later max_history has_path recorded ((r, now) ∷ later) b g =
      subst (λ xs. IsBuffer max_history has_path xs (record_all later (record_one r now b)))
        (append_assoc recorded (r ∷ []) (map (λ r'. r'.0) later))
        (record_all-later max_history has_path (recorded ++ r ∷ []) later (record_one r now b)
          (record_one-IsBuffer max_history has_path recorded r now b.written b refl g))

  -- A new buffer with a bound on its history, after any records at any times: its history is the last
  -- records up to the bound, in their order; with a path, the file holds all records in their order, each
  -- is counted once, and what is flushed is at most what was written. Without a path nothing is written.
  pub record_all-IsBuffer :
      (max_history : ℕ) (has_path : Bool) (flush_interval : R) (records : List (A × R))
      → IsBuffer max_history has_path
          (map (λ r. r.0) records)
          (record_all records (new_buffer has_path max_history flush_interval))
  record_all-IsBuffer max_history has_path flush_interval records =
      record_all-later max_history has_path [] records
        (new_buffer has_path max_history flush_interval)
        (record {
          bound_kept = refl;
          history_is_end = sym (drop-nil (0 - max_history));
          history_bounded = omega arith;
          file_complete = refl;
          all_counted = none_counted has_path 0;
          flushed_written = omega arith;
        })
