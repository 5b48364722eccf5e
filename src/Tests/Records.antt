-- ===== src/Tests/Records.antt =====
-- A buffer that keeps two of three records, and a tail of a file that grows within a line.
use traffic_emulator.Common.{ℕ, Option, some, [], ◌∷◌, List, ◌≡◌, refl, true, length, map}
use traffic_emulator.Num.Integers.{ℤ, pos, integers}
use traffic_emulator.Telemetry.{keep_last, new_tail, new_buffer, record_all, read_growing, newline}
use traffic_emulator.Telemetry.History.{IsBuffer, record_all-IsBuffer}
use traffic_emulator.Telemetry.Tailing.{read_growing-whole}

abbrev recorded : List (ℕ × ℤ)
recorded = (5, pos 1) ∷ (6, pos 2) ∷ (7, pos 9) ∷ []

record_all-IsBuffer_example :
    IsBuffer 2 true (map (λ r. r.0) recorded) (record_all recorded (new_buffer true 2 (pos 3)))
record_all-IsBuffer_example = record_all-IsBuffer 2 true (pos 3) recorded

-- a record is the first byte of its line
abbrev first_byte : List ℕ → Option ℕ
first_byte [] = some 0
first_byte (c ∷ line) = some c

abbrev pieces : List (List ℕ)
pieces = (49 ∷ 50 ∷ []) ∷ (51 ∷ newline ∷ newline ∷ 52 ∷ []) ∷ (newline ∷ 53 ∷ []) ∷ []

abbrev rows_read : List ℕ
rows_read = 49 ∷ 52 ∷ []

read_growing-whole_example :
    ((read_growing first_byte pieces [] (new_tail 1)).rows ≡ keep_last 1 rows_read)
    × ((read_growing first_byte pieces [] (new_tail 1)).total_rows ≡ length rows_read)
read_growing-whole_example = read_growing-whole first_byte 1 pieces refl
