-- ===== src/LogBuffer/Tests.antt =====
-- A buffer of at most 8 bytes with lines of at most 4, and the theorems at it.
use sync_bridge.Base.{ℕ, ◌≡◌, ◌≤◌, refl, false, List, [], ◌∷◌, some, length, arith, ◌++◌}
use sync_bridge.LogBuffer.{
  LogLimits, LogBuffer, new_log_buffer, trim_before, append_at, buffer_bytes, concat_lines,
}
use sync_bridge.LogBuffer.Bounds.{
  IsBounded, new_log_buffer-IsBounded, append_at-IsBounded, buffer_bytes-length,
}
use sync_bridge.LogBuffer.Retention.{Drops, trim_before-Drops}
use sync_bridge.LogBuffer.Lines.{lines, entries_of, IsLatest, append_at-lines, append_at-keeps}

abbrev small : LogLimits
small = record { max_bytes = 8; max_line_bytes = 4; max_runs = 2; max_age = 100 }

abbrev start : LogBuffer
start = new_log_buffer small

-- "abcdef\r\ngh\n\ri"
abbrev text : List ℕ
text = 97 ∷ 98 ∷ 99 ∷ 100 ∷ 101 ∷ 102 ∷ 13 ∷ 10 ∷ 103 ∷ 104 ∷ 10 ∷ 13 ∷ 105 ∷ []

abbrev held : LogBuffer
held = record {
  limits = small;
  entries =
      record { at = 1; line = 97 ∷ 10 ∷ [] }
      ∷ record { at = 2; line = 98 ∷ 99 ∷ 10 ∷ [] }
      ∷ record { at = 9; line = 100 ∷ 10 ∷ [] }
      ∷ [];
  bytes = 7;
}

append_at-IsBounded_example : (b : LogBuffer) × (append_at 5 text start ≡ some b) × IsBounded b
append_at-IsBounded_example = append_at-IsBounded 5 text start (new_log_buffer-IsBounded small)

append_at-lines_example :
    (b : LogBuffer) × (append_at 5 text start ≡ some b)
    × IsLatest ([] ++ entries_of start.limits 5 (lines false text)) b.entries
unfolding new_log_buffer
append_at-lines_example = append_at-lines 5 text start

append_at-keeps_example :
    (b : LogBuffer) × (append_at 5 (97 ∷ 10 ∷ 98 ∷ []) start ≡ some b)
    × (b.entries ≡ [] ++ entries_of start.limits 5 (lines false (97 ∷ 10 ∷ 98 ∷ [])))
unfolding new_log_buffer entries_of lines concat_lines
append_at-keeps_example = append_at-keeps 5 (97 ∷ 10 ∷ 98 ∷ []) start refl (omega arith)

trim_before-Drops_example : Drops 8 2 held.entries (trim_before 2 held).entries
trim_before-Drops_example = trim_before-Drops 2 held refl

buffer_bytes-length_example : (length (buffer_bytes held) ≡ 7) × (length (buffer_bytes held) ≤ 8)
buffer_bytes-length_example = buffer_bytes-length held (record {
  exact = refl;
  within = omega arith;
  short = (omega arith, (omega arith, (omega arith, tt)));
})

cut_text :
    lines false text
    ≡ (97 ∷ 98 ∷ 99 ∷ 100 ∷ 101 ∷ 102 ∷ []) ∷ (103 ∷ 104 ∷ []) ∷ [] ∷ (105 ∷ []) ∷ []
unfolding lines
cut_text = refl
