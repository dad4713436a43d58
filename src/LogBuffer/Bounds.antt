-- ===== src/LogBuffer/Bounds.antt =====
-- The accounting of log_buffer.go: the byte count is exact and stays within the limits.
use sync_bridge.Base.{
  ℕ, zero, suc, ◌+◌, ◌-◌, ◌≤◌, ◌≡◌, refl, List, [], ◌∷◌, ◌++◌, some, length, take, ltb, arith,
  length-append, length-take, All, All-append, Bool-cases, inl, inr,
}
use sync_bridge.LogBuffer.{
  LogLimits, LogEntry, LogBuffer, lf, evicts, evict, trim_before, stored_line, append_line,
  append_loop, append_at, skip_terminator, index_any, concat_lines, buffer_bytes, new_log_buffer,
}

-- The bytes that the entries hold.
abbrev pub total : List LogEntry → ℕ
total [] = 0
total (e ∷ es) = length e.line + total es

total-append : (xs ys : List LogEntry) → total (xs ++ ys) ≡ total xs + total ys
total-append [] ys = omega arith
total-append (x ∷ xs) ys = omega (arith, total-append xs ys)

-- No stored line is longer than the limit and its newline.
abbrev pub IsShort : LogLimits → LogEntry → Type 0
IsShort limits e = length e.line ≤ limits.max_line_bytes + 1

pub record IsBounded (b : LogBuffer) : Type 0 where
  pub exact : b.bytes ≡ total b.entries
  pub within : b.bytes ≤ b.limits.max_bytes
  pub short : All (IsShort b.limits) b.entries

pub new_log_buffer-IsBounded : (limits : LogLimits) → IsBounded (new_log_buffer limits)
unfolding new_log_buffer
new_log_buffer-IsBounded limits = record { exact = refl; within = ground arith; short = tt }

pub evict_exact :
    (m c : ℕ) (es : List LogEntry) (n : ℕ)
    → n ≡ total es
    → (evict m c es n).1 ≡ total (evict m c es n).0
unfolding evict
evict_exact m c [] n h = h
evict_exact m c (e ∷ es) n h = ground (arith, evict_exact m c es (n - length e.line))

pub evict_within : (m c : ℕ) (es : List LogEntry) (n : ℕ) → n ≡ total es → (evict m c es n).1 ≤ m
unfolding evict evicts
evict_within m c [] n h = omega arith
evict_within m c (e ∷ es) n h = ground (arith, evict_within m c es (n - length e.line))

pub evict-All {κ} :
    (P : LogEntry → Type κ) (m c : ℕ) (es : List LogEntry) (n : ℕ)
    → All P es
    → All P (evict m c es n).0
unfolding evict
evict-All P m c [] n h = h
evict-All P m c (e ∷ es) n h = elim (Bool-cases (evicts m c n e)) [
  | inl q ↦ rw q (evict-All P m c es (n - length e.line) h.1)
  | inr q ↦ rw q h
]

pub trim_before-IsBounded : (c : ℕ) (b : LogBuffer) → IsBounded b → IsBounded (trim_before c b)
unfolding trim_before
trim_before-IsBounded c b v = record {
  exact = evict_exact b.limits.max_bytes c b.entries b.bytes v.exact;
  within = evict_within b.limits.max_bytes c b.entries b.bytes v.exact;
  short = evict-All (IsShort b.limits) b.limits.max_bytes c b.entries b.bytes v.short;
}

stored_line_short :
    (limits : LogLimits) (line : List ℕ)
    → length (stored_line limits line) ≤ limits.max_line_bytes + 1
unfolding stored_line
stored_line_short limits line = elim (Bool-cases (ltb limits.max_line_bytes (length line))) [
  | inl q ↦ rw q (
      omega (
        arith,
        length-append (take limits.max_line_bytes line) (lf ∷ []),
        length-take limits.max_line_bytes line,
      ))
  | inr q ↦ rw q (ground (arith, length-append line (lf ∷ [])))
]

pub append_line-IsBounded :
    (at : ℕ) (line : List ℕ) (b : LogBuffer) → IsBounded b → IsBounded (append_line at line b)
unfolding append_line
append_line-IsBounded at line b v =
    elim (Bool-cases (ltb b.limits.max_bytes (length (stored_line b.limits line)))) [
      | inl q ↦ rw q v
      | inr q ↦ rw q (record {
        exact = evict_exact b.limits.max_bytes 0 grown _ counted;
        within = evict_within b.limits.max_bytes 0 grown _ counted;
        short = evict-All (IsShort b.limits) b.limits.max_bytes 0 grown _ (
            All-append (IsShort b.limits) b.entries (entry ∷ []) v.short
              (stored_line_short b.limits line, tt));
      })
    ]
  where
    entry : LogEntry
    entry = record { at = at; line = stored_line b.limits line }

    grown : List LogEntry
    grown = b.entries ++ (entry ∷ [])

    counted : b.bytes + length (stored_line b.limits line) ≡ total grown
    counted = omega (arith, v.exact, total-append b.entries (entry ∷ []))

skip_terminator_shrinks : (d : List ℕ) → length (skip_terminator d) ≤ length d - 1
unfolding skip_terminator
skip_terminator_shrinks [] = omega arith
skip_terminator_shrinks (c ∷ []) = omega arith
skip_terminator_shrinks (c ∷ d ∷ r) = ground arith

index_any-length-le : (d : List ℕ) → length (index_any d).1 ≤ length d
unfolding index_any
index_any-length-le [] = omega arith
index_any-length-le (c ∷ r) = ground (arith, index_any-length-le r)

pub round_shrinks : (c : ℕ) (r : List ℕ) → length (skip_terminator (index_any (c ∷ r)).1) ≤ length r
round_shrinks c r =
    omega (arith, skip_terminator_shrinks (index_any (c ∷ r)).1, index_any-length-le (c ∷ r))

append_loop_total :
    (fuel at : ℕ) (d : List ℕ) (b : LogBuffer)
    → length d ≤ fuel
    → IsBounded b
    → (b' : LogBuffer) × (append_loop fuel at d b ≡ some b') × IsBounded b'
unfolding append_loop
append_loop_total fuel at [] b h v = (b, refl, v)
append_loop_total zero at (c ∷ r) b h v = absurd (omega arith)
append_loop_total (suc fuel) at (c ∷ r) b h v =
    append_loop_total fuel at (skip_terminator (index_any (c ∷ r)).1)
      (append_line at (index_any (c ∷ r)).0 b) (omega (arith, round_shrinks c r))
      (append_line-IsBounded at (index_any (c ∷ r)).0 b v)

-- Appending any data to a bounded buffer ends, within a round for each byte, in a buffer whose byte
-- count is exact and within `MaxBytes`, and of whose lines none is longer than `MaxLineBytes` and a
-- newline.
pub append_at-IsBounded :
    (at : ℕ) (d : List ℕ) (b : LogBuffer)
    → IsBounded b
    → (b' : LogBuffer) × (append_at at d b ≡ some b') × IsBounded b'
unfolding append_at
append_at-IsBounded at d b v = append_loop_total (length d) at d b (omega arith) v

length-concat_lines : (es : List LogEntry) → length (concat_lines es) ≡ total es
unfolding concat_lines
length-concat_lines [] = refl
length-concat_lines (e ∷ es) =
    omega (arith, length-append e.line (concat_lines es), length-concat_lines es)

-- What `Bytes` returns of a bounded buffer has the counted length, at most `MaxBytes`.
pub buffer_bytes-length :
    (b : LogBuffer)
    → IsBounded b
    → (length (buffer_bytes b) ≡ b.bytes) × (length (buffer_bytes b) ≤ b.limits.max_bytes)
unfolding buffer_bytes
buffer_bytes-length b v = omega (arith, length-concat_lines b.entries, v.exact, v.within)
