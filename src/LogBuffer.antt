-- ===== src/LogBuffer.antt =====
-- cmd/syncbridge/log_buffer.go: the bounded buffer of a run's log. Bytes are numbers, `data[:n]` is
-- `take n`. A time is the nanoseconds since Go's zero time, so that `IsZero` is a test for 0.
-- Negative limits, which the code treats as it treats 0, are 0 here.
pub mod Bounds
pub mod Retention
pub mod Lines
mod Tests
use sync_bridge.Base.{
  ℕ, zero, suc, ◌+◌, ◌-◌, ◌*◌, Bool, true, false, not, ◌&&◌, ◌||◌, Option, none, some, List, [],
  ◌∷◌, ◌++◌, length, take, ltb, ◌==◌, if◌then◌else◌, nat_keyed,
}

pub record LogLimits : Type 0 where
  pub max_bytes : ℕ
  pub max_line_bytes : ℕ
  pub max_runs : ℕ
  pub max_age : ℕ

pub record LogEntry : Type 0 where
  pub at : ℕ
  pub line : List ℕ

pub record LogBuffer : Type 0 where
  pub limits : LogLimits
  pub entries : List LogEntry
  pub bytes : ℕ

abbrev pub lf : ℕ
lf = 10

abbrev pub cr : ℕ
cr = 13

abbrev pub max_execution_log_line_bytes : ℕ
max_execution_log_line_bytes = 64 * 1024

unfoldable pub new_log_buffer : LogLimits → LogBuffer
new_log_buffer limits = record {
  limits = record limits {
    max_bytes = if limits.max_bytes == 0 then 1048576 else limits.max_bytes;
    max_line_bytes =
        if limits.max_line_bytes == 0 then max_execution_log_line_bytes else limits.max_line_bytes;
  };
  entries = [];
  bytes = 0;
}

-- The test of the eviction loop on the oldest entry.
unfoldable pub evicts : ℕ → ℕ → ℕ → LogEntry → Bool
evicts max_bytes cutoff bytes e = (not (cutoff == 0) && ltb e.at cutoff) || ltb max_bytes bytes

-- The loop of `trimLocked`, over its variables `b.entries` and `b.bytes`.
unfoldable pub evict : ℕ → ℕ → List LogEntry → ℕ → List LogEntry × ℕ
evict max_bytes cutoff [] bytes = ([], bytes)
evict max_bytes cutoff (e ∷ es) bytes =
    let rest = evict max_bytes cutoff es (bytes - length e.line) in
    if evicts max_bytes cutoff bytes e then rest else (e ∷ es, bytes)

unfoldable pub trim_locked : ℕ → LogBuffer → LogBuffer
trim_locked cutoff b =
    let (entries, bytes) = evict b.limits.max_bytes cutoff b.entries b.bytes in
    record b { entries = entries; bytes = bytes }

-- `TrimBefore`; the lock is the atomicity of the step.
unfoldable pub trim_before : ℕ → LogBuffer → LogBuffer
unfolding trim_locked
trim_before cutoff b = trim_locked cutoff b

-- The line as it is stored: cut to the limit, then newline-terminated.
unfoldable pub stored_line : LogLimits → List ℕ → List ℕ
stored_line limits line =
    (if ltb limits.max_line_bytes (length line) then take limits.max_line_bytes line else line)
    ++ (lf ∷ [])

unfoldable pub append_line : ℕ → List ℕ → LogBuffer → LogBuffer
unfolding stored_line trim_locked
append_line at line b =
    let stored = stored_line b.limits line in
    if ltb b.limits.max_bytes (length stored)
    then b
    else trim_locked 0 (record b {
      entries = b.entries ++ (record { at = at; line = stored } ∷ []);
      bytes = b.bytes + length stored;
    })

-- `bytes.IndexAny(data, "\r\n")`: what stands before the first terminator, and from it on.
unfoldable pub index_any : List ℕ → List ℕ × List ℕ
index_any [] = ([], [])
index_any (c ∷ data') =
    let (before, after) = index_any data' in
    if (c == cr) || (c == lf) then ([], c ∷ data') else (c ∷ before, after)

-- The rest of the data behind the terminator, of which "\r\n" is one.
unfoldable pub skip_terminator : List ℕ → List ℕ
skip_terminator [] = []
skip_terminator (c ∷ []) = []
skip_terminator (c ∷ d ∷ data') = if (c == cr) && (d == lf) then data' else d ∷ data'

-- The loop of `AppendAt`, on fuel; `none` means that the fuel ran out.
unfoldable pub append_loop : ℕ → ℕ → List ℕ → LogBuffer → Option LogBuffer
append_loop fuel at [] b = some b
append_loop zero at (c ∷ data') b = none
append_loop (suc fuel) at (c ∷ data') b =
    let (line, rest) = index_any (c ∷ data') in
    append_loop fuel at (skip_terminator rest) (append_line at line b)

-- `AppendAt`, with a round for each byte of the data.
unfoldable pub append_at : ℕ → List ℕ → LogBuffer → Option LogBuffer
append_at at data' b = append_loop (length data') at data' b

-- `Bytes`
unfoldable pub concat_lines : List LogEntry → List ℕ
concat_lines [] = []
concat_lines (e ∷ es) = e.line ++ concat_lines es

unfoldable pub buffer_bytes : LogBuffer → List ℕ
unfolding concat_lines
buffer_bytes b = concat_lines b.entries
