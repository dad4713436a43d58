-- ===== src/LogBuffer/Lines.antt =====
-- How `AppendAt` of log_buffer.go cuts its data into lines, against a scan byte by byte.
use mathlib.Core.List.{append-nil, append_assoc}
use sync_bridge.Base.{
  length-append, take, take_all, ltb, ltb→ge, ◌++◌, ◌+◌, ◌-◌, ap, sym, ◌∙◌, Bool-cases, inl, inr, ℕ,
  zero, suc, ◌≤◌, ◌≡◌, refl, Bool, false, List, [], ◌∷◌, some, length, arith, ◌==◌, if◌then◌else◌,
  nat_keyed, subst,
}
use sync_bridge.LogBuffer.{
  concat_lines, LogEntry, LogLimits, evict, evicts, stored_line, trim_locked, LogBuffer, lf, cr,
  append_line, append_loop, append_at, skip_terminator, index_any,
}
use sync_bridge.LogBuffer.Bounds.{round_shrinks}

-- Adds a byte to the front of the first line.
extend_first : ℕ → List (List ℕ) → List (List ℕ)
extend_first c [] = (c ∷ []) ∷ []
extend_first c (l ∷ ls) = (c ∷ l) ∷ ls

-- The lines of a text whose terminators are LF, CR and CR LF; the flag says that a CR went before,
-- so that an LF belongs to it. A last line without a terminator counts, an empty one does not.
unfoldable pub lines : Bool → List ℕ → List (List ℕ)
unfolding extend_first
lines after_cr [] = []
lines after_cr (c ∷ r) =
    let rest = lines (c == cr) r in
    if c == lf
    then (if after_cr then rest else [] ∷ rest)
    else (if c == cr then [] ∷ rest else extend_first c rest)

pub append_lines : ℕ → List (List ℕ) → LogBuffer → LogBuffer
append_lines at [] b = b
append_lines at (l ∷ ls) b = append_lines at ls (append_line at l b)

lines-cons :
    (c : ℕ) (r : List ℕ)
    → lines false (c ∷ r)
      ≡ (index_any (c ∷ r)).0 ∷ lines false (skip_terminator (index_any (c ∷ r)).1)
unfolding lines index_any skip_terminator
lines-cons c [] = ground arith
lines-cons c (d ∷ r) = ground (arith, lines-cons d r)

append_loop-lines :
    (fuel at : ℕ) (d : List ℕ) (b : LogBuffer)
    → length d ≤ fuel
    → append_loop fuel at d b ≡ some (append_lines at (lines false d) b)
unfolding append_loop append_lines
append_loop-lines fuel at [] b h = unfold lines in refl
append_loop-lines zero at (c ∷ r) b h = absurd (omega arith)
append_loop-lines (suc fuel) at (c ∷ r) b h = rw (lines-cons c r) (
    append_loop-lines fuel at (skip_terminator (index_any (c ∷ r)).1)
      (append_line at (index_any (c ∷ r)).0 b) (omega (arith, round_shrinks c r)))

-- What a line is as an entry: its first bytes, up to the limit of a line, and a line feed. A line whose
-- entry alone is longer than the buffer may be is none.
unfoldable pub entries_of : LogLimits → ℕ → List (List ℕ) → List LogEntry
entries_of limits at [] = []
entries_of limits at (l ∷ ls) =
    let rest = entries_of limits at ls in
    let cut = take limits.max_line_bytes l ++ (lf ∷ []) in
    if ltb limits.max_bytes (length cut) then rest else record { at = at; line = cut } ∷ rest

-- The oldest entries of a list are gone, and the others are left.
abbrev pub IsLatest : List LogEntry → List LogEntry → Type 0
IsLatest all left = (gone : List LogEntry) × (all ≡ gone ++ left)

evict-IsLatest :
    (max_bytes cutoff : ℕ) (es : List LogEntry) (bytes : ℕ)
    → IsLatest es (evict max_bytes cutoff es bytes).0
unfolding evict
evict-IsLatest max_bytes cutoff [] bytes = ([], refl)
evict-IsLatest max_bytes cutoff (e ∷ es) bytes =
    let (gone, split) = evict-IsLatest max_bytes cutoff es (bytes - length e.line) in
    elim (Bool-cases (evicts max_bytes cutoff bytes e)) [
      | inl b ↦ rw b (e ∷ gone, ap (λ xs. e ∷ xs) split)
      | inr b ↦ rw b ([], refl)
    ]

stored_line-take :
    (limits : LogLimits) (line : List ℕ)
    → stored_line limits line ≡ take limits.max_line_bytes line ++ (lf ∷ [])
unfolding stored_line
stored_line-take limits line = elim (Bool-cases (ltb limits.max_line_bytes (length line))) [
  | inl b ↦ rw b refl
  | inr b ↦
      rw (b, take_all limits.max_line_bytes line (ltb→ge limits.max_line_bytes (length line) b))
        refl
]

append_line-limits :
    (at : ℕ) (line : List ℕ) (b : LogBuffer) → (append_line at line b).limits ≡ b.limits
unfolding append_line trim_locked
append_line-limits at line b = ground arith

-- One line, before those that follow.
append_line-IsLatest :
    (at : ℕ) (l : List ℕ) (ls : List (List ℕ)) (b : LogBuffer)
    → IsLatest
        (b.entries ++ entries_of b.limits at (l ∷ ls))
        ((append_line at l b).entries ++ entries_of b.limits at ls)
unfolding append_line trim_locked entries_of
append_line-IsLatest at l ls b =
    let rest = entries_of b.limits at ls in
    let cut = take b.limits.max_line_bytes l ++ (lf ∷ []) in
    let e : LogEntry = record { at = at; line = cut } in
    rw (stored_line-take b.limits l) (elim (Bool-cases (ltb b.limits.max_bytes (length cut))) [
      | inl q ↦ rw q ([], refl)
      | inr q ↦
          let (gone, split) =
            evict-IsLatest b.limits.max_bytes 0 (b.entries ++ (e ∷ [])) (b.bytes + length cut) in
          rw q (
            gone,
            sym (append_assoc b.entries (e ∷ []) rest)
                ∙ ap (λ xs. xs ++ rest) split
                ∙ append_assoc gone _ rest,
          )
    ])

append_lines-IsLatest :
    (at : ℕ) (ls : List (List ℕ)) (b : LogBuffer)
    → IsLatest (b.entries ++ entries_of b.limits at ls) (append_lines at ls b).entries
unfolding append_lines
append_lines-IsLatest at [] b = ([], unfold entries_of in append-nil b.entries)
append_lines-IsLatest at (l ∷ ls) b =
    let (gone, split) = append_line-IsLatest at l ls b in
    let (more, follows) = append_lines-IsLatest at ls (append_line at l b) in
    (
      gone ++ more,
      split
          ∙ ap (λ (x : LogLimits). gone ++ ((append_line at l b).entries ++ entries_of x at ls))
              (sym (append_line-limits at l b))
          ∙ ap (λ xs. gone ++ xs) follows
          ∙ sym (append_assoc gone more _),
    )

-- `AppendAt` ends, and leaves the latest ones of the entries that were there and, behind them, the entries of the
-- lines of the data: LF, CR and CR LF each end one line, and a rest without a terminator is a line too.
-- An entry is the line cut to its limit, with an LF; a line whose entry exceeds the buffer has none.
pub append_at-lines :
    (at : ℕ) (d : List ℕ) (b : LogBuffer)
    → (b' : LogBuffer) × (append_at at d b ≡ some b')
      × IsLatest (b.entries ++ entries_of b.limits at (lines false d)) b'.entries
unfolding append_at
append_at-lines at d b = (
  append_lines at (lines false d) b,
  append_loop-lines (length d) at d b (omega arith),
  append_lines-IsLatest at (lines false d) b,
)

concat_lines-append :
    (es fs : List LogEntry)
    → length (concat_lines (es ++ fs)) ≡ length (concat_lines es) + length (concat_lines fs)
unfolding concat_lines
concat_lines-append [] fs = omega arith
concat_lines-append (e ∷ es) fs = omega (
  arith,
  length-append e.line (concat_lines (es ++ fs)),
  length-append e.line (concat_lines es),
  concat_lines-append es fs,
)

evict_fitting :
    (max_bytes : ℕ) (es : List LogEntry) (bytes : ℕ)
    → bytes ≤ max_bytes
    → evict max_bytes 0 es bytes ≡ (es, bytes)
unfolding evict evicts
evict_fitting max_bytes [] bytes h = refl
evict_fitting max_bytes (e ∷ es) bytes h =
    let fits : ltb max_bytes bytes ≡ false = ground arith in rw fits refl

-- What a buffer holds where all that is to come fits, too.
abbrev Fits : List LogEntry → LogBuffer → Type 0
Fits new b =
    (b.bytes ≡ length (concat_lines b.entries))
    × (b.bytes + length (concat_lines new) ≤ b.limits.max_bytes)

append_line-Fits :
    (at : ℕ) (l : List ℕ) (ls : List (List ℕ)) (b : LogBuffer)
    → Fits (entries_of b.limits at (l ∷ ls)) b
    → Fits (entries_of b.limits at ls) (append_line at l b)
      × ((append_line at l b).entries ++ entries_of b.limits at ls
          ≡ b.entries ++ entries_of b.limits at (l ∷ ls))
unfolding append_line trim_locked entries_of concat_lines
append_line-Fits at l ls b fits =
    let rest = entries_of b.limits at ls in
    let cut = take b.limits.max_line_bytes l ++ (lf ∷ []) in
    let e : LogEntry = record { at = at; line = cut } in
    elim (Bool-cases (ltb b.limits.max_bytes (length cut))) [
      | inl q ↦ rw (stored_line-take b.limits l, q) ((rw q at fits), refl)
      | inr q ↦
          let room : (b.bytes ≡ length (concat_lines b.entries))
              × (b.bytes + length (cut ++ concat_lines rest) ≤ b.limits.max_bytes) =
            rw q at fits in
          let sizes = length-append cut (concat_lines rest) in
          let kept =
            evict_fitting b.limits.max_bytes (b.entries ++ (e ∷ [])) (b.bytes + length cut)
              (omega (arith, room.1, sizes)) in
          rw (stored_line-take b.limits l, q, kept)
            (
              (
                omega (
                  arith,
                  room.0,
                  concat_lines-append b.entries (e ∷ []),
                  ap (λ xs. length xs) (append-nil cut),
                ),
                omega (arith, room.1, sizes),
              ),
              append_assoc b.entries (e ∷ []) rest,
            )
    ]

append_lines-Fits :
    (at : ℕ) (ls : List (List ℕ)) (b : LogBuffer)
    → Fits (entries_of b.limits at ls) b
    → (append_lines at ls b).entries ≡ b.entries ++ entries_of b.limits at ls
unfolding append_lines
append_lines-Fits at [] b fits = unfold entries_of in sym (append-nil b.entries)
append_lines-Fits at (l ∷ ls) b fits =
    let (more, same) = append_line-Fits at l ls b fits in
    let limits = append_line-limits at l b in
    append_lines-Fits at ls (append_line at l b)
      (subst (λ (x : LogLimits). Fits (entries_of x at ls) (append_line at l b)) (sym limits) more)
    ∙ ap (λ (x : LogLimits). (append_line at l b).entries ++ entries_of x at ls) limits
    ∙ same

-- Where the buffer counts its bytes and they fit into it together with the entries of the lines of the
-- data, `AppendAt` ends, drops nothing and leaves those entries behind the ones that were there.
pub append_at-keeps :
    (at : ℕ) (d : List ℕ) (b : LogBuffer)
    → b.bytes ≡ length (concat_lines b.entries)
    → b.bytes + length (concat_lines (entries_of b.limits at (lines false d))) ≤ b.limits.max_bytes
    → (b' : LogBuffer) × (append_at at d b ≡ some b')
      × (b'.entries ≡ b.entries ++ entries_of b.limits at (lines false d))
unfolding append_at
append_at-keeps at d b exact fits = (
  append_lines at (lines false d) b,
  append_loop-lines (length d) at d b (omega arith),
  append_lines-Fits at (lines false d) b (exact, fits),
)
