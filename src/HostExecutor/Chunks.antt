-- ===== src/HostExecutor/Chunks.antt =====
-- The lines that host_executor.go makes of a stream do not depend on how its reads cut it, up to the
-- point where the buffer is full.
use sync_bridge.HostExecutor.Taken.{line_in-none, line_in-IsTaken, drop_bytes-all, drop_bytes-fewer}
use sync_bridge.HostExecutor.FirstLine.{
  lines_of, Ends, skipped-lines, unskipped-lines, no-lines, line_in-IsFirst, pieces, normalize,
}
use sync_bridge.HostExecutor.Splitter.{
  line_in, drop_bytes, drain, Line, split, byte_count, Scan, Split, with_line, split_found, scan,
  stream_lines, calls, buffer_limit,
}
use mathlib.Core.List.{append-nil, append_assoc}
use sync_bridge.Base.{
  ltb, ◌⊎◌, inl, inr, ◌≡◌, refl, none, some, [], ◌∷◌, true, false, zero, suc, arith, Bool, List, ℕ,
  ◌<◌, Option, ◌&&◌, ◌≤◌, ◌++◌, ◌==◌, subst, ap, nat_beq_iff, nat_keyed, if◌then◌else◌, sym, ◌∙◌,
}

-- A line feed is only to be skipped where no byte waits.
abbrev Ready : Bool → List ℕ → Type 0
Ready true buf = buf ≡ []
Ready false buf = Unit

-- Before and behind the calls of one read, or of the end.
abbrev Before : Bool → Bool → List ℕ → Type 0
Before true skips buf = Ready skips buf
Before false skips buf = Unit

abbrev Behind : Bool → Scan → Type 0
Behind true s = s.buffer ≡ []
Behind false s = Ready s.skips s.buffer

unskipped-Before :
    (at_eof skips : Bool) (buf : List ℕ) → (at_eof && skips) ≡ false → Before at_eof skips buf
unskipped-Before true true buf h = absurd (cc h)
unskipped-Before true false buf h = tt
unskipped-Before false skips buf h = tt

with_line-Behind :
    (at_eof : Bool) (l : List ℕ) (s : Scan) → Behind at_eof s → Behind at_eof (with_line l s)
with_line-Behind true l s h = h
with_line-Behind false l s h = h

nothing-Behind :
    (at_eof skips : Bool) → Behind at_eof (record { skips = skips; buffer = []; lines = [] })
nothing-Behind true skips = refl
nothing-Behind false true = refl
nothing-Behind false false = tt

-- The lines ahead, with those that a scanner has found.
abbrev pub Ahead : Bool → List ℕ → List ℕ → Scan → Type 0
Ahead skips buf rest s =
    lines_of skips (buf ++ rest) ≡ s.lines ++ lines_of s.skips (s.buffer ++ rest)

skipped-feed :
    (skips : Bool) (b : ℕ) (x : List ℕ)
    → (skips && b == 10) ≡ true
    → lines_of skips (b ∷ x) ≡ lines_of false x
skipped-feed true b x h = skipped-lines b x ((nat_beq_iff b 10).0 h)
skipped-feed false b x h = absurd (cc h)

unskipped :
    (skips : Bool) (b : ℕ) (x : List ℕ)
    → (skips && b == 10) ≡ false
    → lines_of skips (b ∷ x) ≡ lines_of false (b ∷ x)
unskipped true b x h = unskipped-lines b x h
unskipped false b x h = refl

pub record IsScanned (at_eof skips : Bool) (buf rest : List ℕ) (s : Scan) : Type 0 where
  pub ahead : Ahead skips buf rest s
  pub behind : Behind at_eof s

-- What follows a call.
abbrev after_call : ℕ → Bool → List ℕ → Split → Scan
after_call fuel at_eof buf r = elim r.token [
  | none ↦ record { skips = r.skips; buffer = drop_bytes r.advance buf; lines = [] }
  | some l ↦ with_line l (drain fuel at_eof r.skips (drop_bytes r.advance buf))
]

last-lines :
    (b : ℕ) (more rest : List ℕ)
    → rest ≡ []
    → line_in (b ∷ more) true ≡ none
    → lines_of false (b ∷ (more ++ rest))
      ≡ (b ∷ more) ∷ lines_of false (drop_bytes (byte_count (b ∷ more)) (b ∷ more) ++ rest)
last-lines b more rest over h =
    subst
      (λ x.
        lines_of false (b ∷ (more ++ x))
        ≡ (b ∷ more) ∷ lines_of false (drop_bytes (byte_count (b ∷ more)) (b ∷ more) ++ x))
      (sym over)
      (ap (λ x. lines_of false (b ∷ x)) (append-nil more)
        ∙ line_in-none b more h
        ∙ ap (λ x. (b ∷ more) ∷ x)
            (sym (ap (λ x. lines_of false (x ++ [])) (drop_bytes-all (b ∷ more)) ∙ no-lines false)))

-- A call that finds a line, and the calls behind it.
found-IsScanned :
    (fuel : ℕ) (at_eof skips : Bool) (b : ℕ) (more rest : List ℕ) (o : Option Line)
    → (skips && b == 10) ≡ false
    → line_in (b ∷ more) at_eof ≡ o
    → Ends at_eof rest
    → ((again : Bool) (buf : List ℕ)
        → byte_count buf ≤ byte_count more
        → Before at_eof again buf
        → IsScanned at_eof again buf rest (drain fuel at_eof again buf))
    → IsScanned at_eof skips
        (b ∷ more)
        rest
        (after_call fuel at_eof (b ∷ more) (split_found o (b ∷ more) at_eof))
unfolding drop_bytes
found-IsScanned fuel at_eof skips b more rest (some l) q h over f =
    let taken = line_in-IsTaken at_eof (b ∷ more) l h in
    let r =
      f l.skips (drop_bytes l.advance (b ∷ more)) (drop_bytes-fewer l.advance b more taken.0)
        (unskipped-Before at_eof l.skips (drop_bytes l.advance (b ∷ more)) taken.1) in
    record {
      ahead =
          unskipped skips b (more ++ rest) q
          ∙ line_in-IsFirst at_eof (b ∷ more) rest l over h
          ∙ ap (λ x. l.token ∷ x) r.ahead;
      behind =
          with_line-Behind at_eof l.token
            (drain fuel at_eof l.skips (drop_bytes l.advance (b ∷ more))) r.behind;
    }
found-IsScanned fuel false skips b more rest none q h over f = record {
  ahead = unskipped skips b (more ++ rest) q;
  behind = tt;
}
found-IsScanned fuel true skips b more rest none q h over f =
    let all = drop_bytes-all (b ∷ more) in
    let r =
      f false (drop_bytes (byte_count (b ∷ more)) (b ∷ more))
        (drop_bytes-fewer (byte_count (b ∷ more)) b more (ground arith)) tt in
    record {
      ahead =
          unskipped skips b (more ++ rest) q
          ∙ last-lines b more rest over h
          ∙ ap (λ x. (b ∷ more) ∷ x) r.ahead;
      behind = r.behind;
    }

feed-IsScanned :
    (fuel : ℕ) (at_eof skips : Bool) (b : ℕ) (more rest : List ℕ) (t : Bool)
    → (skips && b == 10) ≡ t
    → Ends at_eof rest
    → Before at_eof skips (b ∷ more)
    → ((again : Bool) (buf : List ℕ)
        → byte_count buf ≤ byte_count more
        → Before at_eof again buf
        → IsScanned at_eof again buf rest (drain fuel at_eof again buf))
    → IsScanned at_eof skips (b ∷ more) rest (
        after_call fuel at_eof (b ∷ more) (
          if t
          then record { token = none; advance = 1; skips = false }
          else split_found (line_in (b ∷ more) at_eof) (b ∷ more) at_eof))
unfolding drop_bytes
feed-IsScanned fuel true true b more rest true q over ready f = absurd (cc ready)
feed-IsScanned fuel true false b more rest true q over ready f = absurd (cc q)
feed-IsScanned fuel false skips b more rest true q over ready f = record {
  ahead = skipped-feed skips b (more ++ rest) q;
  behind = tt;
}
feed-IsScanned fuel at_eof skips b more rest false q over ready f =
    found-IsScanned fuel at_eof skips b more rest (line_in (b ∷ more) at_eof) q refl over f

-- With fuel for every byte, the calls find lines that are ahead, and leave the rest to the reads behind them.
drain-IsScanned :
    (fuel : ℕ) (at_eof skips : Bool) (buf rest : List ℕ)
    → byte_count buf < fuel
    → Ends at_eof rest
    → Before at_eof skips buf
    → IsScanned at_eof skips buf rest (drain fuel at_eof skips buf)
unfolding drain split drop_bytes
drain-IsScanned zero at_eof skips buf rest enough over ready = absurd (omega arith)
drain-IsScanned (suc fuel) at_eof skips [] rest enough over ready = record {
  ahead = refl;
  behind = nothing-Behind at_eof skips;
}
drain-IsScanned (suc fuel) at_eof skips (b ∷ more) rest enough over ready =
    feed-IsScanned fuel at_eof skips b more rest (skips && b == 10) refl over ready
      (λ again buf fewer before.
        drain-IsScanned fuel at_eof again buf rest (omega arith) over before)

-- The lines of the reads are those of their bytes in a row.
abbrev pub joined : List (List ℕ) → List ℕ
joined [] = []
joined (chunk ∷ more) = chunk ++ joined more

-- A scanner that gave up: the lines before, the record of the error, and what comes of the bytes that
-- were not cut into lines, of which the buffer held its limit.
abbrev pub GivesUp : List ℕ → List (List ℕ) → List (List ℕ) → Type 0
GivesUp too_long all made =
    (front : List (List ℕ)) × (skips : Bool) × (buffer : List ℕ) × (rest : List ℕ) × (all
      ≡ front ++ lines_of skips (buffer ++ rest))
    × (made ≡ front ++ (too_long ∷ []))
    × (65537 ≤ byte_count buffer)

GivesUp-behind :
    (too_long : List ℕ) (lines all made : List (List ℕ))
    → GivesUp too_long all made
    → GivesUp too_long (lines ++ all) (lines ++ made)
GivesUp-behind too_long lines all made (front, skips, buffer, rest, whole, cut, full) = (
  lines ++ front,
  skips,
  buffer,
  rest,
  ap (λ x. lines ++ x) whole ∙ sym (append_assoc lines front (lines_of skips (buffer ++ rest))),
  ap (λ x. lines ++ x) cut ∙ sym (append_assoc lines front (too_long ∷ [])),
  full,
)

scan-lines :
    (too_long : List ℕ) (chunks : List (List ℕ)) (skips : Bool) (buf : List ℕ)
    → Ready skips buf
    → (scan too_long skips buf chunks ≡ lines_of skips (buf ++ joined chunks))
      ⊎ GivesUp too_long (lines_of skips (buf ++ joined chunks)) (scan too_long skips buf chunks)
unfolding scan
scan-lines too_long [] skips buf ready =
    let r = drain-IsScanned (suc (byte_count buf)) true skips buf [] (ground arith) refl ready in
    let s = calls true skips buf in
    inl (
      sym (
        r.ahead
        ∙ ap (λ x. s.lines ++ lines_of s.skips (x ++ [])) r.behind
        ∙ ap (λ x. s.lines ++ x) (no-lines s.skips)
        ∙ append-nil s.lines))
scan-lines too_long (chunk ∷ more) skips buf ready =
    let r =
      drain-IsScanned (suc (byte_count (buf ++ chunk))) false skips (buf ++ chunk) (joined more)
        (ground arith) tt tt in
    let s = calls false skips (buf ++ chunk) in
    let whole : lines_of skips (buf ++ (chunk ++ joined more))
        ≡ s.lines ++ lines_of s.skips (s.buffer ++ joined more) =
      sym (ap (lines_of skips) (append_assoc buf chunk (joined more))) ∙ r.ahead in
    round s whole (ltb (byte_count s.buffer) buffer_limit) refl
      (scan-lines too_long more s.skips s.buffer r.behind)
  where
    round :
        (s : Scan)
        → lines_of skips (buf ++ (chunk ++ joined more))
          ≡ s.lines ++ lines_of s.skips (s.buffer ++ joined more)
        → (room : Bool) → ltb (byte_count s.buffer) buffer_limit ≡ room
        → (scan too_long s.skips s.buffer more ≡ lines_of s.skips (s.buffer ++ joined more))
          ⊎ GivesUp too_long
              (lines_of s.skips (s.buffer ++ joined more))
              (scan too_long s.skips s.buffer more)
        → ((if room
              then s.lines ++ scan too_long s.skips s.buffer more
              else s.lines ++ (too_long ∷ []))
            ≡ lines_of skips (buf ++ (chunk ++ joined more)))
          ⊎ GivesUp too_long (lines_of skips (buf ++ (chunk ++ joined more))) (
              if room
              then s.lines ++ scan too_long s.skips s.buffer more
              else s.lines ++ (too_long ∷ []))
    round s whole true q (inl same) = inl (ap (λ x. s.lines ++ x) same ∙ sym whole)
    round s whole true q (inr cut) = inr (
        subst (λ x. GivesUp too_long x (s.lines ++ scan too_long s.skips s.buffer more)) (sym whole)
          (GivesUp-behind too_long s.lines _ _ cut))
    round s whole false q either =
        inr (s.lines, s.skips, s.buffer, joined more, whole, refl, ground (arith, q))

-- However the reads cut a stream, the lines that come of it are those of its bytes: a line feed, a
-- return, and both in a row each end a line, and bytes behind the last end are a line of their own. Or
-- at least 65,537 bytes waited in the buffer: then the lines before them come, and the record of
-- the error.
pub stream_lines-normalize :
    (too_long : List ℕ) (chunks : List (List ℕ))
    → (stream_lines too_long chunks ≡ pieces (normalize false (joined chunks)))
      ⊎ GivesUp too_long (pieces (normalize false (joined chunks))) (stream_lines too_long chunks)
unfolding stream_lines lines_of
stream_lines-normalize too_long chunks = scan-lines too_long chunks false [] tt
