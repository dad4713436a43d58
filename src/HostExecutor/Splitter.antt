-- ===== src/HostExecutor/Splitter.antt =====
-- `executionLineSplitter` of host_executor.go and the loop of `streamExecutionLogs` over what the reads
-- of its pipe bring. bufio.Scanner calls the splitter behind every read that brings data for as long as it
-- answers with a token, then reads on; at the end of the data it calls once more for as long as there are tokens.
-- The queue that the lines go to, which may be full, is left out, and errors of a read too.
use sync_bridge.Base.{
  ltb, none, some, [], ◌∷◌, true, false, zero, suc, List, ℕ, Option, Bool, not, if◌then◌else◌, ◌++◌,
  ◌==◌, ◌&&◌, nat_keyed,
}

-- A line that ends, the bytes taken, and whether a line feed is to be skipped next.
pub record Line : Type 0 where
  pub token : List ℕ
  pub advance : ℕ
  pub skips : Bool

abbrev pub after_return : List ℕ → Bool → Line
after_return [] at_eof = record { token = []; advance = 1; skips = not at_eof }
after_return (next ∷ more) at_eof = record {
  token = [];
  advance = if next == 10 then 2 else 1;
  skips = false;
}

abbrev pub one_further : ℕ → Option Line → Option Line
one_further b none = none
one_further b (some l) = some (record l { token = b ∷ l.token; advance = suc l.advance })

-- The loop over the data.
unfoldable pub line_in : List ℕ → Bool → Option Line
line_in [] at_eof = none
line_in (b ∷ more) at_eof =
    let rest = line_in more at_eof in
    if b == 10
    then some (record { token = []; advance = 1; skips = false })
    else if b == 13
    then some (after_return more at_eof)
    else one_further b rest

pub record Split : Type 0 where
  pub token : Option (List ℕ)
  pub advance : ℕ
  pub skips : Bool

abbrev pub byte_count : List ℕ → ℕ
byte_count [] = 0
byte_count (b ∷ more) = suc (byte_count more)

-- No line ends: all of the data at its end, if there is any, and else a call for more.
abbrev pub last_line : List ℕ → Bool → Bool → Split
last_line [] at_eof skips = record { token = none; advance = 0; skips = skips }
last_line (b ∷ more) true skips = record {
  token = some (b ∷ more);
  advance = byte_count (b ∷ more);
  skips = skips;
}
last_line (b ∷ more) false skips = record { token = none; advance = 0; skips = skips }

abbrev pub split_found : Option Line → List ℕ → Bool → Split
split_found none buf at_eof = last_line buf at_eof false
split_found (some l) buf at_eof = record {
  token = some l.token;
  advance = l.advance;
  skips = l.skips;
}

-- The splitter, with what its closure keeps.
unfoldable pub split : Bool → List ℕ → Bool → Split
split skips [] at_eof = last_line [] at_eof skips
split skips (b ∷ more) at_eof =
    if skips && b == 10
    then record { token = none; advance = 1; skips = false }
    else split_found (line_in (b ∷ more) at_eof) (b ∷ more) at_eof

unfoldable pub drop_bytes : ℕ → List ℕ → List ℕ
drop_bytes zero buf = buf
drop_bytes (suc n) [] = []
drop_bytes (suc n) (b ∷ more) = drop_bytes n more

-- The scanner between two reads.
pub record Scan : Type 0 where
  pub skips : Bool
  pub buffer : List ℕ
  pub lines : List (List ℕ)

abbrev pub with_line : List ℕ → Scan → Scan
with_line l s = record s { lines = l ∷ s.lines }

-- Calls while there are tokens. Each takes a byte, so as many calls as bytes and one more are enough.
unfoldable pub drain : ℕ → Bool → Bool → List ℕ → Scan
drain zero at_eof skips buf = record { skips = skips; buffer = buf; lines = [] }
drain (suc fuel) at_eof skips buf =
    let r = split skips buf at_eof in
    elim r.token [
      | none ↦ record { skips = r.skips; buffer = drop_bytes r.advance buf; lines = [] }
      | some l ↦ with_line l (drain fuel at_eof r.skips (drop_bytes r.advance buf))
    ]

abbrev pub calls : Bool → Bool → List ℕ → Scan
calls at_eof skips buf = drain (suc (byte_count buf)) at_eof skips buf

-- The size of the scanner's buffer: `MaxExecutionLogLineBytes + 1`.
abbrev pub buffer_limit : ℕ
buffer_limit = 65537

-- The lines that come of the reads, and of the end of the data. Before it reads on, a scanner whose
-- buffer is full gives up: the record of the error is the last line, and the rest is discarded.
unfoldable pub scan : List ℕ → Bool → List ℕ → List (List ℕ) → List (List ℕ)
scan too_long skips buffer [] = (calls true skips buffer).lines
scan too_long skips buffer (chunk ∷ more) =
    let s = calls false skips (buffer ++ chunk) in
    let rest = scan too_long s.skips s.buffer more in
    if ltb (byte_count s.buffer) buffer_limit then s.lines ++ rest else s.lines ++ (too_long ∷ [])

-- The lines of `streamExecutionLogs` for the queue, of a stream whose reads bring these bytes. A read is
-- never longer than the room in the buffer. `too_long` is the record of the error.
unfoldable pub stream_lines : List ℕ → List (List ℕ) → List (List ℕ)
stream_lines too_long chunks = scan too_long false [] chunks
