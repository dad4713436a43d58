-- ===== src/HostExecutor/Taken.antt =====
-- What the splitter of host_executor.go takes of a buffer.
use sync_bridge.HostExecutor.FirstLine.{lines_of, attach, attach-none, some-eq, plain-lines}
use sync_bridge.HostExecutor.Splitter.{
  line_in, drop_bytes, Line, after_return, byte_count, one_further,
}
use sync_bridge.Base.{
  ◌≡◌, refl, none, some, [], ◌∷◌, true, false, zero, suc, arith, Bool, List, ℕ, ◌<◌, Option, ◌&&◌,
  ◌≤◌, ◌==◌, subst, ap, nat_keyed, if◌then◌else◌, ◌∙◌,
}

-- A line takes a byte at least, and at the end of the data leaves nothing to skip.
abbrev pub IsTaken : Bool → Line → Type 0
IsTaken at_eof l = (0 < l.advance) × ((at_eof && l.skips) ≡ false)

after_return-IsTaken : (at_eof : Bool) (more : List ℕ) → IsTaken at_eof (after_return more at_eof)
after_return-IsTaken true [] = (ground arith, refl)
after_return-IsTaken false [] = (ground arith, refl)
after_return-IsTaken true (next ∷ more) = (ground arith, refl)
after_return-IsTaken false (next ∷ more) = (ground arith, refl)

further-IsTaken :
    (at_eof : Bool) (b : ℕ) (o : Option Line) (l : Line)
    → ((x : Line) → o ≡ some x → IsTaken at_eof x)
    → one_further b o ≡ some l
    → IsTaken at_eof l
further-IsTaken at_eof b none l f e = absurd (cc e)
further-IsTaken at_eof b (some x) l f e =
    subst (IsTaken at_eof) (some-eq e) (ground arith, (f x refl).1)

by_byte-IsTaken :
    (at_eof n r : Bool) (b : ℕ) (more : List ℕ) (o : Option Line) (l : Line)
    → ((x : Line) → o ≡ some x → IsTaken at_eof x)
    → (if n
        then some (record { token = []; advance = 1; skips = false })
        else if r
        then some (after_return more at_eof)
        else one_further b o)
      ≡ some l
    → IsTaken at_eof l
by_byte-IsTaken at_eof true r b more o l f e =
    subst (IsTaken at_eof) (some-eq e) (ground arith, ground arith)
by_byte-IsTaken at_eof false true b more o l f e =
    subst (IsTaken at_eof) (some-eq e) (after_return-IsTaken at_eof more)
by_byte-IsTaken at_eof false false b more o l f e = further-IsTaken at_eof b o l f e

pub line_in-IsTaken :
    (at_eof : Bool) (buf : List ℕ) (l : Line) → line_in buf at_eof ≡ some l → IsTaken at_eof l
unfolding line_in
line_in-IsTaken at_eof [] l h = absurd (cc h)
line_in-IsTaken at_eof (b ∷ more) l h =
    by_byte-IsTaken at_eof (b == 10) (b == 13) b more (line_in more at_eof) l
      (λ x q. line_in-IsTaken at_eof more x q) h

unfound : (b : ℕ) (o : Option Line) → one_further b o ≡ none → o ≡ none
unfound b none e = refl
unfound b (some x) e = absurd (cc e)

by_byte-none :
    (b : ℕ) (n r : Bool) (ended : Line) (o : Option Line)
    → (if n
        then some (record { token = []; advance = 1; skips = false })
        else if r
        then some ended
        else one_further b o)
      ≡ none
    → (n ≡ false) × (r ≡ false) × (o ≡ none)
by_byte-none b true r ended o e = absurd (cc e)
by_byte-none b false true ended o e = absurd (cc e)
by_byte-none b false false ended o e = (refl, refl, unfound b o e)

-- Bytes without an end of a line are one line.
pub line_in-none :
    (b : ℕ) (more : List ℕ)
    → line_in (b ∷ more) true ≡ none
    → lines_of false (b ∷ more) ≡ (b ∷ more) ∷ []
unfolding line_in
line_in-none b [] h =
    let (n, r, e) = by_byte-none b (b == 10) (b == 13) (after_return [] true) none h in
    plain-lines b [] n r ∙ attach-none b
line_in-none b (c ∷ rest) h =
    let (n, r, e) =
      by_byte-none b (b == 10) (b == 13) (after_return (c ∷ rest) true) (line_in (c ∷ rest) true)
        h in
    plain-lines b (c ∷ rest) n r ∙ ap (attach b) (line_in-none c rest e)

drop_bytes-at_most : (n : ℕ) (buf : List ℕ) → byte_count (drop_bytes n buf) ≤ byte_count buf
unfolding drop_bytes
drop_bytes-at_most zero buf = ground arith
drop_bytes-at_most (suc n) [] = ground arith
drop_bytes-at_most (suc n) (b ∷ more) = omega (arith, drop_bytes-at_most n more)

pub drop_bytes-fewer :
    (n b : ℕ) (more : List ℕ) → 0 < n → byte_count (drop_bytes n (b ∷ more)) ≤ byte_count more
unfolding drop_bytes
drop_bytes-fewer zero b more h = absurd (omega arith)
drop_bytes-fewer (suc n) b more h = drop_bytes-at_most n more

pub drop_bytes-all : (buf : List ℕ) → drop_bytes (byte_count buf) buf ≡ []
unfolding drop_bytes
drop_bytes-all [] = refl
drop_bytes-all (b ∷ more) = drop_bytes-all more
