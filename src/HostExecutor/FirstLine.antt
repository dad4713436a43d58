-- ===== src/HostExecutor/FirstLine.antt =====
-- The first line of a buffer, as host_executor.go finds it.
use sync_bridge.HostExecutor.Splitter.{line_in, drop_bytes, Line, after_return, one_further}
use sync_bridge.Base.{
  ◌≡◌, refl, none, some, [], ◌∷◌, true, false, Bool, ℕ, List, if◌then◌else◌, ◌++◌, ◌&&◌, ◌==◌,
  nat_keyed, subst, ap, Option, same-cases, sym, ◌∙◌, inl, inr,
}

-- What the lines are meant to be. A return counts as a line feed, and a line feed behind it for nothing.
unfoldable pub normalize : Bool → List ℕ → List ℕ
normalize skips [] = []
normalize skips (b ∷ more) =
    if skips && b == 10
    then normalize false more
    else if b == 13
    then 10 ∷ normalize true more
    else b ∷ normalize false more

abbrev pub attach : ℕ → List (List ℕ) → List (List ℕ)
attach b [] = (b ∷ []) ∷ []
attach b (line ∷ more) = (b ∷ line) ∷ more

-- The pieces between line feeds, without an empty one at the end.
unfoldable pub pieces : List ℕ → List (List ℕ)
pieces [] = []
pieces (b ∷ more) = if b == 10 then [] ∷ pieces more else attach b (pieces more)

unfoldable pub lines_of : Bool → List ℕ → List (List ℕ)
lines_of skips buf = pieces (normalize skips buf)

feed-lines : (b : ℕ) (x : List ℕ) → b ≡ 10 → lines_of false (b ∷ x) ≡ [] ∷ lines_of false x
unfolding lines_of normalize pieces
feed-lines b x e = subst (λ c. lines_of false (c ∷ x) ≡ [] ∷ lines_of false x) (sym e) refl

return-lines : (b : ℕ) (x : List ℕ) → b ≡ 13 → lines_of false (b ∷ x) ≡ [] ∷ lines_of true x
unfolding lines_of normalize pieces
return-lines b x e = subst (λ c. lines_of false (c ∷ x) ≡ [] ∷ lines_of true x) (sym e) refl

pub plain-lines :
    (b : ℕ) (x : List ℕ)
    → (b == 10) ≡ false
    → (b == 13) ≡ false
    → lines_of false (b ∷ x) ≡ attach b (lines_of false x)
unfolding lines_of normalize pieces
plain-lines b x n r =
    ap (λ t. pieces (if t then 10 ∷ normalize true x else b ∷ normalize false x)) r
    ∙ ap (λ t. if t then [] ∷ pieces (normalize false x) else attach b (pieces (normalize false x)))
        n

pub no-lines : (skips : Bool) → lines_of skips [] ≡ []
unfolding lines_of normalize pieces
no-lines skips = refl

pub attach-none : (b : ℕ) → attach b (lines_of false []) ≡ (b ∷ []) ∷ []
unfolding lines_of normalize pieces
attach-none b = refl

pub skipped-lines : (b : ℕ) (x : List ℕ) → b ≡ 10 → lines_of true (b ∷ x) ≡ lines_of false x
unfolding lines_of normalize
skipped-lines b x e = subst (λ c. lines_of true (c ∷ x) ≡ lines_of false x) (sym e) refl

pub unskipped-lines :
    (b : ℕ) (x : List ℕ) → (b == 10) ≡ false → lines_of true (b ∷ x) ≡ lines_of false (b ∷ x)
unfolding lines_of normalize
unskipped-lines b x n =
    ap
      (λ t. pieces (
        if t
        then normalize false x
        else if b == 13
        then 10 ∷ normalize true x
        else b ∷ normalize false x))
      n

pub some-eq : {x y : Line} → some x ≡ some y → x ≡ y
some-eq h = cc h

-- What a line that was found says of the bytes behind it.
abbrev pub IsFirst : List ℕ → List ℕ → Line → Type 0
IsFirst buf rest l =
    lines_of false (buf ++ rest) ≡ l.token ∷ lines_of l.skips (drop_bytes l.advance buf ++ rest)

-- Nothing follows the end of the data.
abbrev pub Ends : Bool → List ℕ → Type 0
Ends true rest = rest ≡ []
Ends false rest = Unit

after_return-IsFirst :
    (at_eof : Bool) (b : ℕ) (more rest : List ℕ)
    → Ends at_eof rest
    → b ≡ 13
    → IsFirst (b ∷ more) rest (after_return more at_eof)
unfolding drop_bytes lines_of normalize
after_return-IsFirst false b [] rest over e = return-lines b rest e
after_return-IsFirst true b [] rest over e =
    subst (λ x. lines_of false (b ∷ x) ≡ [] ∷ lines_of false x) (sym over) (return-lines b [] e)
after_return-IsFirst at_eof b (next ∷ more) rest over e = elim (same-cases next 10) [
  | inl q ↦
      subst
        (λ t.
          lines_of false (b ∷ next ∷ (more ++ rest))
          ≡ [] ∷ lines_of false (drop_bytes (if t then 2 else 1) (b ∷ next ∷ more) ++ rest))
        (sym q.0)
        (return-lines b (next ∷ (more ++ rest)) e
          ∙ ap (λ x. [] ∷ x) (skipped-lines next (more ++ rest) q.1))
  | inr q ↦
      subst
        (λ t.
          lines_of false (b ∷ next ∷ (more ++ rest))
          ≡ [] ∷ lines_of false (drop_bytes (if t then 2 else 1) (b ∷ next ∷ more) ++ rest))
        (sym q.0)
        (return-lines b (next ∷ (more ++ rest)) e
          ∙ ap (λ x. [] ∷ x) (unskipped-lines next (more ++ rest) q.0))
]

one_further-IsFirst :
    (b : ℕ) (more rest : List ℕ) (o : Option Line) (l : Line)
    → (b == 10) ≡ false
    → (b == 13) ≡ false
    → ((x : Line) → o ≡ some x → IsFirst more rest x)
    → one_further b o ≡ some l
    → IsFirst (b ∷ more) rest l
unfolding drop_bytes
one_further-IsFirst b more rest none l n r f h = absurd (cc h)
one_further-IsFirst b more rest (some x) l n r f h =
    subst (IsFirst (b ∷ more) rest) (some-eq h)
      (plain-lines b (more ++ rest) n r ∙ ap (attach b) (f x refl))

-- A line that is found is the first one, whatever follows the buffer.
pub line_in-IsFirst :
    (at_eof : Bool) (buf rest : List ℕ) (l : Line)
    → Ends at_eof rest
    → line_in buf at_eof ≡ some l
    → IsFirst buf rest l
unfolding line_in drop_bytes
line_in-IsFirst at_eof [] rest l over h = absurd (cc h)
line_in-IsFirst at_eof (b ∷ more) rest l over h = elim (same-cases b 10) [
  | inl q ↦
      subst (IsFirst (b ∷ more) rest)
        (some-eq (
          ap
            (λ t.
              if t
              then some (record { token = []; advance = 1; skips = false })
              else if b == 13
              then some (after_return more at_eof)
              else one_further b (line_in more at_eof))
            (sym q.0)
          ∙ h))
        (feed-lines b (more ++ rest) q.1)
  | inr q ↦
      let h' : (if b == 13
            then some (after_return more at_eof)
            else one_further b (line_in more at_eof))
          ≡ some l =
        ap
          (λ t.
            if t
            then some (record { token = []; advance = 1; skips = false })
            else if b == 13
            then some (after_return more at_eof)
            else one_further b (line_in more at_eof))
          (sym q.0)
        ∙ h in
      elim (same-cases b 13) [
        | inl r ↦
            subst (IsFirst (b ∷ more) rest)
              (some-eq (
                ap
                  (λ t.
                    if t
                    then some (after_return more at_eof)
                    else one_further b (line_in more at_eof))
                  (sym r.0)
                ∙ h'))
              (after_return-IsFirst at_eof b more rest over r.1)
        | inr r ↦
            one_further-IsFirst b more rest (line_in more at_eof) l q.0 r.0
              (λ x e. line_in-IsFirst at_eof more rest x over e)
              (ap
                  (λ t.
                    if t
                    then some (after_return more at_eof)
                    else one_further b (line_in more at_eof))
                  (sym r.0)
                ∙ h')
      ]
]
