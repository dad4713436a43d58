-- ===== src/AtomicFile/Memory.antt =====
-- A file system in memory, with one temporary name, that fails where that name is taken.
use Prim.Native.String.{◌++◌}
use sync_bridge.Base.{
  String, Bool, true, false, Option, none, some, ◌≡◌, ◌≢◌, refl, sym, ◌∙◌, arith, Bool-cases, inl,
  inr, Option-cases, ap, List, lookup, insert, delete, string_keyed, ◌==◌, ◌&&◌, not,
  lookup-insert_self, lookup-insert_ne, lookup-delete_ne,
}
use sync_bridge.AtomicFile.{FileSystem, ReadResult, bytes, not_exist}
use sync_bridge.AtomicFile.Effect.{Lawful}

abbrev pub Files : Type 0
Files = List (String × String)

abbrev pub read_entry : Option String → ReadResult
read_entry none = not_exist
read_entry (some d) = bytes d

abbrev is_free : Option String → Bool
is_free none = true
is_free (some d) = false

unfoldable pub create_free : Bool → Files → Files × Option String
create_free true s = (insert "t" "" s, some "t")
create_free false s = (s, none)

unfoldable pub create_t : String → Files → Files × Option String
create_t pattern s = create_free (is_free (lookup "t" s) && not (pattern == ".t.tmp-")) s

unfoldable pub move_found : String → String → Option String → Files → Files × Bool
move_found old new none s = (s, false)
move_found old new (some d) s = (insert new d (delete old s), true)

unfoldable pub move : String → String → Files → Files × Bool
unfolding move_found
move old new s = move_found old new (lookup old s) s

abbrev pub memory : FileSystem Files
memory = record {
  dir = λ _. "d";
  base = λ p. p;
  read_file = λ p s. read_entry (lookup p s);
  mkdir_all = λ _ _ s. (s, true);
  create_temp = λ _ pattern s. create_t pattern s;
  write = λ p d s. (insert p d s, true);
  chmod = λ _ _ s. (s, true);
  chown = λ _ _ s. (s, true);
  sync = λ _ s. (s, true);
  close = λ _ s. (s, true);
  rename = move;
  remove = λ p s. (delete p s, true);
  open_dir = λ _ s. (s, true);
}

create_t-fails :
    (pattern : String) (s : Files) → (create_t pattern s).1 ≡ none → (create_t pattern s).0 ≡ s
unfolding create_t create_free
create_t-fails pattern s h = ground arith

create_t-cases :
    (pattern name : String) (s : Files)
    → (create_t pattern s).1 ≡ some name
    → (name ≡ "t")
      × (lookup "t" s ≡ none)
      × ((create_t pattern s).0 ≡ insert "t" "" s)
      × ((pattern == ".t.tmp-") ≡ false)
unfolding create_t create_free
create_t-cases pattern name s h = elim (Option-cases (lookup "t" s)) [
  | inr (d, q) ↦ absurd (ground (arith, q))
  | inl q ↦ elim (Bool-cases (pattern == ".t.tmp-")) [
    | inl e ↦ absurd (ground (arith, q, e))
    | inr e ↦ (ground (arith, q, e), q, ground (arith, q, e), e)
  ]
]

move-fails : (old new : String) (s : Files) → (move old new s).1 ≡ false → (move old new s).0 ≡ s
unfolding move move_found
move-fails old new s h = elim (Option-cases (lookup old s)) [
  | inl q ↦ rw q refl
  | inr (d, q) ↦ absurd (ground (arith, q))
]

move-moves :
    (old new : String) (s : Files)
    → (move old new s).1 ≡ true
    → (lookup new (move old new s).0 ≡ lookup old s)
      × ((p : String) → p ≢ old → p ≢ new → lookup p (move old new s).0 ≡ lookup p s)
unfolding move move_found
move-moves old new s h = elim (Option-cases (lookup old s)) [
  | inl q ↦ absurd (ground (arith, q))
  | inr (d, q) ↦ rw q (
    lookup-insert_self new d (delete old s),
    λ p o n.
        lookup-insert_ne new p d (delete old s) (λ e. n (sym e))
        ∙ lookup-delete_ne old p s (λ e. o (sym e)),
  )
]

pub memory-Lawful : Lawful memory
memory-Lawful = record {
  mkdir_all-keeps = λ p m s q. refl;
  chmod-keeps = λ p m s q. refl;
  chown-keeps = λ p m s q. refl;
  sync-keeps = λ p s q. refl;
  close-keeps = λ p s q. refl;
  open_dir-keeps = λ p s q. refl;
  remove-keeps = λ p s q h. ap read_entry (lookup-delete_ne p q s (λ e. h (sym e)));
  write-keeps = λ p d s q h. ap read_entry (lookup-insert_ne p q d s (λ e. h (sym e)));
  write-content = λ p d s e w. ap read_entry (lookup-insert_self p d s);
  create_temp-fails =
      λ d pattern s h q. ap (λ t. read_entry (lookup q t)) (create_t-fails pattern s h);
  create_temp-new = λ d pattern name s h.
      let (named, free, made, differs) = create_t-cases pattern name s h in
      (
        ap (λ x. read_entry (lookup x s)) named ∙ ap read_entry free,
        ap (λ x. read_entry (lookup x (create_t pattern s).0)) named
            ∙ ap (λ f. read_entry (lookup "t" f)) made
            ∙ ap read_entry (lookup-insert_self "t" "" s),
        λ p h.
            ap (λ f. read_entry (lookup p f)) made
            ∙ ap read_entry (lookup-insert_ne "t" p "" s (λ e. h (sym e ∙ sym named))),
      );
  create_temp-other = λ path name s h q.
      let (named, free, made, differs) = create_t-cases ("." ++ path ++ ".tmp-") name s h in
      absurd (cc (sym (ap (λ x. ("." ++ x ++ ".tmp-") == ".t.tmp-") (sym q ∙ named)) ∙ differs));
  rename-fails = λ old new s h q. ap (λ t. read_entry (lookup q t)) (move-fails old new s h);
  rename-moves = λ old new s h.
      let (m, o) = move-moves old new s h in (ap read_entry m, λ p a b. ap read_entry (o p a b));
}
