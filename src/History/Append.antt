-- ===== src/History/Append.antt =====
-- What appending a record does to the history file of history.go.
use sync_bridge.Base.{
  ltb, String, List, ◌∷◌, Option, none, some, ℤ, lookup, insert, string_keyed, length, take, ◌≡◌,
  ◌≢◌, refl, sym, ap, ◌∙◌, ◌⊎◌, inl, inr, Option-cases, Bool-cases, lookup-insert_self,
  lookup-insert_ne, subst, take_all, ltb→ge,
}
use Prim.Native.String.{◌++◌}
use sync_bridge.AtomicFile.{FileSystem, FileOwner, WriteError, bytes, atomic_write_file_with_fs}
use sync_bridge.AtomicFile.Effect.{Lawful, atomic_write_file_with_fs-IsAtomic}
use sync_bridge.History.{
  RunRecord, RecordMap, HistoryCodec, HistoryError, loaded, hist_keep, with_record, records_of,
  or_empty, decoded, load_history_at, write_history, write_outcome, append_history_at,
}

-- The cut at the limit is the same as to take that many.
with_record-take :
    (rec : RunRecord) (records : List RunRecord) → with_record rec records ≡ take 20 (rec ∷ records)
with_record-take rec records = elim (Bool-cases (ltb hist_keep (length (rec ∷ records)))) [
  | inl b ↦ rw b refl
  | inr b ↦ rw b (sym (take_all 20 (rec ∷ records) (ltb→ge 20 (length (rec ∷ records)) b)))
]

module _ {S : Type 0} (fs : FileSystem S) (codec : HistoryCodec) where
  -- encoding/json reads back these records from the text that it makes of them, behind a newline.
  abbrev pub IsReadBack : RecordMap → Type 0
  IsReadBack m =
      (text : String) → codec.marshal m ≡ some text → codec.parse (text ++ "\n") ≡ some (some m)

  abbrev pub IsWritten : String → RecordMap → S → S × Option HistoryError → Type 0
  IsWritten path m s done =
      (load_history_at fs codec path done.0 ≡ loaded m)
      ⊎ ((load_history_at fs codec path done.0 ≡ load_history_at fs codec path s) × (done.1 ≢ none))

  load-same :
      (path : String) (s t : S)
      → fs.read_file path t ≡ fs.read_file path s
      → load_history_at fs codec path t ≡ load_history_at fs codec path s
  unfolding load_history_at
  load-same path s t h = rw (h, load_history_at) refl

  load-bytes :
      (path text : String) (t : S)
      → fs.read_file path t ≡ bytes text
      → load_history_at fs codec path t ≡ decoded fs codec (codec.parse text)
  unfolding load_history_at
  load-bytes path text t h = rw (h, load_history_at) refl

  write_history-IsWritten :
      (lawful : Lawful fs) (path : String) (owner : FileOwner) (m : RecordMap) (s : S)
      → IsReadBack m
      → IsWritten path m s (write_history fs codec path owner m s)
  unfolding write_history
  write_history-IsWritten lawful path owner m s enc = elim (Option-cases (codec.marshal m)) [
    | inl q ↦ rw (q, write_history) (inr (refl, λ p. cc p))
    | inr (text, q) ↦
        let done = atomic_write_file_with_fs fs path (text ++ "\n") 416 owner s in
        rw (q, write_history)
          (elim (atomic_write_file_with_fs-IsAtomic fs lawful path (text ++ "\n") 416 owner s).0 [
            | inl w ↦
                inl (load-bytes path (text ++ "\n") done.0 w ∙ ap (decoded fs codec) (enc text q))
            | inr w ↦ inr (load-same path s done.0 w.0, λ p. w.1 (cleared done.1 p))
          ])
  ]
    where
      cleared : (o : Option WriteError) → write_outcome fs codec o ≡ none → o ≡ none
      cleared none p = refl
      cleared (some e) p = absurd (cc p)

  -- A file that loads, and whose new records encoding/json reads back: afterwards it loads as records
  -- in which the job has the newest twenty of the new record and all that it had, in this order, and
  -- every other job has what it had; or it loads as before and an error is returned.
  pub append_history_at-IsWritten :
      (lawful : Lawful fs) (path : String) (owner : FileOwner) (id : ℤ) (rec : RunRecord) (s : S)
      (m : RecordMap)
      → load_history_at fs codec path s ≡ loaded m
      → IsReadBack (insert (codec.itoa id) (with_record rec (records_of (codec.itoa id) m)) m)
      → (new : RecordMap) × IsWritten path new s (append_history_at fs codec path owner id rec s)
        × (records_of (codec.itoa id) new ≡ take 20 (rec ∷ records_of (codec.itoa id) m))
        × ((k : String) → codec.itoa id ≢ k → lookup k new ≡ lookup k m)
  unfolding append_history_at
  append_history_at-IsWritten lawful path owner id rec s m h enc =
      let key = codec.itoa id in
      let kept = with_record rec (records_of key m) in
      let new = insert key kept m in
      let opened : append_history_at fs codec path owner id rec s
          ≡ write_history fs codec path owner new s =
        rw (h, append_history_at) refl in
      (
        new,
        subst (IsWritten path new s) (sym opened)
            (write_history-IsWritten lawful path owner new s enc),
        ap or_empty (lookup-insert_self key kept m) ∙ with_record-take rec (records_of key m),
        λ k n. lookup-insert_ne key k kept m n,
      )
