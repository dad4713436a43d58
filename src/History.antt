-- ===== src/History.antt =====
-- cmd/syncbridge/history.go: the records of past runs, by the decimal text of the job ID, in one JSON
-- file. The file system, encoding/json and `strconv.Itoa` are parameters. `histMu` makes each operation
-- one step.
use sync_bridge.Base.{
  ℕ, ltb, String, List, [], ◌∷◌, Option, none, some, ℤ, lookup, insert, delete, string_keyed,
  if◌then◌else◌, length, take,
}
use Prim.Native.String.{◌++◌}
use sync_bridge.AtomicFile.{
  FileSystem, FileOwner, not_exist, unreadable, bytes, WriteError, atomic_write_file_with_fs,
}
pub mod Append
mod Tests

pub record RunRecord : Type 0 where
  pub ts : String
  pub status : String
  pub dur : ℤ
  pub note : String

-- `histKeep`
abbrev pub hist_keep : ℕ
hist_keep = 20

abbrev pub RecordMap : Type 0
RecordMap = List (String × List RunRecord)

pub data HistoryError : Type 0 where
  history_unreadable history_invalid history_not_encoded : HistoryError
  history_not_written : WriteError → HistoryError

-- encoding/json on the map of records, where `some none` is the text `null`, and `strconv.Itoa`.
pub record HistoryCodec : Type 0 where
  pub parse : String → Option (Option RecordMap)
  pub marshal : RecordMap → Option String
  pub itoa : ℤ → String

pub data LoadedHistory : Type 0 where
  load_failed : HistoryError → LoadedHistory
  loaded : RecordMap → LoadedHistory

-- `m[key]` of a slice.
abbrev pub or_empty : Option (List RunRecord) → List RunRecord
or_empty none = []
or_empty (some records) = records

abbrev pub records_of : String → RecordMap → List RunRecord
records_of key m = or_empty (lookup key m)

-- The newest record first, and `histKeep` at most.
abbrev pub with_record : RunRecord → List RunRecord → List RunRecord
with_record rec records =
    let list = rec ∷ records in if ltb hist_keep (length list) then take hist_keep list else list

module _ {S : Type 0} (fs : FileSystem S) (codec : HistoryCodec) where
  abbrev pub decoded : Option (Option RecordMap) → LoadedHistory
  decoded none = load_failed history_invalid
  decoded (some none) = loaded []
  decoded (some (some m)) = loaded m

  -- `loadHistoryAt`
  unfoldable pub load_history_at : String → S → LoadedHistory
  load_history_at path s = elim (fs.read_file path s) [
    | not_exist ↦ loaded []
    | unreadable ↦ load_failed history_unreadable
    | bytes text ↦ decoded (codec.parse text)
  ]

  abbrev pub write_outcome : Option WriteError → Option HistoryError
  write_outcome none = none
  write_outcome (some e) = some (history_not_written e)

  -- The end of `appendHistoryAtomicAt`.
  unfoldable pub write_history : String → FileOwner → RecordMap → S → S × Option HistoryError
  write_history path owner m s = elim (codec.marshal m) [
    | none ↦ (s, some history_not_encoded)
    | some text ↦
        let done = atomic_write_file_with_fs fs path (text ++ "\n") 416 owner s in
        (done.0, write_outcome done.1)
  ]

  -- `appendHistoryAtomicAt`
  unfoldable pub append_history_at :
      String → FileOwner → ℤ → RunRecord → S → S × Option HistoryError
  unfolding write_history load_history_at
  append_history_at path owner id rec s = elim (load_history_at path s) [
    | load_failed e ↦ (s, some e)
    | loaded m ↦
        let key = codec.itoa id in
        write_history path owner (insert key (with_record rec (records_of key m)) m) s
  ]
