-- ===== src/History/Tests.antt =====
-- A first record in a new history file.
use sync_bridge.Base.{
  String, [], ◌∷◌, some, pos, lookup, insert, string_keyed, ◌≡◌, ◌≢◌, refl, take,
}
use sync_bridge.AtomicFile.Memory.{memory, memory-Lawful}
use sync_bridge.History.{
  RunRecord, RecordMap, HistoryCodec, records_of, load_history_at, append_history_at,
}
use sync_bridge.History.Append.{IsWritten, append_history_at-IsWritten}

abbrev rec : RunRecord
rec = record { ts = "now"; status = "ok"; dur = pos 3; note = "" }

abbrev written : RecordMap
written = ("1", rec ∷ []) ∷ []

abbrev codec : HistoryCodec
codec = record { parse = λ _. some (some written); marshal = λ _. some "text"; itoa = λ _. "1" }

append_history_at-IsWritten_example :
    (new : RecordMap) × IsWritten memory codec "history" new [] (
      append_history_at memory codec "history" (record { uid = pos 0; gid = pos 0 }) (pos 1) rec [])
    × (records_of "1" new ≡ take 20 (rec ∷ []))
    × ((k : String) → "1" ≢ k → lookup k new ≡ lookup k [])
unfolding load_history_at insert lookup
append_history_at-IsWritten_example =
    append_history_at-IsWritten memory codec memory-Lawful "history"
      (record { uid = pos 0; gid = pos 0 }) (pos 1) rec [] [] refl (λ text q. refl)
