-- ===== src/AtomicFile.antt =====
-- cmd/syncbridge/atomic_file.go: replacing a file by way of a temporary one. The file system is the
-- interface `atomicFileSystem`, here over an arbitrary state; a temporary file and a directory are
-- handled by their names, and `true` says that a call returned no error.
use sync_bridge.Base.{ℕ, String, Bool, not, Option, none, some, ℤ, if◌then◌else◌}
use Prim.Native.String.{◌++◌}
pub mod Effect
pub mod Memory
mod Tests

pub record FileOwner : Type 0 where
  pub uid : ℤ
  pub gid : ℤ

-- What a read of a path returns.
pub data ReadResult : Type 0 where
  not_exist unreadable : ReadResult
  bytes : String → ReadResult

pub record FileSystem (S : Type 0) : Type 0 where
  pub dir : String → String
  pub base : String → String
  pub read_file : String → S → ReadResult
  pub mkdir_all : String → ℕ → S → S × Bool
  pub create_temp : String → String → S → S × Option String
  pub write : String → String → S → S × Bool
  pub chmod : String → ℕ → S → S × Bool
  pub chown : String → FileOwner → S → S × Bool
  pub sync : String → S → S × Bool
  pub close : String → S → S × Bool
  pub rename : String → String → S → S × Bool
  pub remove : String → S → S × Bool
  pub open_dir : String → S → S × Bool

pub data WriteError : Type 0 where
  create_directory create_temporary write_temporary chmod_temporary chown_temporary : WriteError
  sync_temporary close_temporary rename_temporary open_directory sync_directory : WriteError

module _ {S : Type 0} (fs : FileSystem S) where
  -- `cleanup`
  unfoldable pub cleanup : String → S → S
  cleanup tmp s = (fs.remove tmp (fs.close tmp s).0).0

  -- What to do behind a call: go on, or clean up and return the error.
  unfoldable pub or_cleanup :
      String → WriteError → (S → S × Option WriteError) → S × Bool → S × Option WriteError
  or_cleanup tmp err more done = if done.1 then more done.0 else (cleanup tmp done.0, some err)

  -- The directory is opened, synced and closed.
  unfoldable pub sync_parent : String → S → S × Option WriteError
  sync_parent dir s =
      let opened = fs.open_dir dir s in
      let synced = fs.sync dir opened.0 in
      let closed = (fs.close dir synced.0).0 in
      if not opened.1
      then (opened.0, some open_directory)
      else (if not synced.1 then (closed, some sync_directory) else (closed, none))

  -- From `tmp.Close()` on.
  unfoldable pub replace_file : String → String → String → S → S × Option WriteError
  replace_file dir tmp path s =
      let closed = fs.close tmp s in
      let renamed = fs.rename tmp path closed.0 in
      if not closed.1
      then ((fs.remove tmp closed.0).0, some close_temporary)
      else (if not renamed.1
          then ((fs.remove tmp renamed.0).0, some rename_temporary)
          else sync_parent dir renamed.0)

  -- From `tmp.Write(data)` on.
  unfoldable pub fill_temporary :
      String → String → ℕ → FileOwner → String → String → S → S × Option WriteError
  fill_temporary path content mode owner dir tmp s =
      or_cleanup tmp write_temporary
        (λ s.
          or_cleanup tmp chmod_temporary
            (λ s.
              or_cleanup tmp chown_temporary
                (λ s. or_cleanup tmp sync_temporary (replace_file dir tmp path) (fs.sync tmp s))
                (fs.chown tmp owner s))
            (fs.chmod tmp mode s))
        (fs.write tmp content s)

  -- `atomicWriteFileWithFS`
  unfoldable pub atomic_write_file_with_fs :
      String → String → ℕ → FileOwner → S → S × Option WriteError
  atomic_write_file_with_fs path content mode owner s =
      let dir = fs.dir path in
      let made = fs.mkdir_all dir 448 s in
      let created = fs.create_temp dir ("." ++ fs.base path ++ ".tmp-") made.0 in
      if not made.1 then (made.0, some create_directory) else elim created.1 [
        | none ↦ (created.0, some create_temporary)
        | some tmp ↦ fill_temporary path content mode owner dir tmp created.0
      ]
