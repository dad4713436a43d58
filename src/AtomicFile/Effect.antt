-- ===== src/AtomicFile/Effect.antt =====
-- What atomic_file.go leaves in the file system.
use Prim.Native.String.{◌++◌}
use sync_bridge.Base.{
  ℕ, String, Bool, true, false, Option, none, some, ◌≡◌, ◌≢◌, ◌⊎◌, inl, inr, refl, sym, ◌∙◌, arith,
  Bool-cases, Option-cases, ap,
}
use sync_bridge.AtomicFile.{
  FileSystem, FileOwner, bytes, not_exist, WriteError, cleanup, or_cleanup, sync_parent,
  replace_file, fill_temporary, atomic_write_file_with_fs, close_temporary, rename_temporary,
  write_temporary, chmod_temporary, chown_temporary, sync_temporary,
}

module _ {S : Type 0} (fs : FileSystem S) where
  -- A call that leaves the content of every file.
  abbrev Keeps : S → S → Type 0
  Keeps s t = (p : String) → fs.read_file p t ≡ fs.read_file p s

  -- A call that leaves the content of every file but one.
  abbrev KeepsBut : String → S → S → Type 0
  KeepsBut tmp s t = (p : String) → p ≢ tmp → fs.read_file p t ≡ fs.read_file p s

  -- What POSIX promises of the calls: only creation, writes, removal and renaming change the content
  -- of files; a new file is empty and its name was free; a complete write of an empty file leaves the
  -- data; renaming moves the
  -- content or, when it fails, does nothing. A temporary name is not the name it was made from.
  pub record Lawful : Type 0 where
    pub mkdir_all-keeps : (p : String) (m : ℕ) (s : S) → Keeps s (fs.mkdir_all p m s).0
    pub chmod-keeps : (p : String) (m : ℕ) (s : S) → Keeps s (fs.chmod p m s).0
    pub chown-keeps : (p : String) (o : FileOwner) (s : S) → Keeps s (fs.chown p o s).0
    pub sync-keeps : (p : String) (s : S) → Keeps s (fs.sync p s).0
    pub close-keeps : (p : String) (s : S) → Keeps s (fs.close p s).0
    pub open_dir-keeps : (p : String) (s : S) → Keeps s (fs.open_dir p s).0
    pub remove-keeps : (p : String) (s : S) → KeepsBut p s (fs.remove p s).0
    pub write-keeps : (p d : String) (s : S) → KeepsBut p s (fs.write p d s).0
    pub write-content :
        (p d : String) (s : S)
        → fs.read_file p s ≡ bytes ""
        → (fs.write p d s).1 ≡ true
        → fs.read_file p (fs.write p d s).0 ≡ bytes d
    pub create_temp-fails :
        (d pattern : String) (s : S)
        → (fs.create_temp d pattern s).1 ≡ none
        → Keeps s (fs.create_temp d pattern s).0
    pub create_temp-new :
        (d pattern name : String) (s : S)
        → (fs.create_temp d pattern s).1 ≡ some name
        → (fs.read_file name s ≡ not_exist)
          × (fs.read_file name (fs.create_temp d pattern s).0 ≡ bytes "")
          × KeepsBut name s (fs.create_temp d pattern s).0
    pub create_temp-other :
        (path name : String) (s : S)
        → (fs.create_temp (fs.dir path) ("." ++ fs.base path ++ ".tmp-") s).1 ≡ some name
        → name ≢ path
    pub rename-fails :
        (old new : String) (s : S)
        → (fs.rename old new s).1 ≡ false
        → Keeps s (fs.rename old new s).0
    pub rename-moves :
        (old new : String) (s : S)
        → (fs.rename old new s).1 ≡ true
        → (fs.read_file new (fs.rename old new s).0 ≡ fs.read_file old s)
          × ((p : String)
              → p ≢ old
              → p ≢ new
              → fs.read_file p (fs.rename old new s).0 ≡ fs.read_file p s)

  -- The file is replaced by the data as a whole or left as it was with an error returned, and the
  -- other files are left, save the temporary one.
  abbrev Replaced : String → String → String → S → S × Option WriteError → Type 0
  Replaced tmp path d s done =
      ((fs.read_file path done.0 ≡ bytes d)
        ⊎ ((fs.read_file path done.0 ≡ fs.read_file path s) × (done.1 ≢ none)))
      × ((p : String) → p ≢ path → p ≢ tmp → fs.read_file p done.0 ≡ fs.read_file p s)

  abbrev pub IsAtomic : String → String → S → S × Option WriteError → Type 0
  IsAtomic path d s done =
      ((fs.read_file path done.0 ≡ bytes d)
        ⊎ ((fs.read_file path done.0 ≡ fs.read_file path s) × (done.1 ≢ none)))
      × ((p : String)
          → p ≢ path
          → fs.read_file p s ≢ not_exist
          → fs.read_file p done.0 ≡ fs.read_file p s)

  module _ (lawful : Lawful) (tmp path d : String) (apart : tmp ≢ path) (s : S) where
    -- A failure ahead of the renaming.
    failed-Replaced :
        (t : S) (e : WriteError) → KeepsBut tmp s t → Replaced tmp path d s (t, some e)
    failed-Replaced t e k = (inr (k path (λ q. apart (sym q)), λ q. cc q), λ p h g. k p g)

    cleanup-KeepsBut : (t : S) → KeepsBut tmp s t → KeepsBut tmp s (cleanup fs tmp t)
    unfolding cleanup
    cleanup-KeepsBut t k p h =
        lawful.remove-keeps tmp (fs.close tmp t).0 p h ∙ lawful.close-keeps tmp t p ∙ k p h

    or_cleanup-Replaced :
        (e : WriteError) (more : S → S × Option WriteError) (done : S × Bool)
        → KeepsBut tmp s done.0
        → (done.1 ≡ true → Replaced tmp path d s (more done.0))
        → Replaced tmp path d s (or_cleanup fs tmp e more done)
    unfolding or_cleanup
    or_cleanup-Replaced e more (t, true) k h = h refl
    or_cleanup-Replaced e more (t, false) k h =
        failed-Replaced (cleanup fs tmp t) e (cleanup-KeepsBut t k)

    sync_parent-Keeps : (dir : String) (t : S) → Keeps t (sync_parent fs dir t).0
    unfolding sync_parent
    sync_parent-Keeps dir t p = ground (
      arith,
      lawful.open_dir-keeps dir t p,
      lawful.sync-keeps dir (fs.open_dir dir t).0 p,
      lawful.close-keeps dir (fs.sync dir (fs.open_dir dir t).0).0 p,
    )

    replace_file-Replaced :
        (dir : String) (t : S)
        → KeepsBut tmp s t
        → fs.read_file tmp t ≡ bytes d
        → Replaced tmp path d s (replace_file fs dir tmp path t)
    unfolding replace_file
    replace_file-Replaced dir t k full =
        let closed = fs.close tmp t in
        let renamed = fs.rename tmp path closed.0 in
        let kept : KeepsBut tmp s closed.0 = λ p h. lawful.close-keeps tmp t p ∙ k p h in
        elim (Bool-cases closed.1) [
          | inr c ↦ rw c (
              failed-Replaced (fs.remove tmp closed.0).0 close_temporary
                (λ p h. lawful.remove-keeps tmp closed.0 p h ∙ kept p h))
          | inl c ↦ rw c (elim (Bool-cases renamed.1) [
            | inr m ↦ rw m (
                failed-Replaced (fs.remove tmp renamed.0).0 rename_temporary (λ p h.
                  lawful.remove-keeps tmp renamed.0 p h
                  ∙ lawful.rename-fails tmp path closed.0 m p
                  ∙ kept p h))
            | inl m ↦
                let moved = lawful.rename-moves tmp path closed.0 m in
                let synced = sync_parent-Keeps dir renamed.0 in
                rw m (
                  inl (synced path ∙ moved.0 ∙ lawful.close-keeps tmp t tmp ∙ full),
                  λ p h g. synced p ∙ moved.1 p g h ∙ kept p g,
                )
          ])
        ]

    fill_temporary-Replaced :
        (dir : String) (mode : ℕ) (owner : FileOwner) (t : S)
        → KeepsBut tmp s t
        → fs.read_file tmp t ≡ bytes ""
        → Replaced tmp path d s (fill_temporary fs path d mode owner dir tmp t)
    unfolding fill_temporary
    fill_temporary-Replaced dir mode owner t k empty =
        or_cleanup-Replaced write_temporary _ (fs.write tmp d t)
          (λ p h. lawful.write-keeps tmp d t p h ∙ k p h)
          (λ w.
            let t1 = (fs.write tmp d t).0 in
            let k1 : KeepsBut tmp s t1 = λ p h. lawful.write-keeps tmp d t p h ∙ k p h in
            or_cleanup-Replaced chmod_temporary _ (fs.chmod tmp mode t1)
              (λ p h. lawful.chmod-keeps tmp mode t1 p ∙ k1 p h)
              (λ _.
                let t2 = (fs.chmod tmp mode t1).0 in
                let k2 : KeepsBut tmp s t2 = λ p h. lawful.chmod-keeps tmp mode t1 p ∙ k1 p h in
                or_cleanup-Replaced chown_temporary _ (fs.chown tmp owner t2)
                  (λ p h. lawful.chown-keeps tmp owner t2 p ∙ k2 p h)
                  (λ _.
                    let t3 = (fs.chown tmp owner t2).0 in
                    let k3 : KeepsBut tmp s t3 =
                      λ p h. lawful.chown-keeps tmp owner t2 p ∙ k2 p h in
                    or_cleanup-Replaced sync_temporary _ (fs.sync tmp t3)
                      (λ p h. lawful.sync-keeps tmp t3 p ∙ k3 p h)
                      (λ _.
                        replace_file-Replaced dir (fs.sync tmp t3).0
                          (λ p h. lawful.sync-keeps tmp t3 p ∙ k3 p h)
                          (lawful.sync-keeps tmp t3 tmp
                            ∙ lawful.chown-keeps tmp owner t2 tmp
                            ∙ lawful.chmod-keeps tmp mode t1 tmp
                            ∙ lawful.write-content tmp d t empty w)))))

  -- Whatever fails: afterwards the path holds either the whole of the data or what it held, the data
  -- if no error is returned, and every other file that could be read before is as it was.
  pub atomic_write_file_with_fs-IsAtomic :
      (lawful : Lawful) (path d : String) (mode : ℕ) (owner : FileOwner) (s : S)
      → IsAtomic path d s (atomic_write_file_with_fs fs path d mode owner s)
  unfolding atomic_write_file_with_fs
  atomic_write_file_with_fs-IsAtomic lawful path d mode owner s =
      let made = fs.mkdir_all (fs.dir path) 448 s in
      let k0 = lawful.mkdir_all-keeps (fs.dir path) 448 s in
      let pattern = "." ++ fs.base path ++ ".tmp-" in
      let created = fs.create_temp (fs.dir path) pattern made.0 in
      elim (Bool-cases made.1) [
        | inr m ↦ rw m (inr (k0 path, λ q. cc q), λ p h g. k0 p)
        | inl m ↦ rw m (elim (Option-cases created.1) [
          | inl c ↦
              let k1 = lawful.create_temp-fails (fs.dir path) pattern made.0 c in
              rw c (inr (k1 path ∙ k0 path, λ q. cc q), λ p h g. k1 p ∙ k0 p)
          | inr (tmp, c) ↦
              let new = lawful.create_temp-new (fs.dir path) pattern tmp made.0 c in
              let apart = lawful.create_temp-other path tmp made.0 c in
              let done =
                fill_temporary-Replaced lawful tmp path d apart s (fs.dir path) mode owner created.0
                  (λ p h. new.2 p h ∙ k0 p) new.1 in
              rw c (
                done.0,
                λ p h g. done.1 p h (λ q. g (ap (λ x. fs.read_file x s) q ∙ sym (k0 tmp) ∙ new.0)),
              )
        ])
      ]
