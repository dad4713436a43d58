-- ===== src/JobRepository/Loading.antt =====
-- The jobs that loading leaves in memory, where no ID of the file makes the next ID wrap.
use sync_bridge.Base.{
  zero, suc, ◌^◌, Option, ap, int64_suc, int64_suc-small, String, true, false, not, ◌||◌, List, [],
  ◌∷◌, none, some, ℤ, pos, int_ltb, int_suc, lookup, insert, map, ◌==◌, int_keyed, nat_keyed,
  string_keyed, if◌then◌else◌, ◌≡◌, refl, Bool-cases, Option-cases, All, All-map, Unique,
  insert-Unique, insert-All, lookup-All, int_ltb_trans, int_suc_gt, int_ltb_irrefl, int_ltb_asym,
  int_suc_ge, arith, inl, inr,
}
use sync_bridge.Job.{Job}
use Prim.Native.String.{◌++◌}
use sync_bridge.AtomicFile.{
  atomic_write_file_with_fs, WriteError, FileSystem, ReadResult, not_exist, unreadable, bytes,
}
use sync_bridge.JobRepository.Operations.{
  persist_candidate_locked, Environment, load_locked, load_text, load_v2, migrate_legacy_locked,
  migrate_replaced,
}
use sync_bridge.JobRepository.{
  JobStore, LegacyJobStore, RepositoryError, backup_failed, migrated, JobRepository, Loaded,
  replace_jobs, replace_locked,
}

-- An entry stands under its ID, which is positive and below the bound, and has schema version 2.
abbrev pub IsEntry : ℤ → ℤ × Job → Type 0
IsEntry next (id, job) =
    (job.id ≡ id)
    × (job.schema_version ≡ pos 2)
    × (int_ltb id (pos 1) ≡ false)
    × (int_ltb id next ≡ true)

-- No ID stands twice, and the ID to be given out is positive and above every ID in use.
abbrev pub IsWellFormed : JobRepository → Type 0
IsWellFormed r = Unique r.jobs × All (IsEntry r.next) r.jobs × (int_ltb r.next (pos 1) ≡ false)

-- The ID to be given out is free.
pub IsWellFormed-free : (r : JobRepository) → IsWellFormed r → lookup r.next r.jobs ≡ none
IsWellFormed-free r w = elim (Option-cases (lookup r.next r.jobs)) [
  | inl q ↦ q
  | inr (job, q) ↦
      let e = lookup-All (IsEntry r.next) r.jobs r.next job w.1 q in
      absurd (ground (arith, int_ltb_irrefl r.next, e.3))
]

pub IsEntry-raise :
    (next more : ℤ) (x : ℤ × Job) → int_ltb more next ≡ false → IsEntry next x → IsEntry more x
IsEntry-raise next more x h e = (e.0, e.1, e.2, int_ltb_trans x.0 next more e.3 h)

-- One more job, with the bound raised above it.
pub insert-IsWellFormed :
    (r : JobRepository) (job : Job) (next : ℤ)
    → IsWellFormed r
    → job.schema_version ≡ pos 2
    → int_ltb job.id (pos 1) ≡ false
    → int_ltb job.id next ≡ true
    → int_ltb next r.next ≡ false
    → int_ltb next (pos 1) ≡ false
    → IsWellFormed (record r { next = next; jobs = insert job.id job r.jobs })
insert-IsWellFormed r job next w v p b m n = (
  insert-Unique job.id job r.jobs w.0,
  insert-All (IsEntry next) job.id job r.jobs (refl, v, p, b)
      (All-map (λ x e. IsEntry-raise r.next next x m e) r.jobs w.1),
  n,
)

-- An ID far from the end of int64, and a next ID that may follow it.
abbrev pub IsSmall : ℤ → Type 0
IsSmall id = int_ltb id (pos (2 ^ 62)) ≡ true

abbrev pub AtMost : ℤ → Type 0
AtMost next = int_ltb (pos (2 ^ 62)) next ≡ false

-- Where the loop puts the bound: above the job, and not below where it was.
abbrev raised : Job → ℤ → ℤ
raised job next = if int_ltb job.id next then next else int64_suc job.id

small_suc : (id : ℤ) → IsSmall id → (int64_suc id ≡ int_suc id) × AtMost (int64_suc id)
small_suc id h =
    let same = int64_suc-small id (int_ltb_asym id (pos (2 ^ 62)) h) in (same, at_most id h)
  where
    at_most : (id : ℤ) → IsSmall id → AtMost (int64_suc id)
    at_most (pos a) h = ground arith
    at_most (ℤ.negsuc zero) h = refl
    at_most (ℤ.negsuc (suc a)) h = refl

-- Where nothing wraps.
unwrapped :
    (job : Job) (next : ℤ)
    → IsSmall job.id
    → raised job next ≡ (if int_ltb job.id next then next else int_suc job.id)
unwrapped job next small =
    ap (λ n. if int_ltb job.id next then next else n) (small_suc job.id small).0

raised-above : (job : Job) (next : ℤ) → IsSmall job.id → int_ltb job.id (raised job next) ≡ true
raised-above job next small = rw (unwrapped job next small) (ground (arith, int_suc_gt job.id))

raised-ge : (job : Job) (next : ℤ) → IsSmall job.id → int_ltb (raised job next) next ≡ false
raised-ge job next small = rw (unwrapped job next small) (elim (Bool-cases (int_ltb job.id next)) [
  | inl h ↦ rw h (int_ltb_irrefl next)
  | inr h ↦ rw h (int_ltb_asym next (int_suc job.id) (int_suc_ge next job.id h))
])

raised-AtMost : (job : Job) (next : ℤ) → IsSmall job.id → AtMost next → AtMost (raised job next)
raised-AtMost job next small h = elim (Bool-cases (int_ltb job.id next)) [
  | inl b ↦ rw b h
  | inr b ↦ rw b (small_suc job.id small).1
]

raised-positive :
    (job : Job) (next : ℤ)
    → IsSmall job.id
    → int_ltb next (pos 1) ≡ false
    → int_ltb (raised job next) (pos 1) ≡ false
raised-positive job next small h = elim (Bool-cases (int_ltb (raised job next) (pos 1))) [
  | inr q ↦ q
  | inl q ↦
      absurd
        (ground (arith, int_ltb_trans (raised job next) (pos 1) next q h, raised-ge job next small))
]

-- What a load that succeeds says of the next ID.
abbrev pub AtMostIf : Option RepositoryError → ℤ → Type 0
AtMostIf none next = AtMost next
AtMostIf (some e) next = Unit

abbrev pub IsLoaded : Loaded → Type 0
IsLoaded l = IsWellFormed l.repository × AtMostIf l.err l.repository.next

pub replace_jobs-IsLoaded :
    (js : List Job) (r : JobRepository)
    → All (λ (j : Job). IsSmall j.id) js
    → AtMost r.next
    → IsWellFormed r
    → IsLoaded (replace_jobs js r)
unfolding replace_jobs
replace_jobs-IsLoaded [] r small top w = (w, top)
replace_jobs-IsLoaded (job ∷ more) r small top w =
    elim (Bool-cases (int_ltb job.id (pos 1) || not (job.schema_version == pos 2))) [
      | inl bad ↦ rw bad (w, tt)
      | inr ok ↦ rw ok (elim (Option-cases (lookup job.id r.jobs)) [
        | inr (other, q) ↦ rw q (w, tt)
        | inl q ↦ rw q (
            replace_jobs-IsLoaded more
              (record r { next = raised job r.next; jobs = insert job.id job r.jobs }) small.1
              (raised-AtMost job r.next small.0 top)
              (insert-IsWellFormed r job (raised job r.next) w (version ok) (ground arith)
                (raised-above job r.next small.0) (raised-ge job r.next small.0)
                (raised-positive job r.next small.0 w.2)))
      ])
    ]
  where
    version :
        (int_ltb job.id (pos 1) || not (job.schema_version == pos 2)) ≡ false
        → job.schema_version ≡ pos 2
    version ok = (int_keyed.same_iff job.schema_version (pos 2)).0 (ground arith)

pub replace_locked-IsLoaded :
    (next : ℤ) (js : List Job) (r : JobRepository)
    → All (λ (j : Job). IsSmall j.id) js
    → AtMost next
    → IsWellFormed r
    → IsLoaded (replace_locked next js r)
unfolding replace_locked
replace_locked-IsLoaded next js r small top w = elim (Bool-cases (int_ltb next (pos 1))) [
  | inl h ↦ rw h (w, tt)
  | inr h ↦
      rw h (replace_jobs-IsLoaded js (record r { next = next; jobs = [] }) small top (tt, tt, h))
]

-- Migration keeps the IDs.
migrated-IsSmall :
    (js : List Job)
    → All (λ (j : Job). IsSmall j.id) js
    → All (λ (j : Job). IsSmall j.id) (map migrated js)
unfolding migrated
migrated-IsSmall [] h = tt
migrated-IsSmall (job ∷ more) h = (h.0, migrated-IsSmall more h.1)

module _ {S : Type 0} (fs : FileSystem S) (env : Environment S) where
  -- No file holds an ID from 2 ^ 62 on, or a next ID above that.
  pub record HasSmallIds : Type 0 where
    pub v2 :
        (text : String) (store : JobStore)
        → env.parse_v2 text ≡ some store
        → AtMost store.next × All (λ (j : Job). IsSmall j.id) store.jobs
    pub legacy :
        (text : String) (store : LegacyJobStore)
        → env.parse_legacy text ≡ some store
        → AtMost store.next × All (λ (j : Job). IsSmall j.id) store.jobs

  migrate_replaced-IsLoaded :
      (old : String) (s : S) (l : Loaded)
      → IsLoaded l
      → IsLoaded (migrate_replaced fs env old s l).1
  unfolding migrate_replaced
  migrate_replaced-IsLoaded old s l w =
      ended l.err
        (atomic_write_file_with_fs fs (l.repository.path ++ ".v1." ++ env.stamp s ++ ".bak") old 384
          l.repository.owner s)
        w.1
    where
      at_most :
          (o : Option RepositoryError) → AtMost l.repository.next → AtMostIf o l.repository.next
      at_most none h = h
      at_most (some e) h = tt

      ended :
          (e : Option RepositoryError) (backup : S × Option WriteError)
          → AtMostIf e l.repository.next
          → IsLoaded (
              (elim e as (λ _. S × Loaded) [
                | some _ ↦ (s, l)
                | none ↦ elim backup.1 [
                  | some err ↦ (
                    backup.0,
                    record { repository = l.repository; err = some (backup_failed err) },
                  )
                  | none ↦ (
                    (persist_candidate_locked fs env l.repository.next l.repository.jobs
                        l.repository backup.0).0,
                    record {
                      repository = l.repository;
                      err =
                          (persist_candidate_locked fs env l.repository.next l.repository.jobs
                            l.repository backup.0).1;
                    },
                  )
                ]
              ]).1)
      ended (some e) backup h = w
      ended none (t, some err) h = (w.0, tt)
      ended none (t, none) h = (
        w.0,
        at_most
            (persist_candidate_locked fs env l.repository.next l.repository.jobs l.repository t).1
            h,
      )

  module _ (small : HasSmallIds) where
    migrate_legacy_locked-IsLoaded :
        (text : String) (r : JobRepository) (s : S)
        → IsWellFormed r
        → IsLoaded (migrate_legacy_locked fs env text r s).1
    unfolding migrate_legacy_locked
    migrate_legacy_locked-IsLoaded text r s w = elim (Option-cases (env.parse_legacy text)) [
      | inl q ↦ rw (q, migrate_legacy_locked) (w, tt)
      | inr (legacy, q) ↦
          let held = small.legacy text legacy q in
          rw (q, migrate_legacy_locked)
            (elim (Bool-cases (int_ltb legacy.next (pos 1))) [
              | inl h ↦ rw h (w, tt)
              | inr h ↦ rw h (
                  migrate_replaced-IsLoaded text s
                    (replace_jobs (map migrated legacy.jobs)
                      (record r { next = legacy.next; jobs = [] }))
                    (replace_jobs-IsLoaded (map migrated legacy.jobs)
                      (record r { next = legacy.next; jobs = [] })
                      (migrated-IsSmall legacy.jobs held.1) held.0 (tt, tt, h)))
            ])
    ]

    load_v2-IsLoaded :
        (text : String) (version : ℤ) (r : JobRepository) (s : S)
        → IsWellFormed r
        → IsLoaded (load_v2 fs env text version r s).1
    unfolding load_v2
    load_v2-IsLoaded text version r s w = elim (Bool-cases (version == pos 2)) [
      | inr h ↦ rw h (w, tt)
      | inl h ↦ rw h (elim (Option-cases (env.parse_v2 text)) [
        | inl q ↦ rw q (w, tt)
        | inr (store, q) ↦
            let held = small.v2 text store q in
            rw q (replace_locked-IsLoaded store.next store.jobs r held.1 held.0 w)
      ])
    ]

    load_text-IsLoaded :
        (text : String) (r : JobRepository) (s : S)
        → IsWellFormed r
        → IsLoaded (load_text fs env text r s).1
    unfolding load_text
    load_text-IsLoaded text r s w = elim (Bool-cases (text == "")) [
      | inl e ↦ rw e (w, tt)
      | inr e ↦ rw e (elim (Option-cases (env.parse_header text)) [
        | inl q ↦ rw q (w, tt)
        | inr (none, q) ↦ rw q (migrate_legacy_locked-IsLoaded text r s w)
        | inr (some version, q) ↦ rw q (load_v2-IsLoaded text version r s w)
      ])
    ]

    pub load_locked-IsLoaded :
        (r : JobRepository) (s : S) → IsWellFormed r → IsLoaded (load_locked fs env r s).1
    unfolding load_locked
    load_locked-IsLoaded r s w = read (fs.read_file r.path s) refl
      where
        read :
            (found : ReadResult)
            → fs.read_file r.path s ≡ found
            → IsLoaded (load_locked fs env r s).1
        read not_exist q = rw (q, load_locked) ((tt, tt, refl), refl)
        read unreadable q = rw (q, load_locked) (w, tt)
        read (bytes text) q = rw (q, load_locked) (load_text-IsLoaded text r s w)

    pub load_locked-IsWellFormed :
        (r : JobRepository) (s : S)
        → IsWellFormed r
        → IsWellFormed (load_locked fs env r s).1.repository
    load_locked-IsWellFormed r s w = (load_locked-IsLoaded r s w).0
