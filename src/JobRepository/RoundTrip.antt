-- ===== src/JobRepository/RoundTrip.antt =====
-- What job_repository.go writes it loads again: the sorted list of the jobs gives back the map.
use sync_bridge.Base.{
  String, false, List, [], ◌∷◌, Option, none, some, ℤ, pos, int_ltb, lookup, insert, ◌==◌,
  int_keyed, string_keyed, if◌then◌else◌, ◌≡◌, refl, Bool-cases, All, All-map, All-both, Unique,
  Unique-All, lookup-insert, lookup-insert_ne, same-cases, subst, arith, inl, inr, sym, ◌∙◌, ap,
}
use sync_bridge.Job.{Job}
use sync_bridge.AtomicFile.{FileSystem, bytes}
use sync_bridge.JobRepository.{
  JobRepository, JobStore, Loaded, replace_jobs, replace_locked, insert_by_id, sort_by_id,
}
use sync_bridge.JobRepository.Loading.{IsEntry}
use sync_bridge.JobRepository.Operations.{Environment, load_locked, load_text, load_v2}

-- The entries that a list of jobs makes.
abbrev pub entries : List Job → List (ℤ × Job)
entries [] = []
entries (job ∷ more) = (job.id, job) ∷ entries more

lookup-insert_by_id :
    (job : Job) (js : List Job) (k : ℤ)
    → lookup job.id (entries js) ≡ none
    → lookup k (entries (insert_by_id job js))
      ≡ (if job.id == k then some job else lookup k (entries js))
unfolding lookup
lookup-insert_by_id job [] k h = refl
lookup-insert_by_id job (other ∷ more) k h = elim (same-cases other.id job.id) [
  | inl e ↦ absurd (ground (arith, e.0, h))
  | inr e ↦ elim (Bool-cases (int_ltb other.id job.id)) [
    | inr b ↦ rw b refl
    | inl b ↦
        let ih = lookup-insert_by_id job more k (rw e.0 at h) in
        rw b (elim (same-cases other.id k) [
          | inr o ↦ rw o.0 ih
          | inl o ↦ elim (same-cases job.id k) [
            | inl j ↦ absurd (e.1 (o.1 ∙ sym j.1))
            | inr j ↦ rw (o.0, j.0) refl
          ]
        ])
  ]
]

insert_by_id-All {κ} :
    (P : ℤ × Job → Type κ) (job : Job) (js : List Job)
    → P (job.id, job)
    → All P (entries js)
    → All P (entries (insert_by_id job js))
insert_by_id-All P job [] p a = (p, tt)
insert_by_id-All P job (other ∷ more) p a = elim (Bool-cases (int_ltb other.id job.id)) [
  | inl b ↦ rw b (a.0, insert_by_id-All P job more p a.1)
  | inr b ↦ rw b (p, a)
]

insert_by_id-Unique :
    (job : Job) (js : List Job)
    → lookup job.id (entries js) ≡ none
    → Unique (entries js)
    → Unique (entries (insert_by_id job js))
unfolding lookup
insert_by_id-Unique job [] h u = (refl, tt)
insert_by_id-Unique job (other ∷ more) h u = elim (same-cases other.id job.id) [
  | inl e ↦ absurd (ground (arith, e.0, h))
  | inr e ↦ elim (Bool-cases (int_ltb other.id job.id)) [
    | inr b ↦ rw b (h, u)
    | inl b ↦
        let free : lookup job.id (entries more) ≡ none = rw e.0 at h in
        rw b (
          (lookup-insert_by_id job more other.id free
              ∙ ground (arith, same-cases job.id other.id, e.1, u.0)),
          insert_by_id-Unique job more free u.1,
        )
  ]
]

-- The sorted list has the entries of the map.
abbrev Sorts : ℤ → List (ℤ × Job) → List Job → Type 0
Sorts next m js =
    ((k : ℤ) → lookup k (entries js) ≡ lookup k m)
    × Unique (entries js)
    × All (IsEntry next) (entries js)

sort_by_id-Sorts :
    (next : ℤ) (m : List (ℤ × Job)) → Unique m → All (IsEntry next) m → Sorts next m (sort_by_id m)
unfolding lookup
sort_by_id-Sorts next [] u a = (λ k. refl, tt, tt)
sort_by_id-Sorts next ((id, job) ∷ more) u a =
    let (found, unique, all) = sort_by_id-Sorts next more u.1 a.1 in
    let free : lookup job.id (entries (sort_by_id more)) ≡ none =
      found job.id ∙ ap (λ i. lookup i more) a.0.0 ∙ u.0 in
    (
      λ k.
          lookup-insert_by_id job (sort_by_id more) k free
          ∙ ap (λ i. if i == k then some job else lookup k (entries (sort_by_id more))) a.0.0
          ∙ ap (λ t. if id == k then some job else t) (found k),
      insert_by_id-Unique job (sort_by_id more) free unique,
      insert_by_id-All (IsEntry next) job (sort_by_id more)
          (subst (λ i. IsEntry next (i, job)) (sym a.0.0) a.0) all,
    )

abbrev or_else : Option Job → Option Job → Option Job
or_else none o = o
or_else (some job) o = some job

-- What a load finds: the entries of the list, and the bound.
abbrev pub Restores : List (ℤ × Job) → ℤ → Loaded → Type 0
Restores m next l =
    (l.err ≡ none)
    × (l.repository.next ≡ next)
    × ((k : ℤ) → lookup k l.repository.jobs ≡ lookup k m)

-- The loop takes a valid job that is not there.
replace_jobs-step :
    (job : Job) (more : List Job) (r : JobRepository)
    → IsEntry r.next (job.id, job)
    → lookup job.id r.jobs ≡ none
    → replace_jobs (job ∷ more) r ≡ replace_jobs more (record r { jobs = insert job.id job r.jobs })
unfolding replace_jobs
replace_jobs-step job more r e f =
    simp (e.2, e.3, f, (int_keyed.same_iff job.schema_version (pos 2)).1 e.1) refl

-- The loop on distinct valid jobs that are not there yet.
replace_jobs-entries :
    (js : List Job) (r : JobRepository)
    → Unique (entries js)
    → All (IsEntry r.next) (entries js)
    → All (λ (x : ℤ × Job). lookup x.0 r.jobs ≡ none) (entries js)
    → ((replace_jobs js r).err ≡ none)
      × ((replace_jobs js r).repository.next ≡ r.next)
      × ((k : ℤ)
          → lookup k (replace_jobs js r).repository.jobs
            ≡ or_else (lookup k (entries js)) (lookup k r.jobs))
unfolding lookup replace_jobs
replace_jobs-entries [] r u a f = (refl, refl, λ k. refl)
replace_jobs-entries (job ∷ more) r u a f =
    let r2 : JobRepository = record r { jobs = insert job.id job r.jobs } in
    let free =
      All-map
        {P = λ (x : ℤ × Job). (lookup x.0 (entries more) ≡ some x.1) × (lookup x.0 r.jobs ≡ none)}
        {Q = λ (x : ℤ × Job). lookup x.0 r2.jobs ≡ none}
        (λ x h.
          lookup-insert_ne job.id x.0 job r.jobs
            (λ q. absurd (ground (arith, u.0, h.0, ap (λ i. lookup i (entries more)) q)))
          ∙ h.1)
        (entries more) (All-both _ _ (entries more) (Unique-All (entries more) u.1) f.1) in
    let (err, bound, found) = replace_jobs-entries more r2 u.1 a.1 free in
    let step = replace_jobs-step job more r a.0 f.0 in
    (
      ap (λ (l : Loaded). l.err) step ∙ err,
      ap (λ (l : Loaded). l.repository.next) step ∙ bound,
      λ k. ap (λ (l : Loaded). lookup k l.repository.jobs) step ∙ found k ∙ joined k,
    )
  where
    joined :
        (k : ℤ)
        → or_else (lookup k (entries more)) (lookup k (insert job.id job r.jobs))
          ≡ or_else (if job.id == k then some job else lookup k (entries more)) (lookup k r.jobs)
    joined k = elim (same-cases job.id k) [
      | inr q ↦ rw (lookup-insert job.id k job r.jobs) (rw q.0 refl)
      | inl q ↦ rw (lookup-insert job.id k job r.jobs) (
          rw q.0
            (ap (λ o. or_else o (some job)) (ap (λ i. lookup i (entries more)) (sym q.1) ∙ u.0)))
    ]

-- The store that is written for these jobs.
abbrev pub stored : ℤ → List (ℤ × Job) → JobStore
stored next m = record { schema_version = pos 2; next = next; jobs = sort_by_id m }

module _ {S : Type 0} (fs : FileSystem S) (env : Environment S) where
  -- encoding/json reads back this store from the text that it makes of it, behind a newline.
  abbrev pub Encodes : JobStore → String → Type 0
  Encodes store text =
      ((text == "") ≡ false)
      × (env.parse_header text ≡ some (some store.schema_version))
      × (env.parse_v2 text ≡ some store)

  pub load_locked-Restores :
      (r : JobRepository) (s : S) (next : ℤ) (m : List (ℤ × Job)) (text : String)
      → Unique m
      → All (IsEntry next) m
      → int_ltb next (pos 1) ≡ false
      → fs.read_file r.path s ≡ bytes text
      → Encodes (stored next m) text
      → Restores m next (load_locked fs env r s).1
  unfolding load_locked load_text load_v2 replace_locked lookup
  load_locked-Restores r s next m text u a n file enc =
      let (found, unique, all) = sort_by_id-Sorts next m u a in
      let (err, bound, same) =
        replace_jobs-entries (sort_by_id m) (record r { next = next; jobs = [] }) unique all
          (All-map (λ x _. refl) (entries (sort_by_id m)) all) in
      rw (file, enc.0, enc.1, enc.2, n, load_locked)
        (err, bound, λ k. same k ∙ joined (lookup k (entries (sort_by_id m))) ∙ found k)
    where
      joined : (o : Option Job) → or_else o none ≡ o
      joined none = refl
      joined (some job) = refl

  -- A load of such a file changes nothing.
  pub load_locked-leaves :
      (r : JobRepository) (s : S) (next : ℤ) (m : List (ℤ × Job)) (text : String)
      → fs.read_file r.path s ≡ bytes text
      → Encodes (stored next m) text
      → (load_locked fs env r s).0 ≡ s
  unfolding load_locked load_text load_v2
  load_locked-leaves r s next m text file enc = rw (file, enc.0, enc.1, enc.2, load_locked) refl
