-- ===== src/PlanCompiler/Setting.antt =====
-- What stands in the environment that `compileEnvironment` of execution_plan.go makes.
use sync_bridge.Job.{Job}
use sync_bridge.PlanCompiler.Types.{bad_entry, PlanText, RunRequest}
use sync_bridge.PlanCompiler.Capabilities.{detail, text_or_empty}
use sync_bridge.PlanCompiler.Environment.{
  insert_name, sorted_names, assignments, parsed_entry, add_entries, reserved, compile_environment,
  base_values,
}
use sync_bridge.PlanCompiler.Patterns.{cut, behind_char, is_environment_name, has_nul}
use Prim.Native.String.{◌++◌, compare as compare_text}
use Prim.Native.String.append
use Prim.Native.Char.{Char, code}
use text.Mathlib.TextEquality.{codes_equal}
use text.Mathlib.Text.{is_lt}
use Prim.Native.Nat.{compare}
use Prim.Native.String.{String}
use sync_bridge.Base.{
  none, some, String, ◌==◌, ◌≡◌, true, nat_keyed, Option, ap, sym, Bool-cases, inl, ◌∙◌, inr,
  if◌then◌else◌, nat_beq_iff, elem, lookup, List, ◌∷◌, [], same-cases, subst, string_keyed,
  elem-head, elem-tail, elem-if, elem-tail_of_ne, ok, elem-cons_mono, ok-inj, ◌||◌, >>=-ok,
  refuse_if-ok, not, insert, lookup-insert_self, elem-nil, false, Bool, lookup-insert_ne, refl,
  or-left, or-right,
}

-- The character of this code.
cut-char : (c : Char) (s : String) → (code c == b'=') ≡ true → String.◌∷◌ c s ≡ "" ++ ("=" ++ s)
cut-char c s h =
    ap (λ d. String.◌∷◌ d s)
      (codes_equal c "=" (ap (λ n. compare n b'=') ((nat_beq_iff (code c) b'=').0 h)))
    ∙ sym (append.nil ("=" ++ s) ∙ append.cons "=" "" s ∙ ap (λ t. String.◌∷◌ "=" t) (append.nil s))

behind_char-some :
    (c : Char) (o : Option (String × String)) (p : String × String)
    → behind_char c o ≡ some p
    → (name : String) × (o ≡ some (name, p.1)) × (p.0 ≡ String.◌∷◌ c name)
behind_char-some c none p h = absurd (cc h)
behind_char-some c (some (name, value)) p h =
    let same : (String.◌∷◌ c name, value) ≡ p = cc h in
    (
      name,
      ap (λ (q : String × String). some (name, q.1)) same,
      sym (ap (λ (q : String × String). q.0) same),
    )

-- What is cut at the first `=` is the text around it.
cut-join : (s : String) (p : String × String) → cut b'=' s ≡ some p → s ≡ p.0 ++ ("=" ++ p.1)
unfolding cut
cut-join String.[] p h = absurd (cc h)
cut-join (String.◌∷◌ c s) p h = elim (Bool-cases (code c == b'=')) [
  | inl q ↦
      let same : ("", s) ≡ p = cc (h, q) in
      cut-char c s q ∙ ap (λ (x : String × String). x.0 ++ ("=" ++ x.1)) same
  | inr q ↦
      let (name, inner, head) =
        behind_char-some c (cut b'=' s) p
          (ap (λ b. if b then some ("", s) else behind_char c (cut b'=' s)) (sym q) ∙ h) in
      ap (λ t. String.◌∷◌ c t) (cut-join s (name, p.1) inner)
      ∙ sym (append.cons c name ("=" ++ p.1))
      ∙ ap (λ t. t ++ ("=" ++ p.1)) (sym head)
]

elem-insert_name_self :
    (name : String) (more : List String) → elem name (insert_name name more) ≡ true
unfolding insert_name
elem-insert_name_self name [] = elem-head name []
elem-insert_name_self name (other ∷ more) =
    elem-if name (is_lt (compare_text other name)) (other ∷ insert_name name more)
      (name ∷ other ∷ more)
      (elem-tail name other (insert_name name more) (elem-insert_name_self name more))
      (elem-head name (other ∷ more))

elem-insert_name_other :
    (k name : String) (more : List String)
    → elem k more ≡ true
    → elem k (insert_name name more) ≡ true
unfolding insert_name
elem-insert_name_other k name [] h = elem-tail k name [] h
elem-insert_name_other k name (other ∷ more) h =
    elem-if k (is_lt (compare_text other name)) (other ∷ insert_name name more)
      (name ∷ other ∷ more)
      (elem-cons_mono k other more (insert_name name more) (elem-insert_name_other k name more) h)
      (elem-tail k name (other ∷ more) h)

elem-sorted_names :
    (k : String) (values : List (String × String)) (v : String)
    → lookup k values ≡ some v
    → elem k (sorted_names values) ≡ true
unfolding lookup sorted_names
elem-sorted_names k [] v h = absurd (cc h)
elem-sorted_names k ((name, value) ∷ more) v h = elim (same-cases name k) [
  | inl q ↦
      subst (λ n. elem n (insert_name name (sorted_names more)) ≡ true) q.1
        (elem-insert_name_self name (sorted_names more))
  | inr q ↦
      elem-insert_name_other k name (sorted_names more) (
        elem-sorted_names k more v
          (ap (λ b. if b then some value else lookup k more) (sym q.0) ∙ h))
]

elem-assignments :
    (k : String) (values : List (String × String)) (names : List String)
    → elem k names ≡ true
    → elem (k ++ "=" ++ detail values k) (assignments values names) ≡ true
unfolding assignments
elem-assignments k values [] h = absurd (elem-nil k h)
elem-assignments k values (name ∷ more) h = elim (same-cases name k) [
  | inl q ↦
      subst (λ n. elem (n ++ "=" ++ detail values n) (assignments values (name ∷ more)) ≡ true) q.1
        (elem-head (name ++ "=" ++ detail values name) (assignments values more))
  | inr q ↦
      elem-tail (k ++ "=" ++ detail values k) (name ++ "=" ++ detail values name)
        (assignments values more)
        (elem-assignments k values more (elem-tail_of_ne k name more q.0 h))
]

-- A name with this value stands in the environment made of the values.
elem-value :
    (k v : String) (values : List (String × String))
    → lookup k values ≡ some v
    → elem (k ++ "=" ++ v) (assignments values (sorted_names values)) ≡ true
elem-value k v values h =
    subst (λ w. elem (k ++ "=" ++ w) (assignments values (sorted_names values)) ≡ true)
      (ap text_or_empty h)
      (elem-assignments k values (sorted_names values) (elem-sorted_names k values v h))

parsed_entry-ok :
    (entry : String) (o : Option (String × String)) (p : String × String)
    → parsed_entry entry o ≡ ok p
    → o ≡ some p
parsed_entry-ok entry none p h = absurd (cc h)
parsed_entry-ok entry (some q) p h = ap some (
    ok-inj
      (refuse_if-ok (not (is_environment_name q.0) || has_nul q.1) (bad_entry entry) (ok q) h).1)

-- The round of the loop for an entry, when the loop succeeds.
add_entries-cons :
    (entry : String) (more seen : List String) (values out : List (String × String))
    → add_entries (entry ∷ more) seen values ≡ ok out
    → (p : String × String) × (cut b'=' entry ≡ some p)
      × (elem p.0 reserved ≡ false)
      × (elem p.0 seen ≡ false)
      × (add_entries more (p.0 ∷ seen) (insert p.0 p.1 values) ≡ ok out)
unfolding add_entries
add_entries-cons entry more seen values out h =
    let (p, parsed, h1) = >>=-ok (parsed_entry entry (cut b'=' entry)) _ h in
    let (free, h2) = refuse_if-ok _ _ _ h1 in
    let (fresh, h3) = refuse_if-ok _ _ _ h2 in
    (p, parsed_entry-ok entry (cut b'=' entry) p parsed, free, fresh, h3)

pub or-grows : (x s r : Bool) → (s || r) ≡ true → ((x || s) || r) ≡ true
or-grows true s r h = refl
or-grows false s r h = h

elem-grows :
    (k x : String) (seen : List String)
    → (elem k seen || elem k reserved) ≡ true
    → (elem k (x ∷ seen) || elem k reserved) ≡ true
unfolding elem
elem-grows k x seen h = or-grows (x == k) (elem k seen) (elem k reserved) h

-- A name that was met or is reserved keeps its value.
add_entries-keeps :
    (k : String) (es seen : List String) (values out : List (String × String))
    → add_entries es seen values ≡ ok out
    → (elem k seen || elem k reserved) ≡ true
    → lookup k out ≡ lookup k values
unfolding add_entries
add_entries-keeps k [] seen values out h taken = ap (lookup k) (sym (ok-inj h))
add_entries-keeps k (entry ∷ more) seen values out h taken =
    let (p, parsed, free, fresh, rest) = add_entries-cons entry more seen values out h in
    elim (same-cases p.0 k) [
      | inl q ↦ absurd (cc (taken, fresh, free, q.1))
      | inr q ↦
          add_entries-keeps k more (p.0 ∷ seen) (insert p.0 p.1 values) out rest
            (elem-grows k p.0 seen taken)
          ∙ lookup-insert_ne p.0 k p.1 values q.1
    ]

-- An entry of the job reads back from the values.
add_entries-adds :
    (entry : String) (es seen : List String) (values out : List (String × String))
    → add_entries es seen values ≡ ok out
    → elem entry es ≡ true
    → (p : String × String) × (entry ≡ p.0 ++ ("=" ++ p.1)) × (lookup p.0 out ≡ some p.1)
add_entries-adds entry [] seen values out h e = absurd (elem-nil entry e)
add_entries-adds entry (first ∷ more) seen values out h e =
    let (p, parsed, free, fresh, rest) = add_entries-cons first more seen values out h in
    elim (same-cases first entry) [
      | inl q ↦ (
        p,
        sym q.1 ∙ cut-join first p parsed,
        add_entries-keeps p.0 more (p.0 ∷ seen) (insert p.0 p.1 values) out rest
              (or-left (elem p.0 (p.0 ∷ seen)) (elem p.0 reserved) (elem-head p.0 seen))
            ∙ lookup-insert_self p.0 p.1 values,
      )
      | inr q ↦
          add_entries-adds entry more (p.0 ∷ seen) (insert p.0 p.1 values) out rest
            (elem-tail_of_ne entry first more q.0 e)
    ]

-- In the environment that is made of a job stands every entry of the job, as it was written.
pub compile_environment-entries :
    (text : PlanText) (job : Job) (request : RunRequest) (environment : List String)
    (entry : String)
    → compile_environment text job request ≡ ok environment
    → elem entry job.execution.environment ≡ true
    → elem entry environment ≡ true
unfolding compile_environment
compile_environment-entries text job request environment entry h e =
    let base = base_values text job request in
    let (values, added, made) = >>=-ok (add_entries job.execution.environment [] base) _ h in
    let (p, eq, found) = add_entries-adds entry job.execution.environment [] base values added e in
    subst (λ env. elem entry env ≡ true) (ok-inj made)
      (subst (λ x. elem x (assignments values (sorted_names values)) ≡ true) (sym eq)
        (elem-value p.0 p.1 values found))

-- In the environment that is made of a job each reserved name that the run sets, such as
-- SYNCBRIDGE_RUN_ID, stands with the run's value, whatever the entries of the job.
pub compile_environment-reserved :
    (text : PlanText) (job : Job) (request : RunRequest) (environment : List String)
    (name value : String)
    → compile_environment text job request ≡ ok environment
    → elem name reserved ≡ true
    → lookup name (base_values text job request) ≡ some value
    → elem (name ++ "=" ++ value) environment ≡ true
unfolding compile_environment
compile_environment-reserved text job request environment name value h taken found =
    let base = base_values text job request in
    let (values, added, made) = >>=-ok (add_entries job.execution.environment [] base) _ h in
    let kept =
      add_entries-keeps name job.execution.environment [] base values added
        (or-right (elem name []) (elem name reserved) taken) in
    subst (λ env. elem (name ++ "=" ++ value) env ≡ true) (ok-inj made)
      (elem-value name value values (kept ∙ found))
