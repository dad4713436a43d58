-- ===== src/LogBuffer/Retention.antt =====
-- What the eviction of log_buffer.go drops: the shortest prefix of the oldest entries that must go.
use sync_bridge.Base.{
  ℕ, zero, suc, ◌-◌, ◌<◌, ◌≡◌, ◌≢◌, ◌⊎◌, refl, true, false, List, [], ◌∷◌, length, drop, arith,
  Bool-cases, inl, inr,
}
use sync_bridge.LogBuffer.{LogEntry, LogBuffer, evicts, evict, trim_before}
use sync_bridge.LogBuffer.Bounds.{total}

-- The oldest entry must go: it is older than a cutoff, or the entries exceed the limit.
abbrev pub MustGo : ℕ → ℕ → List LogEntry → Type 0
MustGo m c [] = ⊥
MustGo m c (e ∷ es) = ((c ≢ 0) × (e.at < c)) ⊎ (m < total (e ∷ es))

evicts-MustGo :
    (m c : ℕ) (e : LogEntry) (es : List LogEntry)
    → evicts m c (total (e ∷ es)) e ≡ true
    → MustGo m c (e ∷ es)
unfolding evicts
evicts-MustGo m c e es h = ground arith

not-evicts-MustGo :
    (m c : ℕ) (e : LogEntry) (es : List LogEntry)
    → evicts m c (total (e ∷ es)) e ≡ false
    → ¬ MustGo m c (e ∷ es)
unfolding evicts
not-evicts-MustGo m c e es h g = ground arith

-- The eviction loop drops some number of the oldest entries, each of which must go when it is the
-- oldest one left, and stops at the first that need not.
abbrev pub Drops : ℕ → ℕ → List LogEntry → List LogEntry → Type 0
Drops m c es kept =
    (k : ℕ) × (kept ≡ drop k es)
    × ((i : ℕ) → i < k → MustGo m c (drop i es))
    × ¬ MustGo m c (drop k es)

Drops-suc :
    (m c : ℕ) (e : LogEntry) (es kept : List LogEntry)
    → MustGo m c (e ∷ es)
    → Drops m c es kept
    → Drops m c (e ∷ es) kept
Drops-suc m c e es kept g (k, p, q, r) = (suc k, p, gone, r)
  where
    gone : (i : ℕ) → i < suc k → MustGo m c (drop i (e ∷ es))
    gone zero h = g
    gone (suc i) h = q i (omega arith)

evict-Drops :
    (m c : ℕ) (es : List LogEntry) (n : ℕ) → n ≡ total es → Drops m c es (evict m c es n).0
unfolding evict
evict-Drops m c [] n h = (0, refl, (λ i l. absurd (omega arith)), λ g. g)
evict-Drops m c (e ∷ es) n h = elim (Bool-cases (evicts m c (total (e ∷ es)) e)) [
  | inl q ↦
      rw (h, q)
        (Drops-suc m c e es (evict m c es (total (e ∷ es) - length e.line)).0
          (evicts-MustGo m c e es q)
          (evict-Drops m c es (total (e ∷ es) - length e.line) (omega arith)))
  | inr q ↦ rw (h, q) (0, refl, (λ i l. absurd (omega arith)), not-evicts-MustGo m c e es q)
]

-- Trimming a buffer whose count is exact drops the shortest prefix of its entries after which the
-- oldest one left is not older than a nonzero cutoff and all that is left fits the byte limit.
pub trim_before-Drops :
    (c : ℕ) (b : LogBuffer)
    → b.bytes ≡ total b.entries
    → Drops b.limits.max_bytes c b.entries (trim_before c b).entries
unfolding trim_before
trim_before-Drops c b h = evict-Drops b.limits.max_bytes c b.entries b.bytes h
