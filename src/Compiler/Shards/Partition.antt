-- ===== src/Compiler/Shards/Partition.antt =====
-- What the two ways of cutting promise: consecutive, nonempty shards from 0 on.
use Prim.Native.Nat.add
use native.Mathlib.Decide.{dec_le}
use tile_mem.Common.{
  ltb, ltb→lt, Bool-cases, range_from, All, All-map, ℕ, zero, suc, ◌+◌, ◌-◌, ◌*◌, ◌/◌, ◌≤◌, ◌<◌,
  min, max, ◌≡◌, refl, sym, ap, ◌∙◌, ◌↔◌, inl, inr, List, [], ◌∷◌, arith,
}
use tile_mem.Compiler.Shards.{Shard, fixed_loop, fixed_shards, covering_loop, covering_shards}

-- The ranges run from `a` to `b` without gap or overlap, and none is empty.
abbrev pub Covers : ℕ → ℕ → List Shard → Type 0
Covers a b [] = a ≡ b
Covers a b ((shard, n_start, n_end) ∷ rest) =
    (n_start ≡ a) × (n_start < n_end) × Covers n_end b rest

next_start : (extent w i : ℕ) → min extent ((i + 1) * w) ≡ min extent (min extent (i * w) + w)
next_start extent w i = omega arith

-- The two loop bodies agree.
loops_agree :
    (extent w : ℕ) (shards : List ℕ)
    → 0 < w
    → fixed_loop extent w shards ≡ covering_loop extent w shards
unfolding fixed_loop covering_loop
loops_agree extent w [] h = refl
loops_agree extent w (i ∷ shards) h = ground (arith, loops_agree extent w shards h)

-- Shards from `i` on, as long as the extent lasts.
covering_loop-Covers :
    (extent w i n a b : ℕ)
    → a ≡ min extent (i * w)
    → b ≡ min extent ((i + n) * w)
    → 0 < w
    → Covers a b (covering_loop extent w (range_from i n))
unfolding covering_loop range_from
covering_loop-Covers extent w i zero a b ea eb h = omega arith
covering_loop-Covers extent w i (suc n) a b ea eb h = elim (Bool-cases (ltb (i * w) extent)) [
  | inl e ↦
      let lt : i * w < extent = ltb→lt _ _ e in
      rw e
        (omega arith, grind arith, covering_loop-Covers extent w (i + 1) n _ b refl (omega arith) h)
  | inr e ↦
      let le : extent ≤ i * w = ground arith in
      rw e (covering_loop-Covers extent w (i + 1) n a b (omega arith) (omega arith) h)
]

-- Beyond the shards that the extent needs nothing is added.
covering_loop-beyond :
    (extent w i n : ℕ) → extent ≤ i * w → covering_loop extent w (range_from i n) ≡ []
unfolding covering_loop range_from
covering_loop-beyond extent w i zero h = refl
covering_loop-beyond extent w i (suc n) h =
    ground (arith, covering_loop-beyond extent w (i + 1) n (omega arith))

covering_loop-prefix :
    (extent w i m n : ℕ)
    → m ≤ n
    → extent ≤ (i + m) * w
    → covering_loop extent w (range_from i m) ≡ covering_loop extent w (range_from i n)
unfolding covering_loop range_from
covering_loop-prefix extent w i zero n le h = sym (covering_loop-beyond extent w i n (omega arith))
covering_loop-prefix extent w i (suc m) zero le h = absurd (omega arith)
covering_loop-prefix extent w i (suc m) (suc n) le h =
    ground (arith, covering_loop-prefix extent w (i + 1) m n (omega arith) (omega arith))

needed_suffices : (extent w : ℕ) → 0 < w → extent ≤ (extent + w - 1) / w * w
needed_suffices extent w h = grind arith

-- With a positive `tile_width`, `_fixed_shards` cuts the extent into consecutive, nonempty shards from 0 to the extent, or to
-- where `shard_count` shards (at least one) of `tile_width` end, whichever comes first.
pub fixed_shards-Covers :
    (extent tile_width shard_count : ℕ)
    → 0 < tile_width
    → Covers 0
        (min extent (max 1 shard_count * tile_width))
        (fixed_shards extent tile_width shard_count)
unfolding fixed_shards
fixed_shards-Covers extent w n h =
    rw (loops_agree extent w (range_from 0 (max 1 n)) h)
      (covering_loop-Covers extent w 0 (max 1 n) 0 _ (omega arith) (omega arith) h)

-- The count of `_covering_shards`, capped by what the extent needs, adds the same shards as the
-- uncapped one.
capped_count :
    (extent w shards needed : ℕ)
    → 0 < shards
    → 0 < needed
    → extent ≤ needed * w
    → covering_loop extent w (range_from 0 (max 1 (min shards needed)))
      ≡ covering_loop extent w (range_from 0 shards)
capped_count extent w shards needed hs hn h = elim (dec_le needed shards) [
  | yes le ↦
      let e : max 1 (min shards needed) ≡ needed = omega arith in
      rw e (covering_loop-prefix extent w 0 needed shards le (rw add.zero h))
  | no gt ↦
      let e : max 1 (min shards needed) ≡ shards = omega arith in
      ap (λ k. covering_loop extent w (range_from 0 k)) e
]

needed_pos : (extent w : ℕ) → 0 < extent → 0 < w → 0 < (extent + w - 1) / w
needed_pos extent w he hw = grind arith

-- On a positive extent, by a positive width, the two ways of cutting give the same shards.
pub covering_shards-eq-fixed_shards :
    (extent tile_width shard_count : ℕ)
    → 0 < extent
    → 0 < tile_width
    → covering_shards extent tile_width shard_count ≡ fixed_shards extent tile_width shard_count
unfolding covering_shards fixed_shards
covering_shards-eq-fixed_shards extent w n he hw =
    capped_count extent w (max 1 n) _ (omega arith) (needed_pos extent w he hw)
      (needed_suffices extent w hw)
    ∙ sym (loops_agree extent w (range_from 0 (max 1 n)) hw)

Covers-unique_end :
    (a b c : ℕ) (shards : List Shard) → Covers a b shards → Covers a c shards → b ≡ c
Covers-unique_end a b c [] h k = omega arith
Covers-unique_end a b c ((s, x, y) ∷ shards) h k = Covers-unique_end y b c shards h.2 k.2

-- By a positive width, `_covering_shards` cuts a positive extent into consecutive, nonempty shards from 0
-- to the extent or to where `shard_count` shards (at least one) of `tile_width` end, whichever comes
-- first. They cover the extent exactly when so many shards reach its end.
pub covering_shards-Covers_iff :
    (extent tile_width shard_count : ℕ)
    → 0 < extent
    → 0 < tile_width
    → Covers 0
        (min extent (max 1 shard_count * tile_width))
        (covering_shards extent tile_width shard_count)
      × (Covers 0 extent (covering_shards extent tile_width shard_count)
          ↔ (extent ≤ max 1 shard_count * tile_width))
covering_shards-Covers_iff extent w n he hw =
    rw (covering_shards-eq-fixed_shards extent w n he hw) (
      fixed_shards-Covers extent w n hw,
      (
        λ c. let e = Covers-unique_end 0 _ _ _ c (fixed_shards-Covers extent w n hw) in omega arith,
        λ le.
            let e : min extent (max 1 n * w) ≡ extent = omega arith in
            rw e at (fixed_shards-Covers extent w n hw),
      ),
    )

-- The range is not empty and lies between `a` and `b`.
abbrev pub LiesWithin : ℕ → ℕ → Shard → Type 0
LiesWithin a b (shard, n_start, n_end) = (a ≤ n_start) × (n_start < n_end) × (n_end ≤ b)

LiesWithin-weaken : (a a' b : ℕ) → a ≤ a' → (s : Shard) → LiesWithin a' b s → LiesWithin a b s
LiesWithin-weaken a a' b le (s, x, y) h = (omega arith, h.1, h.2)

Covers-le : (a b : ℕ) (shards : List Shard) → Covers a b shards → a ≤ b
Covers-le a b [] h = omega arith
Covers-le a b ((s, x, y) ∷ shards) h = omega (arith, Covers-le y b shards h.2)

pub Covers-All : (a b : ℕ) (shards : List Shard) → Covers a b shards → All (LiesWithin a b) shards
Covers-All a b [] h = tt
Covers-All a b ((s, x, y) ∷ shards) h = (
  (omega arith, h.1, Covers-le y b shards h.2),
  All-map (LiesWithin-weaken a y b (omega arith)) shards (Covers-All y b shards h.2),
)
