-- ===== src/Device/Slot/Laws.antt =====
-- The slot of a multiprocessor: what is not flushed is not overwritten, and when a flush is
-- requested.
use t_espresso.Base.{
  ℕ, ◌+◌, ◌-◌, ◌/◌, ◌%◌, ◌^◌, ◌≤◌, ◌<◌, ◌≡◌, ◌≢◌, ◌↔◌, refl, true, false, ◌&&◌, ltb, leb, sub32,
  sub64, u32, arith, Bool-cases, inl, inr, subst, List, [], ◌∷◌,
}
use t_espresso.Record.{record_size_max, slot_size}
use t_espresso.Device.Slot.{
  Counters, rec_offset, must_wait, rec_byte, flush_unit, flush_threshold, requests_flush,
  add_commit, request_flush,
}

sub32_lem :
    (start done : ℕ)
    → done ≤ start
    → start - done < 2 ^ 32
    → sub32 (u32 start) (u32 done) ≡ start - done
sub32_lem start done h k = omega arith

rec_byte_lem : (start i : ℕ) → rec_byte (u32 start) i ≡ (start + i) % slot_size
unfolding rec_byte rec_offset
rec_byte_lem start i = omega arith

free_lem :
    (start done : ℕ)
    → done ≤ start
    → start - done < 2 ^ 32
    → must_wait (u32 start) (u32 done) ≡ false
    → start < done + (slot_size - record_size_max)
unfolding must_wait
free_lem start done h k free = ground (arith, sub32_lem start done h k)

crosses_iff :
    (n record_size : ℕ)
    → record_size ≤ record_size_max
    → ((leb flush_threshold (n % flush_unit)
          && ltb ((n + record_size) % flush_unit) flush_threshold)
        ≡ true)
      ↔ (n / flush_unit < (n + record_size) / flush_unit)
crosses_iff n record_size small = ground arith

-- A warp that is through the waiting loop, having been given the bytes from `start` on while the
-- host has flushed the bytes below `done`, ends its record at most a slot after `done`, and stores
-- no byte of it where a byte between `done` and `start` is kept, which the host has not flushed.
pub must_wait-rec_byte :
    (start done record_size : ℕ)
    → done ≤ start
    → start - done < 2 ^ 32
    → record_size ≤ record_size_max
    → must_wait (u32 start) (u32 done) ≡ false
    → (i p : ℕ) → i < record_size
    → done ≤ p
    → p < start
    → (start + record_size ≤ done + slot_size) × (rec_byte (u32 start) i ≢ p % slot_size)
must_wait-rec_byte start done record_size h k small free i p below from to =
    let room = free_lem start done h k free in
    (omega arith, λ e. omega (arith, rec_byte_lem start i))

-- With `n` bytes committed since the flush that the warp has seen, committing a record requests a
-- flush exactly if the commits reach the next multiple of the flush unit.
pub requests_flush_iff :
    (done n record_size : ℕ)
    → n + record_size < 2 ^ 32
    → record_size ≤ record_size_max
    → (requests_flush (u32 (done + n + record_size)) (u32 done) record_size ≡ true)
      ↔ (n / flush_unit < (n + record_size) / flush_unit)
unfolding requests_flush
requests_flush_iff done n record_size h small =
    let e : sub32 (u32 (done + n + record_size)) (u32 done) ≡ n + record_size = omega arith in
    let f : sub64 (n + record_size) record_size ≡ n = omega arith in
    rw (e, f) (crosses_iff n record_size small)

-- A warp that commits a record and requests a flush for it before another warp commits.
abbrev commit_record : Counters → ℕ → ℕ → Counters
commit_record c flushed_cur size =
    let (commit_raw, c') = add_commit c size in request_flush c' commit_raw flushed_cur size

-- The commits of records of these sizes by warps that have seen the same flush, each of which is
-- through with its request before the next one commits.
abbrev pub commit_all : Counters → ℕ → List ℕ → Counters
commit_all c flushed_cur [] = c
commit_all c flushed_cur (size ∷ sizes) =
    commit_all (commit_record c flushed_cur size) flushed_cur sizes

abbrev pub sum : List ℕ → ℕ
sum [] = 0
sum (x ∷ xs) = x + sum xs

abbrev pub AreRecords : List ℕ → Type 0
AreRecords [] = Unit {0}
AreRecords (size ∷ sizes) = (size ≤ record_size_max) × AreRecords sizes

-- `n` bytes are committed since `done`, and the flush of `m` of them is requested, which are
-- those of all the flush units that are complete.
abbrev pub IsSignalled : Counters → ℕ → ℕ → ℕ → Type 0
IsSignalled c done n m =
    (c.commit ≡ u32 (done + n))
    × (c.signal ≡ u32 (done + m))
    × (m ≤ n)
    × (m / flush_unit ≡ n / flush_unit)

commit_record-IsSignalled :
    (c : Counters) (done n m size : ℕ)
    → n + size < 2 ^ 32
    → size ≤ record_size_max
    → IsSignalled c done n m
    → (m' : ℕ) × IsSignalled (commit_record c (u32 done) size) done (n + size) m'
unfolding add_commit request_flush
commit_record-IsSignalled c done n m size h small (at_n, at_m, below, complete) =
    let raw : u32 (c.commit + size) ≡ u32 (done + n + size) = omega arith in
    let iff = requests_flush_iff done n size h small in
    elim (Bool-cases (requests_flush (u32 (done + n + size)) (u32 done) size)) [
      | inl asked ↦ (n + size, ground (arith, raw, asked))
      | inr quiet ↦ (m, ground (arith, raw, quiet, iff))
    ]

commit_all-from :
    (c : Counters) (done n m : ℕ) (sizes : List ℕ)
    → n + sum sizes < 2 ^ 32
    → AreRecords sizes
    → IsSignalled c done n m
    → (m' : ℕ) × IsSignalled (commit_all c (u32 done) sizes) done (n + sum sizes) m'
commit_all-from c done n m [] h records signalled =
    (m, subst (λ k. IsSignalled c done k m) (let e : n ≡ n + 0 = omega arith in e) signalled)
commit_all-from c done n m (size ∷ sizes) h (small, records) signalled =
    let (m₁, s₁) = commit_record-IsSignalled c done n m size (omega arith) small signalled in
    let (m₂, s₂) =
      commit_all-from (commit_record c (u32 done) size) done (n + size) m₁ sizes (omega arith)
        records s₁ in
    (
      m₂,
      subst (λ k. IsSignalled (commit_all c (u32 done) (size ∷ sizes)) done k m₂)
          (let e : (n + size) + sum sizes ≡ n + (size + sum sizes) = omega arith in e) s₂,
    )

-- From counters at which all that is committed is flushed, warps that have all seen this flush and
-- commit records of at most the largest size one after the other, each through with its flush
-- request before the next one commits, leave a commit counter that has moved by the sum
-- of the sizes, and a requested flush of the complete flush units among them, so that what is
-- committed and not requested is less than a flush unit.
pub commit_all-signal :
    (c : Counters) (done : ℕ) (sizes : List ℕ)
    → sum sizes < 2 ^ 32
    → AreRecords sizes
    → c.commit ≡ u32 done
    → c.signal ≡ u32 done
    → (m : ℕ) × ((commit_all c (u32 done) sizes).commit ≡ u32 (done + sum sizes))
      × ((commit_all c (u32 done) sizes).signal ≡ u32 (done + m))
      × (m ≤ sum sizes)
      × (m / flush_unit ≡ sum sizes / flush_unit)
      × (sum sizes - m < flush_unit)
commit_all-signal c done sizes h records at_commit at_signal =
    let (m, (n_eq, m_eq, below, complete)) =
      commit_all-from c done 0 0 sizes (omega arith) records
        (omega (arith, at_commit), omega (arith, at_signal), omega arith, refl) in
    (m, omega (arith, n_eq), m_eq, omega arith, omega (arith, complete), omega (arith, complete))
