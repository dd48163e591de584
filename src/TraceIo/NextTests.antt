-- ===== src/TraceIo/NextTests.antt =====
-- Reading records at concrete values.
use t_espresso.Base.{
  ◌+◌, ◌*◌, ◌^◌, List, ◌≡◌, refl, true, none, some, [], ◌∷◌, ◌++◌, replicate, arith,
}
use t_espresso.TraceIo.Types.{TraceRecord, empty_inst, empty_kernel}
use t_espresso.Bits.Single.{test_bit}
use t_espresso.TraceIo.Open.{Env}
use t_espresso.TraceIo.Next.{read_records}
use t_espresso.TraceIo.Next.Laws.{
  Stored, AreStored, stored_bytes, decoded, at_bytes, read_records-stored_bytes,
}

-- A system that gives what is asked for.
abbrev all_given : Env
all_given = record {
  reads = λ k n. some n;
  grants = λ n. true;
  kernel_memory = λ n. none;
  usable = λ n. n;
}

-- A record whose one data word is that of lane 0.
abbrev one_lane : Stored
one_lane = record { header = 1 ∷ (2 ^ 32 + 1) ∷ 3 ∷ 4 ∷ 5 ∷ 6 ∷ []; payload = 7 ∷ [] }

-- A record of three active lanes of which none writes.
abbrev silent : Stored
silent = record { header = 1 ∷ 7 * 2 ^ 32 ∷ 3 ∷ 4 ∷ 5 ∷ 6 ∷ []; payload = 7 ∷ 8 ∷ 9 ∷ [] }

-- A record of three active lanes of which two write.
abbrev two_write : Stored
two_write = record { header = 1 ∷ (7 * 2 ^ 32 + 5) ∷ 3 ∷ 4 ∷ 5 ∷ 6 ∷ []; payload = 7 ∷ 8 ∷ [] }

abbrev three_records : List Stored
three_records = one_lane ∷ silent ∷ two_write ∷ []

abbrev unread : TraceRecord
unread = record {
  kernel_info = empty_kernel;
  inst_info = empty_inst;
  warpv = 0;
  activemask = 0;
  writemask = 0;
  ctaid = record { x = 0; y = 0; z = 0 };
  grid = 0;
  warpp = 0;
  sm = 0;
  msb = 0;
  clock = 0;
  thread_data = replicate 32 0;
}

three_records-AreStored : AreStored three_records
unfolding test_bit
three_records-AreStored = (
  (
    refl,
    refl,
    (omega arith, (omega arith, (omega arith, (omega arith, (omega arith, (omega arith, tt)))))),
    (
      omega arith,
      (omega arith, (omega arith, (omega arith, (omega arith, (omega arith, (omega arith, tt)))))),
    ),
  ),
  (
    (
      refl,
      refl,
      (omega arith, (omega arith, (omega arith, (omega arith, (omega arith, (omega arith, tt)))))),
      (
        omega arith,
        (
          omega arith,
          (
            omega arith,
            (
              omega arith,
              (omega arith, (omega arith, (omega arith, (omega arith, (omega arith, tt))))),
            ),
          ),
        ),
      ),
    ),
    (
      (
        refl,
        refl,
        (
          omega arith,
          (omega arith, (omega arith, (omega arith, (omega arith, (omega arith, tt))))),
        ),
        (
          omega arith,
          (
            omega arith,
            (
              omega arith,
              (omega arith, (omega arith, (omega arith, (omega arith, (omega arith, tt))))),
            ),
          ),
        ),
      ),
      tt,
    ),
  ),
)

read_records-stored_bytes_example :
    read_records 4 all_given
      (at_bytes 1 (empty_kernel ∷ []) (stored_bytes three_records ++ (1 ∷ [])) 4)
      unread
    ≡ (decoded 1 (empty_kernel ∷ []) three_records unread, true)
read_records-stored_bytes_example =
    read_records-stored_bytes all_given (λ k n. refl) 1 (empty_kernel ∷ []) three_records (1 ∷ []) 4
      unread three_records-AreStored (omega arith)
