-- ===== src/TraceIo/Next/Laws.antt =====
-- Records that stand in the file are read one after the other.
use mathlib.Core.List.{append_assoc}
use t_espresso.Base.{
  ℕ, zero, suc, ◌+◌, ◌-◌, ◌*◌, ◌/◌, ◌%◌, ◌^◌, ◌<◌, ◌≡◌, refl, sym, ap, ◌∙◌, ◌==◌, true, false,
  if◌then◌else◌, get_or, min, some, List, [], ◌∷◌, ◌++◌, length, length-append, take, drop,
  take-append_left, drop-append_left, le_bytes, length-le_bytes, of_le_bytes-le_bytes, arith,
}
use t_espresso.Bits.Single.{test_bit}
use t_espresso.Record.{
  record_header_unit, record_header_size, record_size, record_get_writemask, record_get_activemask,
  word,
}
use t_espresso.Record.RoundTrip.{get_low, get_high}
use t_espresso.TraceIo.Types.{KernelHeader, TraceRecord}
use t_espresso.TraceIo.Deserialize.{trace_deserialize}
use t_espresso.TraceIo.Open.{Env, Trace, tracefile_read}
use t_espresso.TraceIo.Open.Laws.{read_lem}
use t_espresso.TraceIo.Next.{
  popcount, buf_words, data_count, finished, next, trace_next, read_records,
}

-- Words as the device stores them.
abbrev pub words_bytes : List ℕ → List ℕ
words_bytes [] = []
words_bytes (w ∷ ws) = le_bytes 8 w ++ words_bytes ws

abbrev pub AreWords : List ℕ → Type 0
AreWords [] = Unit {0}
AreWords (w ∷ ws) = (w < 2 ^ 64) × AreWords ws

length-words_bytes : (ws : List ℕ) → length (words_bytes ws) ≡ 8 * length ws
length-words_bytes [] = refl
length-words_bytes (w ∷ ws) = omega (
  arith,
  length-append (le_bytes 8 w) (words_bytes ws),
  length-le_bytes 8 w,
  length-words_bytes ws,
)

words_bytes-append : (xs ys : List ℕ) → words_bytes (xs ++ ys) ≡ words_bytes xs ++ words_bytes ys
words_bytes-append [] ys = refl
words_bytes-append (x ∷ xs) ys =
    ap (λ l. le_bytes 8 x ++ l) (words_bytes-append xs ys)
    ∙ sym (append_assoc (le_bytes 8 x) (words_bytes xs) (words_bytes ys))

buf_words-words_bytes :
    (n : ℕ) (ws : List ℕ) → AreWords ws → length ws ≡ n → buf_words n (words_bytes ws) ≡ ws
unfolding buf_words
buf_words-words_bytes zero [] h e = refl
buf_words-words_bytes (suc n) [] h e = absurd (omega arith)
buf_words-words_bytes zero (w ∷ ws) h e = absurd (omega arith)
buf_words-words_bytes (suc n) (w ∷ ws) (small, h) e =
    rw
      (
        take-append_left 8 (le_bytes 8 w) (words_bytes ws) (length-le_bytes 8 w),
        drop-append_left 8 (le_bytes 8 w) (words_bytes ws) (length-le_bytes 8 w),
        of_le_bytes-le_bytes 8 w (omega arith),
      )
      (ap (λ l. w ∷ l) (buf_words-words_bytes n ws h (omega arith)))

-- How many of the lowest `n` bits of a mask are set.
abbrev pub set_bits : ℕ → ℕ → ℕ
set_bits zero mask = 0
set_bits (suc n) mask = (if test_bit mask n then 1 else 0) + set_bits n mask

-- How many data words a record has whose second header word is `masks`: one for each lane of the
-- write mask, its lower half, or of the active mask, its upper half, when the write mask is 0.
abbrev pub words_of_masks : ℕ → ℕ
words_of_masks masks =
    if masks % 2 ^ 32 == 0 then set_bits 32 (masks / 2 ^ 32) else set_bits 32 (masks % 2 ^ 32)

set_bits-half : (n mask : ℕ) → set_bits (suc n) mask ≡ mask % 2 + set_bits n (mask / 2)
unfolding test_bit
set_bits-half zero mask = ground arith
set_bits-half (suc n) mask = omega (arith, set_bits-half n mask)

popcount_lem : (n mask : ℕ) → popcount n mask ≡ set_bits n mask
unfolding popcount
popcount_lem zero mask = refl
popcount_lem (suc n) mask = omega (arith, set_bits-half n mask, popcount_lem n (mask / 2))

second_word : (header : List ℕ) → AreWords header → get_or header 1 0 < 2 ^ 64
second_word [] small = omega arith
second_word (w ∷ []) small = omega arith
second_word (w ∷ v ∷ ws) (_, (small, _)) = small

data_count_lem :
    (header : List ℕ)
    → get_or header 1 0 < 2 ^ 64
    → data_count header ≡ words_of_masks (get_or header 1 0)
unfolding data_count record_get_writemask record_get_activemask word
data_count_lem header small =
    let w = get_or header 1 0 in
    let high : w / 2 ^ 32 % 2 ^ 32 ≡ w / 2 ^ 32 = omega arith in
    rw (get_low w, get_high w, high, popcount_lem 32 (w / 2 ^ 32), popcount_lem 32 (w % 2 ^ 32))
      refl

-- A record: six header words, and as many data words as their masks say.
pub record Stored : Type 0 where
  pub header : List ℕ
  pub payload : List ℕ

abbrev pub IsStored : Stored → Type 0
IsStored s =
    (length s.header ≡ record_header_unit)
    × (length s.payload ≡ words_of_masks (get_or s.header 1 0))
    × AreWords s.header
    × AreWords (s.header ++ s.payload)

abbrev pub AreStored : List Stored → Type 0
AreStored [] = Unit {0}
AreStored (s ∷ ss) = IsStored s × AreStored ss

abbrev pub stored_bytes : List Stored → List ℕ
stored_bytes [] = []
stored_bytes (s ∷ ss) = words_bytes (s.header ++ s.payload) ++ stored_bytes ss

-- The records one after the other, each read into what the last one left.
abbrev pub decoded : ℕ → List KernelHeader → List Stored → TraceRecord → List TraceRecord
decoded kernel_count kernel_accdat [] r = []
decoded kernel_count kernel_accdat (s ∷ ss) r =
    let r' = trace_deserialize (s.header ++ s.payload) kernel_count kernel_accdat r in
    r' ∷ decoded kernel_count kernel_accdat ss r'

abbrev pub at_bytes : ℕ → List KernelHeader → List ℕ → ℕ → Trace
at_bytes kernel_count kernel_accdat bytes calls = record {
  tracefile = record { bytes = bytes; calls = calls };
  kernel_count = kernel_count;
  kernel_accdat = kernel_accdat;
}

module _ (env : Env) (reads_all : (k n : ℕ) → env.reads k n ≡ some n) (kernel_count : ℕ)
    (kernel_accdat : List KernelHeader) where
  trace_next_lem :
      (s : Stored) (rest : List ℕ) (calls : ℕ) (r : TraceRecord)
      → IsStored s
      → trace_next env
          (at_bytes kernel_count kernel_accdat
            (words_bytes s.header ++ (words_bytes s.payload ++ rest))
            calls)
          r
        ≡ next
            (at_bytes kernel_count kernel_accdat rest (suc (suc calls)))
            (trace_deserialize (s.header ++ s.payload) kernel_count kernel_accdat r)
  unfolding trace_next
  trace_next_lem s rest calls r (six, counts, small, small_2) =
      let counts' : length s.payload ≡ data_count s.header =
        counts ∙ sym (data_count_lem s.header (second_word s.header small)) in
      let size : length (words_bytes s.header) ≡ record_header_size =
        omega (arith, length-words_bytes s.header) in
      let size_2 : length (words_bytes s.payload)
          ≡ record_size (data_count s.header) - record_header_size =
        omega (arith, length-words_bytes s.payload) in
      let joined : buf_words (record_header_unit + data_count s.header)
            (words_bytes s.header ++ words_bytes s.payload)
          ≡ s.header ++ s.payload =
        ap (buf_words (record_header_unit + data_count s.header))
          (sym (words_bytes-append s.header s.payload))
        ∙ buf_words-words_bytes (record_header_unit + data_count s.header) (s.header ++ s.payload)
            small_2 (omega (arith, length-append s.header s.payload)) in
      rw
        (
          read_lem env reads_all (words_bytes s.header) (words_bytes s.payload ++ rest) calls
              record_header_size size,
          buf_words-words_bytes record_header_unit s.header small six,
          read_lem env reads_all (words_bytes s.payload) rest (suc calls)
              (record_size (data_count s.header) - record_header_size) size_2,
          joined,
        )
        refl

  short_read :
      (bytes : List ℕ) (calls n : ℕ)
      → length bytes < n
      → tracefile_read env (record { bytes = bytes; calls = calls }) n ≡ (
        false,
        take (length bytes) bytes,
        record { bytes = drop (length bytes) bytes; calls = suc calls },
      )
  unfolding tracefile_read
  short_read bytes calls n short =
      let there : min n (length bytes) ≡ length bytes = omega arith in
      let less : (length bytes == n) ≡ false = ground arith in
      rw (tracefile_read, there, reads_all calls (length bytes), less) refl

  trace_next_end :
      (bytes : List ℕ) (calls : ℕ) (r : TraceRecord)
      → length bytes < record_header_size
      → trace_next env (at_bytes kernel_count kernel_accdat bytes calls) r ≡ finished
  unfolding trace_next
  trace_next_end bytes calls r short =
      rw (trace_next, short_read bytes calls record_header_size short) refl

  -- When the system gives what is asked for, the loop of the dump tool over a file of records,
  -- each of six header words and as many data words as its masks say, decodes them one after the
  -- other and ends without an error, in one round for each record and one more; fewer bytes than
  -- a header behind the last record are passed over.
  pub read_records-stored_bytes :
      (ss : List Stored) (rest : List ℕ) (calls : ℕ) (r : TraceRecord)
      → AreStored ss
      → length rest < record_header_size
      → read_records
          (suc (length ss))
          env
          (at_bytes kernel_count kernel_accdat (stored_bytes ss ++ rest) calls)
          r
        ≡ (decoded kernel_count kernel_accdat ss r, true)
  unfolding read_records
  read_records-stored_bytes [] rest calls r h short =
      rw (read_records, trace_next_end rest calls r short) refl
  read_records-stored_bytes (s ∷ ss) rest calls r (stored, h) short =
      let r' = trace_deserialize (s.header ++ s.payload) kernel_count kernel_accdat r in
      let flat : stored_bytes (s ∷ ss) ++ rest
          ≡ words_bytes s.header ++ (words_bytes s.payload ++ (stored_bytes ss ++ rest)) =
        rw (words_bytes-append s.header s.payload) (simp append_assoc refl) in
      let again = read_records-stored_bytes ss rest (suc (suc calls)) r' h short in
      rw (flat, read_records, trace_next_lem s (stored_bytes ss ++ rest) calls r stored, again) refl
