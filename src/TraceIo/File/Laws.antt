-- ===== src/TraceIo/File/Laws.antt =====
-- The buffered writes of lib/trace-io.h put the bytes into the file in order.
use t_espresso.Base.{
  ℕ, suc, ◌+◌, ◌≤◌, ◌≡◌, refl, sym, ap, ◌∙◌, Bool, true, false, ltb, leb, some, List, [], ◌∷◌, ◌++◌,
  arith, length, length-append, take_all, le_bytes, length-le_bytes, Bool-cases, inl, inr,
}
use mathlib.Core.List.{append_assoc, append-nil}
use t_espresso.TraceIo.Types.{tracefile_buf_size, trace_header_prefix, trace_header_postfix}
use t_espresso.TraceIo.File.{
  Os, TraceFile, sys_write, flush, tracefile_write, tracefile_close, write_chunks,
  trace_write_header,
}

abbrev pub concat : List (List ℕ) → List ℕ
concat [] = []
concat (c ∷ cs) = c ++ concat cs

-- Every chunk fits the buffer.
abbrev pub FitAll : List (List ℕ) → Type 0
FitAll [] = Unit {0}
FitAll (c ∷ cs) = (length c ≤ tracefile_buf_size) × FitAll cs

flush-buf : (os : Os) (t : TraceFile) → (flush os t).1.buf ≡ []
unfolding flush
flush-buf os t = refl

-- The buffer keeps within its size, and a chunk that fits the buffer is never copied past its end,
-- whatever the system takes.
pub tracefile_write_bounds :
    (os : Os) (t : TraceFile) (src : List ℕ)
    → length t.buf ≤ tracefile_buf_size
    → length src ≤ tracefile_buf_size
    → (r : Bool) × (t' : TraceFile) × (tracefile_write os t src ≡ some (r, t'))
      × (length t'.buf ≤ tracefile_buf_size)
unfolding tracefile_write
tracefile_write_bounds os t src h k =
    elim (Bool-cases (leb tracefile_buf_size (length t.buf + length src))) [
      | inl full ↦ (
        (flush os t).0,
        record (flush os t).1 { buf = src },
        rw (full, flush-buf os t) (ground arith),
        k,
      )
      | inr room ↦ (
        true,
        record t { buf = t.buf ++ src },
        rw room (ground arith),
        ground (arith, length-append t.buf src),
      )
    ]

module _ (os : Os) (takes_all : (k n : ℕ) → os.accepts k n ≡ some n) where
  -- What is in the file together with what is in the buffer.
  abbrev pub contents : TraceFile → List ℕ
  contents t = t.file ++ t.buf

  flush_lem :
      (t : TraceFile)
      → (r : TraceFile) × (flush os t ≡ (true, r)) × (r.file ≡ contents t) × (r.buf ≡ [])
  unfolding flush sys_write
  flush_lem t = (
    record t { file = contents t; buf = []; calls = suc t.calls },
    ground (arith, takes_all t.calls (length t.buf), take_all (length t.buf) t.buf (omega arith)),
    refl,
    refl,
  )

  pub write_lem :
      (t : TraceFile) (src : List ℕ)
      → length src ≤ tracefile_buf_size
      → (t' : TraceFile) × (tracefile_write os t src ≡ some (true, t'))
        × (contents t' ≡ contents t ++ src)
  unfolding tracefile_write
  write_lem t src h = elim (Bool-cases (leb tracefile_buf_size (length t.buf + length src))) [
    | inl full ↦
        let (r, e, in_file, empty) = flush_lem t in
        (record r { buf = src }, rw (full, e, empty) (ground arith), rw in_file)
    | inr room ↦ (
      record t { buf = t.buf ++ src },
      rw room (ground arith),
      sym (append_assoc t.file t.buf src),
    )
  ]

  write_chunks_lem :
      (t : TraceFile) (chunks : List (List ℕ))
      → FitAll chunks
      → (t' : TraceFile) × (write_chunks os t chunks ≡ some (true, t'))
        × (contents t' ≡ contents t ++ concat chunks)
  unfolding write_chunks
  write_chunks_lem t [] h = (t, refl, sym (append-nil (contents t)))
  write_chunks_lem t (c ∷ cs) h =
      let (t₁, e₁, f₁) = write_lem t c h.0 in
      let (t₂, e₂, f₂) = write_chunks_lem t₁ cs h.1 in
      (
        t₂,
        ground (arith, e₁, e₂),
        f₂ ∙ ap (λ x. x ++ concat cs) f₁ ∙ append_assoc (contents t) c (concat cs),
      )

  pub close_lem : (t : TraceFile) → (tracefile_close os t).1 ≡ contents t
  unfolding tracefile_close sys_write
  close_lem t = nothing_left (ltb 0 (length t.buf)) refl
    where
      none_buffered : (b : List ℕ) → ltb 0 (length b) ≡ false → b ≡ []
      none_buffered [] e = refl
      none_buffered (x ∷ b) e = absurd (ground arith)

      nothing_left : (b : Bool) → ltb 0 (length t.buf) ≡ b → (tracefile_close os t).1 ≡ contents t
      nothing_left true e =
          ground (
            arith,
            e,
            takes_all t.calls (length t.buf),
            take_all (length t.buf) t.buf (omega arith),
          )
      nothing_left false e = ground (arith, e, none_buffered t.buf e, append-nil t.file)

  -- Once the system takes what it is given, writing any sequence of chunks that fit the buffer
  -- succeeds, and closing leaves in the file what was there, what was buffered, and the chunks,
  -- in this order.
  pub write_chunks-close :
      (t : TraceFile) (chunks : List (List ℕ))
      → FitAll chunks
      → (t' : TraceFile) × (write_chunks os t chunks ≡ some (true, t'))
        × ((tracefile_close os t').1 ≡ contents t ++ concat chunks)
  write_chunks-close t chunks h =
      let (t', e, f) = write_chunks_lem t chunks h in (t', e, close_lem t' ∙ f)

  -- `trace_write_header` on a new file, and closing it, leave the prefix, the length of the access
  -- data in eight bytes, the access data and the postfix.
  pub trace_write_header-close :
      (accdat : List ℕ)
      → length accdat ≤ tracefile_buf_size
      → let new : TraceFile = record { file = []; buf = []; calls = 0 } in
        (t' : TraceFile) × (trace_write_header os new accdat ≡ some (true, t'))
        × ((tracefile_close os t').1
            ≡ trace_header_prefix
              ++ (le_bytes 8 (length accdat) ++ (accdat ++ (trace_header_postfix ++ []))))
  unfolding trace_write_header
  trace_write_header-close accdat h =
      write_chunks-close (record { file = []; buf = []; calls = 0 })
        (trace_header_prefix ∷ le_bytes 8 (length accdat) ∷ accdat ∷ trace_header_postfix ∷ [])
        (omega arith, (omega (arith, length-le_bytes 8 (length accdat)), (h, (omega arith, tt))))
