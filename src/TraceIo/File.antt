-- ===== src/TraceIo/File.antt =====
-- `tracefile_write`, `tracefile_close` and the writer of lib/trace-io.h. The system's `write` and
-- `close` are the fields of `Os`; the bytes that the system took are the contents of the file.
pub mod Laws
use t_espresso.Base.{
  ℕ, zero, suc, ◌+◌, ◌≤◌, ◌<◌, ◌%◌, ◌≡◌, Bool, true, false, ◌&&◌, ◌==◌, ltb, leb, if◌then◌else◌,
  Option, none, some, List, [], ◌∷◌, ◌++◌, length, take, le_bytes,
}
use t_espresso.TraceIo.Types.{tracefile_buf_size, trace_header_prefix, trace_header_postfix}

-- What the system does: how many of `n` bytes its `k`-th `write` takes (`none` is -1), and
-- whether `close` succeeds.
pub record Os : Type 0 where
  pub accepts : ℕ → ℕ → Option ℕ
  pub closes : Bool

-- `tracefile_base_t`. `buf` is the first `buf_commits` bytes of the buffer.
pub record TraceFile : Type 0 where
  pub file : List ℕ
  pub buf : List ℕ
  -- how often `write` has been called
  pub calls : ℕ

abbrev pub buf_commits : TraceFile → ℕ
buf_commits t = length t.buf

-- `write(file, buf, buf_commits)`: the result, and the file after it.
unfoldable pub sys_write : Os → TraceFile → Option ℕ × TraceFile
sys_write os t = elim (os.accepts t.calls (length t.buf)) [
  | none ↦ (none, record t { calls = suc t.calls })
  | some n ↦ (some n, record t { file = t.file ++ take n t.buf; calls = suc t.calls })
]

-- `write_size == buf_commits`
abbrev pub wrote_all : Option ℕ → ℕ → Bool
wrote_all none size = false
wrote_all (some n) size = n == size

-- The flush of `tracefile_write`: the commits are reset whatever `write` took.
unfoldable pub flush : Os → TraceFile → Bool × TraceFile
unfolding sys_write
flush os t =
    let (written, t') = sys_write os t in (wrote_all written (length t.buf), record t' { buf = [] })

-- `none` is a copy past the end of the buffer.
unfoldable pub tracefile_write : Os → TraceFile → List ℕ → Option (Bool × TraceFile)
tracefile_write os t src =
    let (result, t') =
      if leb tracefile_buf_size (length t.buf + length src) then flush os t else (true, t) in
    if ltb tracefile_buf_size (length t'.buf + length src)
    then none
    else some (result, record t' { buf = t'.buf ++ src })

-- `tracefile_close` of an open file: the result, and the file.
unfoldable pub tracefile_close : Os → TraceFile → Bool × List ℕ
unfolding sys_write
tracefile_close os t =
    let (_, t') = if ltb 0 (length t.buf) then sys_write os t else (none, t) in (os.closes, t'.file)

-- `trace_write_header`: `true` is the return value 0; after a failed write nothing more is
-- written.
unfoldable pub write_chunks : Os → TraceFile → List (List ℕ) → Option (Bool × TraceFile)
write_chunks os t [] = some (true, t)
write_chunks os t (chunk ∷ chunks) = elim (tracefile_write os t chunk) [
  | none ↦ none
  | some (result, t') ↦ elim result [ true ↦ write_chunks os t' chunks | false ↦ some (false, t') ]
]

unfoldable pub trace_write_header : Os → TraceFile → List ℕ → Option (Bool × TraceFile)
unfolding write_chunks
trace_write_header os t accdat =
    write_chunks os t
      (trace_header_prefix ∷ le_bytes 8 (length accdat) ∷ accdat ∷ trace_header_postfix ∷ [])
