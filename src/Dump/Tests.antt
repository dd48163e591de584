-- ===== src/Dump/Tests.antt =====
-- The lines of two records.
use t_espresso.Base.{
  ℕ, ◌+◌, ◌^◌, refl, Bool, true, take, drop, some, Option, List, [], ◌∷◌, ◌++◌, replicate, ascii,
  le_bytes, digits, to_string, length,
}
use t_espresso.TraceIo.Types.{
  KernelHeader, TraceRecord, empty_inst, trace_header_prefix, trace_header_postfix,
}
use t_espresso.TraceIo.Samples.{small_kernel, load_inst}
use t_espresso.TraceIo.Open.{Input}
use t_espresso.TraceIo.Open.Kernels.{all_bytes}
use t_espresso.TraceIo.Open.Laws.{opened}
use t_espresso.TraceIo.Next.Laws.{Stored, stored_bytes}
use t_espresso.Dump.{
  print_record, head_fields, access_fields, inst_fields, line, spaced, trace_type, padded,
  coordinate, data_fields, hexadecimal, Names,
}
use t_espresso.Dump.Laws.{SameLine, print_record-SameLine}

abbrev loaded : TraceRecord
loaded = record {
  kernel_info = small_kernel;
  inst_info = load_inst;
  warpv = 0;
  activemask = 1;
  writemask = 1;
  ctaid = record { x = 2; y = 0; z = 0 };
  grid = 1;
  warpp = 3;
  sm = 5;
  msb = 0;
  clock = 77;
  thread_data = 4096 ∷ replicate 31 0;
}

-- The names as they are, as if a NUL was behind them.
abbrev texts_of : TraceRecord → Names
texts_of r = record { kernel_name = r.kernel_info.kernel_name; filename = r.inst_info.filename }

-- Memory that was not used before.
abbrev any_kernel : KernelHeader → Bool
any_kernel k = true

print_record-SameLine_example : SameLine (texts_of loaded) (texts_of loaded) loaded loaded
unfolding print_record head_fields access_fields inst_fields line spaced trace_type padded
    coordinate data_fields hexadecimal to_string digits
print_record-SameLine_example =
    print_record-SameLine (texts_of loaded) (texts_of loaded) loaded loaded _ (refl, tt)
      (refl, (refl, tt)) (refl, tt) (refl, (refl, tt)) refl refl

-- A record whose one data word is that of lane 0.
abbrev one_lane : Stored
one_lane = record { header = 1 ∷ (2 ^ 32 + 1) ∷ 3 ∷ 4 ∷ 5 ∷ 6 ∷ []; payload = 7 ∷ [] }

abbrev file_name : List ℕ
file_name = ascii "trace-0"

-- The file of a program with one kernel, with one record.
abbrev only_file : Option (List ℕ) → Option Input
only_file name =
    let accdat = all_bytes (small_kernel ∷ []) in
    some (record {
      bytes =
          trace_header_prefix
          ++ (le_bytes 8 (length accdat)
              ++ (accdat ++ (trace_header_postfix ++ (stored_bytes (one_lane ∷ []) ++ []))));
      calls = 0;
    })

abbrev table : List KernelHeader
table = (opened empty_inst (empty_inst ∷ []) (small_kernel ∷ []) []).kernel_accdat

abbrev only_kernel : List KernelHeader
only_kernel = take 1 (drop 1 table)
