-- ===== src/Transport/Attribution.antt =====
-- To which kernel and instruction a reader attributes a record.
use t_espresso.Base.{
  ℕ, ◌≤◌, ◌≡◌, refl, ap, ◌∙◌, false, ◌&&◌, ltb, if◌then◌else◌, List, ◌∷◌, length, drop, get_or,
  arith, Bool-cases, inl, inr,
}
use t_espresso.Device.Warp.{Warp}
use t_espresso.Device.Trace.{instid_used}
use t_espresso.TraceIo.Types.{InstHeader, KernelHeader, TraceRecord, empty_inst, empty_kernel}
use t_espresso.TraceIo.Reader.RoundTrip.{restored_kernel}
use t_espresso.TraceIo.Open.{Trace}
use t_espresso.TraceIo.Open.Laws.{opened}
use t_espresso.TraceIo.Deserialize.{find_kernel, find_inst, trace_deserialize}
use t_espresso.Transport.Recovered.{IsPlain, IsRecordOf}
use t_espresso.Transport.RoundTrip.{deserialize-info}

-- The record as it is read after `trace_open`.
abbrev pub read_after_open : Trace → List ℕ → TraceRecord → TraceRecord
read_after_open t buf r = trace_deserialize buf t.kernel_count t.kernel_accdat r

find_kernel-opened :
    (k : KernelHeader) (ks : List KernelHeader) (old : InstHeader) (olds : List InstHeader)
    (records : List ℕ)
    → let t = opened old olds (k ∷ ks) records in
      find_kernel t.kernel_count t.kernel_accdat 1
      ≡ (if ltb 0 (length ks) then restored_kernel k (drop 1 k.insts) old olds else empty_kernel)
unfolding find_kernel
find_kernel-opened k ks old olds records =
    let same : ltb 1 (length (k ∷ ks)) ≡ ltb 0 (length ks) = ground arith in rw (same) refl

find_inst-used :
    (w : Warp) (k : KernelHeader)
    → k.insts_count ≤ 5
    → find_inst k (instid_used w)
      ≡ (if ltb w.instid k.insts_count then get_or k.insts w.instid empty_inst else empty_inst)
unfolding find_inst instid_used
find_inst-used w k few = ground arith

find_inst-empty : (w : Warp) → find_inst empty_kernel (instid_used w) ≡ empty_inst
find_inst-empty w =
    let none_there : ltb w.instid 0 ≡ false = ground arith in
    find_inst-used w empty_kernel (omega arith) ∙ rw none_there refl

-- Of a plain warp, whatever kernel it runs, `trace_deserialize` after `trace_open` attributes the
-- record to the first kernel that was set up, if there are others, and to none if it is the only one.
-- It attributes it to the instruction of the warp in this kernel, of at most five instructions, only
-- if its number is below that of the instructions, so that neither an only kernel nor the last
-- instruction is found.
pub deserialize-opened :
    {w : Warp} (plain : IsPlain w) {buf : List ℕ} (rec : IsRecordOf w buf) (k : KernelHeader)
    (ks : List KernelHeader) (old : InstHeader) (olds : List InstHeader) (records : List ℕ)
    (r : TraceRecord)
    → k.insts_count ≤ 5
    → let d = read_after_open (opened old olds (k ∷ ks) records) buf r in
      let first = restored_kernel k (drop 1 k.insts) old olds in
      (d.kernel_info ≡ (if ltb 0 (length ks) then first else empty_kernel))
      × (d.inst_info ≡ (
          if ltb 0 (length ks) && ltb w.instid k.insts_count
          then get_or first.insts w.instid empty_inst
          else empty_inst))
deserialize-opened {w = w} plain {buf = buf} rec k ks old olds records r few =
    let t = opened old olds (k ∷ ks) records in
    let found = find_kernel-opened k ks old olds records in
    let first = restored_kernel k (drop 1 k.insts) old olds in
    let (kernel, inst) = deserialize-info plain rec t.kernel_count t.kernel_accdat r in
    (
      kernel ∙ found,
      inst ∙ ap (λ x. find_inst x (instid_used w)) found ∙ elim (Bool-cases (ltb 0 (length ks))) [
        | inl e ↦ rw e (find_inst-used w first few)
        | inr e ↦ rw e (find_inst-empty w)
      ],
    )
