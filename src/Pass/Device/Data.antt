-- ===== src/Pass/Device/Data.antt =====
-- The data of a kernel that `setKernelHeader` stores in the module, and the slots of the CTAs.
use t_espresso.Base.{
  ℕ, ◌-◌, ◌^◌, ◌≤◌, ◌<◌, ◌≡◌, refl, Bool, true, List, length, length-append, length-take,
  length-replicate, take, replicate, min, u8, arith,
}
use t_espresso.TraceIo.Types.{InstHeader, trace_kernelname_maxlen}
use t_espresso.TraceIo.Header.{done, fault}
use t_espresso.TraceIo.Header.Inst.{AreReadable}
use t_espresso.TraceIo.Header.Laws.{header_serialize-done, header_serialize-fault, kernel_bytes}
use t_espresso.Pass.Headers.{zero_inst}
use t_espresso.Pass.Device.{kernel_header, set_kernel_header}

name_fits :
    (kernel_name : List ℕ) (inst_debugdata : List InstHeader)
    → ((kernel_header kernel_name inst_debugdata).kernel_name_len
        ≤ length (kernel_header kernel_name inst_debugdata).kernel_name)
      × ((kernel_header kernel_name inst_debugdata).kernel_name_len ≤ trace_kernelname_maxlen)
unfolding kernel_header
name_fits kernel_name inst_debugdata =
    let n = u8 (min (length kernel_name) trace_kernelname_maxlen) in
    (
      omega (
        arith,
        length-append (take n kernel_name) (replicate (trace_kernelname_maxlen - n) 0),
        length-take n kernel_name,
        length-replicate {A = ℕ} (trace_kernelname_maxlen - n) 0,
      ),
      omega arith,
    )

module _ (grants : ℕ → Bool) (kernel_name : List ℕ) (inst_debugdata : List InstHeader) where
  -- With memory granted, of at most four instructions with readable file names `setKernelHeader`
  -- stores the bytes of the header that it builds, whatever the kernel's name is.
  pub set_kernel_header-done :
      ((n : ℕ) → grants n ≡ true)
      → length inst_debugdata ≤ 4
      → AreReadable inst_debugdata
      → set_kernel_header grants kernel_name inst_debugdata
        ≡ done (kernel_bytes (kernel_header kernel_name inst_debugdata) inst_debugdata)
  unfolding set_kernel_header
  set_kernel_header-done g few readable =
      header_serialize-done grants (kernel_header kernel_name inst_debugdata) zero_inst
        inst_debugdata g refl (omega arith) few (name_fits kernel_name inst_debugdata).0
        (name_fits kernel_name inst_debugdata).1 readable

  -- With memory granted, of five instructions or more `setKernelHeader` reads outside of an array.
  pub set_kernel_header-fault :
      ((n : ℕ) → grants n ≡ true)
      → 5 ≤ length inst_debugdata
      → length inst_debugdata < 2 ^ 32
      → AreReadable inst_debugdata
      → set_kernel_header grants kernel_name inst_debugdata ≡ fault
  unfolding set_kernel_header
  set_kernel_header-fault g many fits readable =
      header_serialize-fault grants (kernel_header kernel_name inst_debugdata) zero_inst
        inst_debugdata g refl (omega arith) many (name_fits kernel_name inst_debugdata).0
        (name_fits kernel_name inst_debugdata).1 readable
