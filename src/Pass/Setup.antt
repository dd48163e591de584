-- ===== src/Pass/Setup.antt =====
-- `setupTraceInfo` and `insertFilterVolatile` of lib/InstrumentDevice.cpp: what an instrumented kernel
-- computes for a thread before its accesses, as the values of the instructions that are built. The
-- calls of `___cuprof_filter` and `___cuprof_filter_volatile` are those of Device.Filter.
pub mod Laws
mod Tests
use t_espresso.Base.{ℕ, Bool, true, false, ◌&&◌, ◌||◌, ltb, if◌then◌else◌, List, length, u8}
use t_espresso.Device.Filter.{filter_constant, filter_volatile}
use t_espresso.Pass.Options.{PassArgs}
use t_espresso.Pass.Index.{get_cta_serial, get_cta_index, get_warpv}
use t_espresso.Pass.Device.{slot_offsets}

-- The special registers of a thread: %ctaid, %nctaid, %tid, %ntid, %gridid and %laneid.
pub record Thread : Type 0 where
  pub ctaid_x : ℕ
  pub ctaid_y : ℕ
  pub ctaid_z : ℕ
  pub nctaid_x : ℕ
  pub nctaid_y : ℕ
  pub tid_x : ℕ
  pub tid_y : ℕ
  pub tid_z : ℕ
  pub ntid_x : ℕ
  pub ntid_y : ℕ
  pub gridid : ℕ
  pub laneid : ℕ

-- `TraceInfoValues`. The pointers to the counters and to the records are offsets into their arrays.
pub record TraceInfo : Type 0 where
  pub counters : ℕ
  pub records : ℕ
  pub grid : ℕ
  pub cta_serial : ℕ
  pub warpv : ℕ
  pub lane : ℕ
  pub kernel : ℕ
  pub filter_sm : List ℕ
  pub filter_warpp : List ℕ
  pub filter_sm_count : ℕ
  pub filter_warpp_count : ℕ
  pub to_be_traced : Bool

-- `kernel_id` is what the variable of the kernel's id holds. The counts of the filters are bytes.
unfoldable pub setup_trace_info : PassArgs → ℕ → Thread → TraceInfo
setup_trace_info args kernel_id t =
    let warpv = get_warpv t.tid_x t.tid_y t.tid_z t.ntid_x t.ntid_y in
    let cta_serial = get_cta_serial t.ctaid_x t.ctaid_y t.ctaid_z in
    let cta_i = get_cta_index t.ctaid_x t.ctaid_y t.ctaid_z t.nctaid_x t.nctaid_y in
    let (base_i, slot_i) = slot_offsets cta_i in
    record {
      counters = base_i;
      records = slot_i;
      grid = t.gridid;
      cta_serial = cta_serial;
      warpv = warpv;
      lane = t.laneid;
      kernel = kernel_id;
      filter_sm = args.sm;
      filter_warpp = args.warpp;
      filter_sm_count = u8 (length args.sm);
      filter_warpp_count = u8 (length args.warpp);
      to_be_traced =
          filter_constant args.grid args.cta args.warpv (u8 (length args.grid))
            (u8 (length args.cta)) (u8 (length args.warpv)) t.gridid cta_serial warpv;
    }

unfoldable pub insert_filter_volatile : PassArgs → TraceInfo → ℕ → ℕ → Bool → Bool
insert_filter_volatile args info sm warpp to_be_traced =
    if ltb 0 (length args.sm) || ltb 0 (length args.warpp)
    then to_be_traced
      && filter_volatile info.filter_sm info.filter_warpp info.filter_sm_count
          info.filter_warpp_count sm warpp
    else to_be_traced

-- Whether an access of the thread is traced, on a multiprocessor and a physical warp.
unfoldable pub is_traced : PassArgs → ℕ → Thread → ℕ → ℕ → Bool
unfolding setup_trace_info insert_filter_volatile
is_traced args kernel_id t sm warpp =
    let info = setup_trace_info args kernel_id t in
    insert_filter_volatile args info sm warpp info.to_be_traced
