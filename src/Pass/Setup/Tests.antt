-- ===== src/Pass/Setup/Tests.antt =====
-- A thread of a CTA that is asked for, on a multiprocessor that is not.
use t_espresso.Base.{◌≡◌, refl, true, false, ◌&&◌, [], ◌∷◌, replicate, arith}
use t_espresso.Device.Filter.Laws.{accepts}
use t_espresso.Pass.Options.{PassArgs}
use t_espresso.Pass.Index.{get_warpv}
use t_espresso.Pass.Setup.{Thread, is_traced}
use t_espresso.Pass.Setup.Laws.{
  Coordinates, accepts_cta, serials, is_traced-accepts, is_traced-overflow,
}

abbrev first_cta : Coordinates
first_cta = record { x = 2; y = 1; z = 0 }

abbrev asked_for : PassArgs
asked_for = record {
  trace_thread = true;
  trace_mem = true;
  verbose = false;
  kernel = [];
  grid = [];
  cta = serials (first_cta ∷ []);
  warpv = [];
  sm = 3 ∷ [];
  warpp = [];
}

abbrev thread : Thread
thread = record {
  ctaid_x = 2;
  ctaid_y = 1;
  ctaid_z = 0;
  nctaid_x = 4;
  nctaid_y = 4;
  tid_x = 5;
  tid_y = 0;
  tid_z = 0;
  ntid_x = 32;
  ntid_y = 1;
  gridid = 7;
  laneid = 5;
}

is_traced-accepts_example : is_traced asked_for 1 thread 4 9 ≡ (
    (accepts [] 7 && (accepts_cta (first_cta ∷ []) first_cta && accepts [] (get_warpv 5 0 0 32 1)))
    && (accepts (3 ∷ []) 4 && accepts [] 9))
is_traced-accepts_example =
    is_traced-accepts asked_for (first_cta ∷ []) 1 thread 4 9 refl
      ((omega arith, omega arith, omega arith), tt) (omega arith, omega arith, omega arith)
      (omega arith) (omega arith) (omega arith) (omega arith) (omega arith)

is_traced-overflow_example :
    is_traced (record asked_for { grid = replicate 256 5 }) 1 thread 3 9
    ≡ is_traced asked_for 1 thread 3 9
is_traced-overflow_example =
    is_traced-overflow (record asked_for { grid = replicate 256 5 }) 1 thread 3 9 refl
