-- ===== src/Timers/Tests.antt =====
-- lib/itimerspec_from_str.c at a specification.
use my_linux_programming_int.Prelude.{◌≡◌, none, some, pos, arith}
use my_linux_programming_int.Timers.{itimerspec_from_str}
use my_linux_programming_int.Timers.RoundTrip.{
  show_itimerspec, time, interval_of, itimerspec_from_str-show_itimerspec,
}

itimerspec_from_str-show_itimerspec_example :
    itimerspec_from_str (show_itimerspec (pos 2, some (pos 500000000)) (some (pos 10, none)))
    ≡ record {
      it_value = time (pos 2, some (pos 500000000));
      it_interval = interval_of (some (pos 10, none));
    }
itimerspec_from_str-show_itimerspec_example =
    itimerspec_from_str-show_itimerspec (pos 2, some (pos 500000000)) (some (pos 10, none))
      ((omega arith, omega arith), (omega arith, omega arith)) (omega arith, omega arith)
