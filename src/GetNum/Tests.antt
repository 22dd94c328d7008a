-- ===== src/GetNum/Tests.antt =====
-- lib/get_num.c at some arguments.
use my_linux_programming_int.Prelude.{◌≡◌, refl, none, some, negsuc, codes}
use my_linux_programming_int.Clib.Decimal.{show_int}
use my_linux_programming_int.GetNum.{get_int}
use my_linux_programming_int.GetNum.Verdict.{verdict, int_complaint, get_int-show_int}

get_int-show_int_example :
    get_int (some (show_int (negsuc 4))) 1 none
    ≡ verdict (codes "getInt") (show_int (negsuc 4)) none (negsuc 4) (int_complaint 1 (negsuc 4))
get_int-show_int_example = get_int-show_int (negsuc 4) 1 none (refl, refl, refl)
