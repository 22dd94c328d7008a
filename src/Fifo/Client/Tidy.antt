-- ===== src/Fifo/Client/Tidy.antt =====
-- fifo_seqnum_client.c: the FIFO that the client makes.
use my_linux_programming_int.Prelude.{ℕ, ◌≡◌, ◌⊎◌, true, false, List, ◌++◌, ℤ, Text, codes}
use my_linux_programming_int.Program.{Exit, usage_err, err_exit, fatal, killed}
use my_linux_programming_int.Program.After.{After}
use my_linux_programming_int.Fifo.Client.Asking.{ClientLaws, Asked}
use my_linux_programming_int.Fifo.Client.{ClientApi, my_fifo}

module _ {K : Type 0} (os : ClientApi K) (laws : ClientLaws os) where
  open laws use {requests, there, umask_kept, mkfifo_kept, atexit_kept, unlink_kept, unlinked}

  module _ (before : List (ℕ × ℤ)) where
    -- with the client's FIFO gone
    abbrev pub Gone : K → Type 0
    Gone k = (there k ≡ false) × Asked os laws before k

    -- an end without exit(): by a signal, or by abort() where EF_DUMPCORE asks for it
    abbrev pub Crashes : Exit → Type 0
    Crashes e =
        (e ≡ killed)
        ⊎ ((os.dump_core ≡ true) × (((m : Text) × (e ≡ err_exit m)) ⊎ ((m : Text) × (e ≡ fatal m))))

    -- Where the program ends before the exit handler is registered, or without it, the FIFO may stay.
    abbrev pub Leaves : Exit → K → Type 0
    Leaves e k =
        Gone k
        ⊎ (Crashes e × Asked os laws before k)
        ⊎ ((((m : Text) × (e ≡ usage_err m))
              ⊎ (e ≡ err_exit (codes "mkfifo " ++ my_fifo os))
              ⊎ (e ≡ err_exit (codes "atexit")))
            × (requests k ≡ before))
