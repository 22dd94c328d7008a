-- ===== src/Io/Xfr/Relay.antt =====
-- us_xfr_cl.c and us_xfr_sv.c: what goes through is whole.
use my_linux_programming_int.Prelude.{
  ℕ, ◌<◌, ◌≡◌, sym, ◌∙◌, Option, none, some, ◌++◌, append-nil, length, arith, Text,
}
use mathlib.Core.Path.{ap₂}
use mathlib.Core.Option
use my_linux_programming_int.Sys.{ok, Proc}
use my_linux_programming_int.Io.Copy.{Ended}
use my_linux_programming_int.Io.Pump.{End, eof, read_error, write_error, pump}
use my_linux_programming_int.Io.Copy.Correct.{Whole}
use my_linux_programming_int.Io.Pump.Correct
use my_linux_programming_int.Io.Pump.Correct.{PumpLaws, Ends, pump_lem}
use my_linux_programming_int.Io.Xfr.{XfrApi, buf_size, address, sent, client, received, handle}

module _ {K : Type 0} (os : XfrApi K) where
  module _ (sfd : ℕ) (moves : PumpLaws (os.read 0) (os.write sfd)) where
    open moves use {stream, sink}

    -- The run ends; if it reports success, the socket has accepted `all`.
    abbrev pub Sent : (all : Text) → Option (Ended × Proc K) → Type 0
    Sent all none = ⊥
    Sent all (some (e, p)) = Whole e (sink p.kernel) all

    sent-Sent :
        (all : Text) (r : Option (End × Proc K))
        → Correct.Outcome _ _ moves buf_size all r
        → Sent all (Option.map (sent os) r)
    unfolding sent
    sent-Sent all none h = h
    sent-Sent all (some (eof, p)) h =
        let (nothing, over) = h.complete in
        sym (
          h.conserved
          ∙ ap₂ (λ l s. sink p.kernel ++ (l ++ s)) nothing over
          ∙ append-nil (sink p.kernel))
    sent-Sent all (some (read_error, p)) h = tt
    sent-Sent all (some (write_error, p)) h = tt

    client_connected :
        (fuel : ℕ) (p : Proc K)
        → (os.socket p.kernel).0 ≡ ok sfd
        → (os.connect sfd address (os.socket p.kernel).1).0 ≡ ok tt
        → client os fuel p
          ≡ Option.map (sent os) (
              pump
                (os.read 0)
                (os.write sfd)
                fuel
                buf_size
                (record p { kernel = (os.connect sfd address (os.socket p.kernel).1).1 }))
    unfolding client
    client_connected fuel p made connected = ground arith

    -- Where the socket is made and connected, the client ends, given fuel for its input; and if it
    -- reports success, the socket has accepted, behind what it had, the whole input in order.
    pub client-Sent :
        (fuel : ℕ) (p : Proc K)
        → (os.socket p.kernel).0 ≡ ok sfd
        → (os.connect sfd address (os.socket p.kernel).1).0 ≡ ok tt
        → let k = (os.connect sfd address (os.socket p.kernel).1).1 in
          length (stream k) < fuel → Sent (sink k ++ stream k) (client os fuel p)
    client-Sent fuel p made connected enough =
        let k = (os.connect sfd address (os.socket p.kernel).1).1 in
        rw (client_connected fuel p made connected) (
          sent-Sent _ _
            (pump_lem _ _ moves fuel buf_size (record p { kernel = k }) (omega arith) enough))

  module _ (cfd : ℕ) (moves : PumpLaws (os.read cfd) (os.write 1))
      (close_sink : (k : K) → moves.writes.sink (os.close cfd k).1 ≡ moves.writes.sink k) where
    open moves use {stream, sink}

    -- The connection comes to its end; if the server goes on, the standard output has accepted `all`.
    abbrev pub Relays : (all : Text) → Option (Option Ended × Proc K) → Type 0
    Relays all none = ⊥
    Relays all (some (none, p)) = sink p.kernel ≡ all
    Relays all (some (some e, p)) = Unit

    received-Relays :
        (all : Text) (r : Option (End × Proc K))
        → Correct.Outcome _ _ moves buf_size all r
        → Relays all (Option.map (received os cfd) r)
    unfolding received
    received-Relays all none h = h
    received-Relays all (some (eof, p)) h =
        let (nothing, over) = h.complete in
        ground (arith, close_sink p.kernel)
        ∙ sym (
            h.conserved
            ∙ ap₂ (λ l s. sink p.kernel ++ (l ++ s)) nothing over
            ∙ append-nil (sink p.kernel))
    received-Relays all (some (read_error, p)) h = tt
    received-Relays all (some (write_error, p)) h = tt

    -- Given fuel for what the client sends, the server comes to the end of a connection; and if it
    -- goes on to the next one, its standard output has accepted, behind what it had, all that the
    -- client sent, in order.
    pub handle-Relays :
        (fuel : ℕ) (p : Proc K)
        → length (stream p.kernel) < fuel
        → Relays (sink p.kernel ++ stream p.kernel) (handle os fuel cfd p)
    unfolding handle
    handle-Relays fuel p enough =
        received-Relays _ _ (pump_lem _ _ moves fuel buf_size p (omega arith) enough)
