-- ===== src/Netif.antt =====
-- The time stamp of a received frame, as `ptpd_netif_recvfrom` of libptpnetif/ptpd_netif.c makes it
-- out of the reading of the counter of the hardware and the phase that the detector measures. The
-- system clock and the answer of the hardware daemon are arguments. The raw fields of the time
-- stamp, which are for debugging, are left out; `tv_sec` has 32 bits.
pub mod Laws
pub mod Received
use ptp_noposix.Prelude.{
  ℕ, ◌+◌, ◌-◌, ◌*◌, ◌/◌, ◌%◌, ◌^◌, ◌==◌, ltb, u64, Bool, ◌&&◌, ◌||◌, if◌then◌else◌, Option, none,
  some,
}
use ptp_noposix.Prelude.Int.{ℤ, pos, ◌+ℤ◌, ◌-ℤ◌, quot, i32, ltb_ℤ, leb_ℤ, signed32}
use ptp_noposix.Stamp.{WrStamp}

unfoldable pub inside_range : (low high x : ℤ) → Bool
inside_range low high x =
    if ltb_ℤ low high then leb_ℤ low x && leb_ℤ x high else leb_ℤ x high || leb_ℤ low x

-- Into the clock period from below, and from above.
unfoldable pub up_into : (clock_period x : ℤ) → ℤ
up_into clock_period x = if ltb_ℤ x (pos 0) then i32 (x +ℤ clock_period) else x

unfoldable pub down_into : (clock_period x : ℤ) → ℤ
down_into clock_period x = if leb_ℤ clock_period x then i32 (x -ℤ clock_period) else x

-- The nanoseconds of the falling edge, and of the tick that its counter stands for.
unfoldable pub falling_nsec : (nsec : ℤ) → (cntr_ahead : Bool) → (clock_period : ℤ) → ℤ
falling_nsec nsec cntr_ahead clock_period =
    i32 (nsec -ℤ (if cntr_ahead then quot clock_period 1000 else pos 0))

unfoldable pub reliable_nsec : WrStamp → Bool → (phase transition_point clock_period : ℤ) → ℤ
reliable_nsec ts cntr_ahead phase transition_point clock_period =
    let trip_lo = up_into clock_period (i32 (transition_point -ℤ quot clock_period 4)) in
    let trip_hi = down_into clock_period (i32 (transition_point +ℤ quot clock_period 4)) in
    let falling = falling_nsec ts.nsec cntr_ahead clock_period in
    if inside_range trip_lo trip_hi phase
    then (if inside_range trip_lo transition_point phase
        then i32 (falling +ℤ quot clock_period 1000)
        else falling)
    else ts.nsec

unfoldable pub linear_phase : (phase transition_point clock_period : ℤ) → ℤ
linear_phase phase transition_point clock_period =
    let behind = up_into clock_period (i32 (i32 (phase -ℤ transition_point) -ℤ pos 1)) in
    i32 (i32 (clock_period -ℤ pos 1) -ℤ behind)

unfoldable pub linearize_rx_timestamp :
    WrStamp → (dmtd_phase : ℤ) → (cntr_ahead : Bool) → (transition_point clock_period : ℤ) → WrStamp
linearize_rx_timestamp ts dmtd_phase cntr_ahead transition_point clock_period =
    let phase = i32 (i32 (clock_period -ℤ pos 1) -ℤ dmtd_phase) in
    record ts {
      nsec = reliable_nsec ts cntr_ahead phase transition_point clock_period;
      phase = linear_phase phase transition_point clock_period;
    }

pub record Timeout : Type 0 where
  pub start_tics : ℕ
  pub timeout : ℕ

unfoldable pub tmo_init : (now milliseconds : ℕ) → Timeout
tmo_init now milliseconds = record { start_tics = now; timeout = milliseconds * 1000 }

unfoldable pub tmo_restart : (now : ℕ) → Timeout → Timeout
tmo_restart now tmo = record tmo { start_tics = now }

unfoldable pub tmo_expired : (now : ℕ) → Timeout → Bool
tmo_expired now tmo = ltb tmo.timeout (u64 (now + 2 ^ 64 - tmo.start_tics))

-- `my_socket`, with the fields for the time stamps.
pub record WrSocket : Type 0 where
  pub clock_period : ℕ
  pub phase_transition : ℕ
  pub dmtd_phase : ℕ
  pub dmtd_phase_valid : Bool
  pub dmtd_update_tmo : Timeout

-- What the daemon answers of the detector of the port.
pub record HalPhase : Type 0 where
  pub phase_val : ℕ
  pub phase_val_valid : Bool

-- The clock is read for the test, and again when the timeout is started.
unfoldable pub update_dmtd : (now restarted : ℕ) → HalPhase → WrSocket → WrSocket
update_dmtd now restarted state s =
    if tmo_expired now s.dmtd_update_tmo
    then record s {
      dmtd_phase = state.phase_val;
      dmtd_phase_valid = state.phase_val_valid;
      dmtd_update_tmo = tmo_restart restarted s.dmtd_update_tmo;
    }
    else s

-- `hwtimeraw` of the control message.
pub record HwTime : Type 0 where
  pub tv_sec : ℕ
  pub tv_nsec : ℕ

unfoldable pub is_ahead : HwTime → Bool
is_ahead hw = hw.tv_sec / 2 ^ 31 == 1

unfoldable pub rx_stamp : HwTime → WrStamp → WrSocket → WrStamp
rx_stamp hw ts s =
    let raw = record ts {
      sec = pos (hw.tv_sec % 2 ^ 31);
      nsec = signed32 (hw.tv_nsec % 2 ^ 32);
      correct = pos 0;
    } in
    if s.dmtd_phase_valid
    then record (linearize_rx_timestamp raw (signed32 s.dmtd_phase) (is_ahead hw)
        (signed32 s.phase_transition) (signed32 s.clock_period)) { correct = pos 1 }
    else raw

-- The part of `ptpd_netif_recvfrom` behind the copy of the frame.
unfoldable pub recv_timestamp :
    (now restarted : ℕ) → HalPhase → Option HwTime → WrStamp → WrSocket → WrStamp × WrSocket
recv_timestamp now restarted state none ts s = (record ts { correct = pos 0 }, s)
recv_timestamp now restarted state (some hw) ts s =
    let s' = update_dmtd now restarted state s in (rx_stamp hw ts s', s')
