-- ===== src/Tests/Arrivals.antt =====
-- A frame that comes 500 ps after the edge of a counter of 125 MHz, which the rising edge missed.
use ptp_noposix.Prelude.{◌≡◌, refl, inr, some, true, false, arith}
use ptp_noposix.Prelude.Int.{pos}
use ptp_noposix.Stamp.{WrStamp}
use ptp_noposix.Netif.{
  WrSocket, HwTime, HalPhase, is_ahead, update_dmtd, recv_timestamp, tmo_init, tmo_expired,
  tmo_restart,
}
use ptp_noposix.Netif.Laws.{IsReading}
use ptp_noposix.Netif.Received.{IsMeasured, recv_timestamp-IsMeasured}

abbrev socket : WrSocket
socket = record {
  clock_period = 8000;
  phase_transition = 1000;
  dmtd_phase = 0;
  dmtd_phase_valid = false;
  dmtd_update_tmo = tmo_init 0 500;
}

abbrev detector : HalPhase
detector = record { phase_val = 7499; phase_val_valid = true }

abbrev counter : HwTime
counter = record { tv_sec = 7; tv_nsec = 992 }

abbrev blank_stamp : WrStamp
blank_stamp = record { sec = pos 0; nsec = pos 0; phase = pos 0; correct = pos 0 }

detector-IsMeasured : IsMeasured (update_dmtd 600001 600002 detector socket) 500
unfolding update_dmtd tmo_expired tmo_restart tmo_init
detector-IsMeasured = record {
  valid = refl;
  period_small = omega arith;
  period_wide = omega arith;
  transition_in = omega arith;
  phase_in = omega arith;
  measured = (omega arith, inr refl);
}

counter-IsReading :
    IsReading
      (update_dmtd 600001 600002 detector socket).clock_period
      1000
      500
      (pos counter.tv_nsec)
      (is_ahead counter)
unfolding update_dmtd tmo_expired tmo_restart tmo_init is_ahead
counter-IsReading = record {
  between = λ l h. ground (arith, l, h);
  after = λ h. refl;
  before = λ h. ground (arith, h);
}

recv_timestamp-IsMeasured_example :
    recv_timestamp 600001 600002 detector (some counter) blank_stamp socket ≡ (
      record { sec = pos 7; nsec = pos 1000; phase = pos 500; correct = pos 1 },
      update_dmtd 600001 600002 detector socket,
    )
recv_timestamp-IsMeasured_example =
    recv_timestamp-IsMeasured 600001 600002 detector counter blank_stamp socket 1000 500
      (omega arith) (omega arith) detector-IsMeasured counter-IsReading
