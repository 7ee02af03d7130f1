-- ===== src/Netif/Received.antt =====
-- The time stamp of a received frame, `ptpd_netif_recvfrom` of libptpnetif/ptpd_netif.c.
use ptp_noposix.Prelude.{ℕ, ◌+◌, ◌%◌, ◌^◌, ◌<◌, ◌≤◌, ◌≡◌, ap, true, some, arith}
use ptp_noposix.Prelude.Int.{pos, signed32}
use ptp_noposix.Stamp.{WrStamp}
use ptp_noposix.Netif.{WrSocket, HwTime, HalPhase, is_ahead, rx_stamp, update_dmtd, recv_timestamp}
use ptp_noposix.Netif.Laws.{Reduces, IsReading, linearize_rx_timestamp-IsReading}

-- A socket whose phase is valid, at which a frame comes `o` picoseconds after the edge.
pub record IsMeasured (s : WrSocket) (o : ℕ) : Type 0 where
  pub valid : s.dmtd_phase_valid ≡ true
  pub period_small : s.clock_period < 2 ^ 29
  pub period_wide : 4 ≤ s.clock_period
  pub transition_in : s.phase_transition < s.clock_period
  pub phase_in : s.dmtd_phase < s.clock_period
  pub measured : Reduces s.clock_period (s.dmtd_phase + s.phase_transition + 1) o

signed_small : (n : ℕ) → n < 2 ^ 31 → signed32 n ≡ pos n
signed_small n h = ground arith

signed_word : (n : ℕ) → n < 2 ^ 31 → signed32 (n % 2 ^ 32) ≡ pos n
signed_word n h = ground arith

rx_stamp-IsMeasured :
    (hw : HwTime) (ts : WrStamp) (s : WrSocket) (n o : ℕ)
    → hw.tv_nsec < 2 ^ 31
    → n < 2 ^ 30
    → IsMeasured s o
    → IsReading s.clock_period n o (pos hw.tv_nsec) (is_ahead hw)
    → rx_stamp hw ts s
      ≡ record ts { sec = pos (hw.tv_sec % 2 ^ 31); nsec = pos n; phase = pos o; correct = pos 1 }
unfolding rx_stamp
rx_stamp-IsMeasured hw ts s n o nsec_small n_small m reading =
    let raw : WrStamp = record ts {
      sec = pos (hw.tv_sec % 2 ^ 31);
      nsec = pos hw.tv_nsec;
      correct = pos 0;
    } in
    rw
      (
        signed_word hw.tv_nsec nsec_small,
        m.valid,
        signed_small s.dmtd_phase (omega (arith, m.phase_in, m.period_small)),
        signed_small s.phase_transition (omega (arith, m.transition_in, m.period_small)),
        signed_small s.clock_period (omega (arith, m.period_small)),
      )
      (ap (λ (x : WrStamp). record x { correct = pos 1 })
        (linearize_rx_timestamp-IsReading raw (is_ahead hw) s.clock_period n o s.phase_transition
          s.dmtd_phase m.period_small m.period_wide n_small m.transition_in m.phase_in m.measured
          reading))

-- If a frame comes some picoseconds after the edge at which the counter of the hardware counts to a
-- number of nanoseconds, the phase of the socket, after its update, is valid and measures that
-- distance from the transition point, modulo a clock period of at least 4 and less than 2^29 ps,
-- and the rising counter is right, except within a quarter of the period from the edge, where it
-- may be a tick behind or ahead and its flag says whether it is ahead of the falling counter, then
-- the time stamp of the frame has exactly these nanoseconds and picoseconds, with the seconds that
-- were read, and is marked correct; nanoseconds are below 2^30, those that were read below 2^31.
pub recv_timestamp-IsMeasured :
    (now restarted : ℕ) (state : HalPhase) (hw : HwTime) (ts : WrStamp) (s : WrSocket) (n o : ℕ)
    → hw.tv_nsec < 2 ^ 31
    → n < 2 ^ 30
    → IsMeasured (update_dmtd now restarted state s) o
    → IsReading (update_dmtd now restarted state s).clock_period n o (pos hw.tv_nsec) (is_ahead hw)
    → recv_timestamp now restarted state (some hw) ts s ≡ (
      record ts { sec = pos (hw.tv_sec % 2 ^ 31); nsec = pos n; phase = pos o; correct = pos 1 },
      update_dmtd now restarted state s,
    )
unfolding recv_timestamp
recv_timestamp-IsMeasured now restarted state hw ts s n o nsec_small n_small m reading =
    let s' = update_dmtd now restarted state s in
    ap (λ (x : WrStamp). (x, s')) (rx_stamp-IsMeasured hw ts s' n o nsec_small n_small m reading)
