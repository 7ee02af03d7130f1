-- ===== src/Port/GiveUp.antt =====
-- A state of the link setup that times out again and again.
use mathlib.Core.Path.{subst}
use ptp_noposix.Prelude.{
  ℕ, ◌+◌, ◌^◌, ◌<◌, ◌≤◌, ◌≡◌, refl, sym, ap, ◌∙◌, List, [], ◌∷◌, true, false, if_intro,
  if◌then◌else◌, ltb, ◌==◌, ==_iff, u8, length, arith,
}
use ptp_noposix.Constants.{PtpState, WrState, wrs_index, wr_master, non_wr}
use ptp_noposix.Datatypes.{PtpPortDs, RunTimeOpts}
use ptp_noposix.Wr.{return_current_wr_main_state, is_idle, wr_timetout_manage, init_wr_data}
use ptp_noposix.Port.{Answered, Sys}
use ptp_noposix.Port.Link.{enter_wr_state, leave_wr_state, to_wr_state}
use ptp_noposix.Port.Enter.{to_state, enter_state, enter_slave}
use ptp_noposix.Port.Timeout.{retries, fallback, give_up, check_timer, wr_timer_expired}
use ptp_noposix.Port.Retry.{enter-course, enter-main, main-is_idle}

abbrev rules : PtpPortDs → ℕ × ℕ × ℕ
rules port = (port.wr_state_retry, port.cal_retry, port.other_node_cal_retry)

retries-rules : (w : WrState) (p q : PtpPortDs) → rules p ≡ rules q → retries w p ≡ retries w q
unfolding retries
retries-rules WrState.calibration p q h = ap (λ (r : ℕ × ℕ × ℕ). if ltb 0 (r.1) then r.1 else r.0) h
retries-rules WrState.resp_calib_req p q h =
    ap (λ (r : ℕ × ℕ × ℕ). if ltb 0 (r.2) then r.2 else r.0) h
retries-rules w p q h = ap (λ (r : ℕ × ℕ × ℕ). r.0) h

module _ (a : Answered) (opts : RunTimeOpts) (w : WrState) (sys : Sys)
    (e : return_current_wr_main_state sys.port ≡ w) (busy : is_idle w ≡ false) where
  substate_busy : is_idle sys.port.wr_port_state ≡ false
  substate_busy = sym (main-is_idle sys.port.wr_port_state) ∙ ap is_idle e ∙ busy

  leave-shut : leave_wr_state a sys.port ≡ sys.port
  unfolding leave_wr_state
  leave-shut =
      if_intro (λ (x : PtpPortDs). x ≡ sys.port) (is_idle sys.port.wr_port_state) _ _
        (λ t. absurd (ground (arith, t, substate_busy))) (λ _. refl)

  abbrev entered : Sys
  entered = enter_wr_state a opts w sys

  abbrev again : Sys
  again = record entered { port = wr_timetout_manage a.tics w w entered.port }

  to_wr_state-again : to_wr_state a opts w sys ≡ again
  unfolding to_wr_state
  to_wr_state-again =
      ap
        (λ (p : PtpPortDs).
          let t = enter_wr_state a opts w (record sys { port = p }) in
          record t {
            port = wr_timetout_manage a.tics w (return_current_wr_main_state sys.port) t.port;
          })
        leave-shut
      ∙ ap (λ (x : WrState). record entered { port = wr_timetout_manage a.tics w x entered.port }) e

  again-main : return_current_wr_main_state (again.port) ≡ w
  unfolding wr_timetout_manage
  again-main = enter-main a opts sys substate_busy w e

  again-count : again.port.current_wr_state_cnt ≡ u8 (sys.port.current_wr_state_cnt + 1)
  unfolding wr_timetout_manage
  again-count =
      ap (λ b. if b then u8 (entered.port.current_wr_state_cnt + 1) else 0)
        ((==_iff (wrs_index w) (wrs_index w)).1 refl)
      ∙ ap (λ c. u8 (c.3 + 1)) (enter-course a opts sys substate_busy w)

  again-mode : again.port.wr_mode ≡ sys.port.wr_mode
  unfolding wr_timetout_manage
  again-mode = ap (λ c. c.4) (enter-course a opts sys substate_busy w)

  again-retries : retries w again.port ≡ retries w sys.port
  unfolding wr_timetout_manage
  again-retries =
      retries-rules w again.port sys.port
        (ap (λ c. (c.0, c.1, c.2)) (enter-course a opts sys substate_busy w))

-- The port when the link setup is given up.
abbrev pub IsGivenUp : RunTimeOpts → (wr_mode : ℕ) → Sys → Type 0
IsGivenUp opts wr_mode sys =
    (sys.port.wr_port_state ≡ WrState.idle)
    × (sys.port.wr_mode_on ≡ false)
    × (sys.port.wr_mode ≡ non_wr)
    × (sys.port.port_state ≡ fallback opts wr_mode)

fallback-port_state :
    (a : Answered) (opts : RunTimeOpts) (wr_mode : ℕ) (sys : Sys)
    → (enter_state a opts (fallback opts wr_mode) sys).port.port_state ≡ fallback opts wr_mode
unfolding fallback enter_state enter_slave
fallback-port_state a opts wr_mode sys =
    let reached : PtpState → Type 0 = λ s. (enter_state a opts s sys).port.port_state ≡ s in
    if_intro reached opts.disable_fallback_if_wr_fails _ _ (λ _. refl)
      (λ _. if_intro reached (wr_mode == wr_master) _ _ (λ _. refl) (λ _. refl))

give_up-IsGivenUp :
    (a : Answered) (opts : RunTimeOpts) (wr_mode : ℕ) (sys : Sys)
    → IsGivenUp opts wr_mode (give_up a opts wr_mode sys)
unfolding give_up init_wr_data to_state to_wr_state enter_wr_state wr_timetout_manage
give_up-IsGivenUp a opts wr_mode sys = (refl, refl, refl, fallback-port_state a opts wr_mode _)

-- The timeouts of the state of the link setup at the given times, one after the other, as `doWRState`
-- calls for them at its end.
unfoldable pub time_out : RunTimeOpts → Answered → Sys → Sys
time_out opts a sys =
    wr_timer_expired a opts sys.port.wr_mode (return_current_wr_main_state sys.port) sys

unfoldable pub time_out_all : RunTimeOpts → List Answered → Sys → Sys
time_out_all opts [] sys = sys
time_out_all opts (a ∷ rest) sys = time_out_all opts rest (time_out opts a sys)

-- The timer of the state has run out each time.
unfoldable pub AllExpire : RunTimeOpts → List Answered → Sys → Type 0
AllExpire opts [] sys = Unit
AllExpire opts (a ∷ rest) sys =
    ((check_timer a (return_current_wr_main_state sys.port) sys).1 ≡ true)
    × AllExpire opts rest (time_out opts a sys)

module _ (opts : RunTimeOpts) (a : Answered) (w : WrState) (sys : Sys)
    (e : return_current_wr_main_state sys.port ≡ w) (busy : is_idle w ≡ false)
    (late : (check_timer a w sys).1 ≡ true) where
  abbrev checked : Sys
  checked = (check_timer a w sys).0

  -- What one timeout does.
  time_out-unfolded : time_out opts a sys ≡ (
      if ltb checked.port.current_wr_state_cnt (retries w checked.port)
      then to_wr_state a opts w checked
      else give_up a opts sys.port.wr_mode checked)
  unfolding time_out wr_timer_expired
  time_out-unfolded =
      let decided =
        if ltb checked.port.current_wr_state_cnt (retries w checked.port)
        then to_wr_state a opts w checked
        else give_up a opts sys.port.wr_mode checked in
      ap (λ x. wr_timer_expired a opts sys.port.wr_mode x sys) e
      ∙ ap (λ b. if b then sys else if (check_timer a w sys).1 then decided else checked) busy
      ∙ ap (λ b. if b then decided else checked) late

  below :
      ltb checked.port.current_wr_state_cnt (retries w checked.port)
      ≡ ltb sys.port.current_wr_state_cnt (retries w sys.port)
  unfolding check_timer
  below = ap (λ n. ltb sys.port.current_wr_state_cnt n) (retries-rules w checked.port sys.port refl)

  time_out-again :
      sys.port.current_wr_state_cnt < retries w sys.port
      → time_out opts a sys ≡ to_wr_state a opts w checked
  unfolding check_timer
  time_out-again h =
      let more : ltb sys.port.current_wr_state_cnt (retries w sys.port) ≡ true =
        ground (arith, h) in
      time_out-unfolded
      ∙ ap
          (λ b. if b then to_wr_state a opts w checked else give_up a opts sys.port.wr_mode checked)
          (below ∙ more)

  time_out-last :
      retries w sys.port ≤ sys.port.current_wr_state_cnt
      → time_out opts a sys ≡ give_up a opts sys.port.wr_mode checked
  time_out-last h =
      let enough : ltb sys.port.current_wr_state_cnt (retries w sys.port) ≡ false =
        ground (arith, h) in
      time_out-unfolded
      ∙ ap
          (λ b. if b then to_wr_state a opts w checked else give_up a opts sys.port.wr_mode checked)
          (below ∙ enough)

  -- The state is entered again: the count is one more, and all that decides the rest stays.
  time_out-kept :
      sys.port.current_wr_state_cnt < retries w sys.port
      → (return_current_wr_main_state ((time_out opts a sys).port) ≡ w)
        × ((time_out opts a sys).port.current_wr_state_cnt ≡ u8 (sys.port.current_wr_state_cnt + 1))
        × ((time_out opts a sys).port.wr_mode ≡ sys.port.wr_mode)
        × (retries w ((time_out opts a sys).port) ≡ retries w sys.port)
  unfolding check_timer
  time_out-kept h =
      let is = time_out-again h ∙ to_wr_state-again a opts w checked e busy in
      (
        ap (λ x. return_current_wr_main_state x.port) is ∙ again-main a opts w checked e busy,
        ap (λ x. x.port.current_wr_state_cnt) is ∙ again-count a opts w checked e busy,
        ap (λ x. x.port.wr_mode) is ∙ again-mode a opts w checked e busy,
        ap (λ x. retries w x.port) is
            ∙ again-retries a opts w checked e busy
            ∙ retries-rules w checked.port sys.port refl,
      )

-- If the port is in a state of the link setup other than the idle one, the count of its repetitions
-- is not above the number of retries of the state, that number is an octet, and the timer of the
-- state has expired at every one of as many polls as there are retries left and one more, then
-- after these polls the link setup is idle, White Rabbit mode is off and the port is in its
-- fallback state: disabled if the fallback is switched off, else master or slave by its mode.
pub time_out_all-IsGivenUp :
    (opts : RunTimeOpts) (rounds : List Answered) (w : WrState) (sys : Sys)
    → return_current_wr_main_state sys.port ≡ w
    → is_idle w ≡ false
    → retries w sys.port < 2 ^ 8
    → AllExpire opts rounds sys
    → length rounds + sys.port.current_wr_state_cnt ≡ retries w sys.port + 1
    → sys.port.current_wr_state_cnt ≤ retries w sys.port
    → IsGivenUp opts sys.port.wr_mode (time_out_all opts rounds sys)
unfolding time_out_all AllExpire
time_out_all-IsGivenUp opts [] w sys e busy small late n le = absurd (omega (arith, n, le))
time_out_all-IsGivenUp opts (a ∷ []) w sys e busy small (late, later) n le =
    let expired = ap (λ x. (check_timer a x sys).1) (sym e) ∙ late in
    subst (IsGivenUp opts sys.port.wr_mode)
      (sym (time_out-last opts a w sys e busy expired (omega (arith, n))))
      (give_up-IsGivenUp a opts sys.port.wr_mode ((check_timer a w sys).0))
time_out_all-IsGivenUp opts (a ∷ b ∷ rest) w sys e busy small (late, later) n le =
    let expired = ap (λ x. (check_timer a x sys).1) (sym e) ∙ late in
    let (main, count, mode, same) = time_out-kept opts a w sys e busy expired (omega (arith, n)) in
    subst (λ m. IsGivenUp opts m (time_out_all opts (b ∷ rest) (time_out opts a sys))) mode
      (time_out_all-IsGivenUp opts (b ∷ rest) w (time_out opts a sys) main busy
        (omega (arith, same, small)) later (omega (arith, count, same, n, small))
        (omega (arith, count, same, n, small)))
