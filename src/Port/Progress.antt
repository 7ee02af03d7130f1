-- ===== src/Port/Progress.antt =====
-- One pass of the calibration against its plan: the calls in order, each with its answer
-- and the substate that it leads to.
use mathlib.Core.List.{append_assoc, append-nil}
use ptp_noposix.Prelude.{
  ℕ, ◌≡◌, refl, sym, ap, ◌∙◌, List, [], ◌∷◌, ◌++◌, drop, Bool, true, false, arith,
}
use ptp_noposix.Constants.{WrState, calibrated_id}
use ptp_noposix.Datatypes.{Buf, PtpPortDs, RunTimeOpts}
use ptp_noposix.Wr.{wr_timetout_manage, main_state}
use ptp_noposix.Msg.Signaling.{msg_pack_wr_signaling}
use ptp_noposix.Port.{
  LinkCall, send_general, calibration_pattern_enable, calibrating_enable_tx, calibrating_poll_tx,
  calibrating_disable_tx, calibration_pattern_disable, calibrating_enable_rx, calibrating_poll_rx,
  calibrating_disable_rx, Answered, Sys, make_call, issue_wr_signaling_msg,
}
use ptp_noposix.Port.Link.{to_wr_state, enter_wr_state}
use ptp_noposix.Port.Attempt.{
  Calibrates, attempt, finish_calibration, calibrate_from_0, calibrate_from_1, calibrate_from_2,
  calibrate_from_3, calibrate_from_4, calibrate_from_5, calibrate_from_6, calibrate_from_7,
  do_calibration,
}

-- A call, its answer, and the substate after a positive one.
abbrev pub Plan : Type 0
Plan = List (LinkCall × Bool × WrState)

-- Carrying a plan out from a substate: the calls made, the substate reached, and whether the end is.
unfoldable pub carry_out : Plan → WrState → List LinkCall × WrState × Bool
carry_out [] state = ([], state, true)
carry_out ((c, true, next) ∷ rest) state =
    let (made, reached, ended) = carry_out rest next in (c ∷ made, reached, ended)
carry_out ((c, false, next) ∷ rest) state = (c ∷ [], state, false)

-- The plan of the calibration: the pattern and the sender, then the receiver.
abbrev pub calibration_plan : Calibrates → Plan
calibration_plan h =
    (calibration_pattern_enable 0, h.pattern_on, WrState.calibration_1)
    ∷ (calibrating_enable_tx, h.tx_on, WrState.calibration_2)
    ∷ (calibrating_poll_tx, h.tx_ready, WrState.calibration_3)
    ∷ (calibrating_disable_tx, h.tx_off, WrState.calibration_4)
    ∷ (calibration_pattern_disable, h.pattern_off, WrState.calibration_5)
    ∷ (calibrating_enable_rx, h.rx_on, WrState.calibration_6)
    ∷ (calibrating_poll_rx, h.rx_ready, WrState.calibration_7)
    ∷ (calibrating_disable_rx, h.rx_off, WrState.calibration_8)
    ∷ []

-- How many calls of the plan lie behind a substate of the calibration.
abbrev pub calls_behind : WrState → ℕ
calls_behind WrState.calibration_1 = 1
calls_behind WrState.calibration_2 = 2
calls_behind WrState.calibration_3 = 3
calls_behind WrState.calibration_4 = 4
calls_behind WrState.calibration_5 = 5
calls_behind WrState.calibration_6 = 6
calls_behind WrState.calibration_7 = 7
calls_behind WrState.calibration_8 = 8
calls_behind state = 0

-- One message is sent after some calls.
pub record SendsAfter (before after : List LinkCall) : Type 0 where
  pub message : Buf
  pub len : ℕ
  pub is : after ≡ before ++ send_general message len ∷ []

-- What a pass comes to, given what carrying out the plan comes to: it stops with exactly these calls in the
-- substate reached, or it ends, sends one message and enters the state.
unfoldable pub IsPass : WrState → Sys → Sys → List LinkCall → WrState → Bool → Type 0
IsPass entered start end made reached false =
    (end.calls ≡ start.calls ++ made) × (end.port.wr_port_state ≡ reached)
IsPass entered start end made reached true =
    SendsAfter (start.calls ++ made) end.calls × (end.port.wr_port_state ≡ entered)

-- A call before a pass.
later-IsPass :
    (entered : WrState) (c : LinkCall) (sys called end : Sys) (made : List LinkCall)
    (reached : WrState) (done : Bool)
    → called.calls ≡ sys.calls ++ c ∷ []
    → IsPass entered called end made reached done
    → IsPass entered sys end (c ∷ made) reached done
unfolding IsPass
later-IsPass entered c sys called end made reached false e (p, q) =
    (p ∙ ap (λ xs. xs ++ made) e ∙ append_assoc sys.calls (c ∷ []) made, q)
later-IsPass entered c sys called end made reached true e (p, q) = (
  record {
    message = p.message;
    len = p.len;
    is =
        p.is
        ∙ ap (λ xs. xs ++ send_general p.message p.len ∷ [])
            (ap (λ xs. xs ++ made) e ∙ append_assoc sys.calls (c ∷ []) made);
  },
  q,
)

-- A pass from a state, of a port in a mode, that comes to what carrying out the plan comes to.
abbrev pub Follows : WrState → ℕ → Plan → WrState → (Sys → Sys) → Type 0
Follows entered mode plan state pass =
    (sys : Sys)
    → sys.port.wr_port_state ≡ state
    → sys.port.wr_mode ≡ mode
    → let out = carry_out plan state in IsPass entered sys (pass sys) (out.0) (out.1) (out.2)

-- An attempt follows the plan that starts with its call.
pub attempt-Follows :
    (entered : WrState) (mode : ℕ) (c : LinkCall) (answer : Bool) (next state : WrState)
    (effect : PtpPortDs → PtpPortDs) (rest : Plan) (pass : Sys → Sys)
    → ((port : PtpPortDs) → port.wr_port_state ≡ state → (effect port).wr_port_state ≡ next)
    → ((port : PtpPortDs) → (effect port).wr_mode ≡ port.wr_mode)
    → Follows entered mode rest next pass
    → Follows entered mode ((c, answer, next) ∷ rest) state (attempt c answer effect pass)
unfolding attempt carry_out IsPass
attempt-Follows entered mode c false next state effect rest pass h k f sys e m = (refl, e)
attempt-Follows entered mode c true next state effect rest pass h k f sys e m =
    let called = make_call c sys in
    let moved = record called { port = effect called.port } in
    let out = carry_out rest next in
    later-IsPass entered c sys moved (pass moved) (out.0) (out.1) (out.2) refl
      (f moved (h sys.port e) (k sys.port ∙ m))

module _ (a : Answered) (opts : RunTimeOpts) (h : Calibrates) (mode : ℕ) where
  -- What the plan leaves from a number of calls on.
  abbrev left : ℕ → Plan
  left n = drop n (calibration_plan h)

  finish-Follows :
      Follows WrState.calibrated mode [] WrState.calibration_8 (finish_calibration a opts h)
  unfolding finish_calibration carry_out IsPass to_wr_state enter_wr_state wr_timetout_manage
      issue_wr_signaling_msg
  finish-Follows sys e m =
      let packed = msg_pack_wr_signaling sys.clock sys.port calibrated_id sys.port.msg_obuf in
      (
        record {
          message = packed.0;
          len = packed.1;
          is =
              ap (λ xs. xs ++ send_general (packed.0) (packed.1) ∷ []) (sym (append-nil sys.calls));
        },
        refl,
      )

  from_7 :
      Follows WrState.calibrated mode (left 7) WrState.calibration_7 (calibrate_from_7 a opts h)
  unfolding calibrate_from_7
  from_7 = attempt-Follows _ _ _ _ _ _ _ _ _ (λ port e. refl) (λ port. refl) finish-Follows

  from_6 :
      Follows WrState.calibrated mode (left 6) WrState.calibration_6 (calibrate_from_6 a opts h)
  unfolding calibrate_from_6
  from_6 = attempt-Follows _ _ _ _ _ _ _ _ _ (λ port e. refl) (λ port. refl) from_7

  from_5 :
      Follows WrState.calibrated mode (left 5) WrState.calibration_5 (calibrate_from_5 a opts h)
  unfolding calibrate_from_5
  from_5 = attempt-Follows _ _ _ _ _ _ _ _ _ (λ port e. refl) (λ port. refl) from_6

  from_4 :
      Follows WrState.calibrated mode (left 4) WrState.calibration_4 (calibrate_from_4 a opts h)
  unfolding calibrate_from_4
  from_4 = attempt-Follows _ _ _ _ _ _ _ _ _ (λ port e. refl) (λ port. refl) from_5

  from_3 :
      Follows WrState.calibrated mode (left 3) WrState.calibration_3 (calibrate_from_3 a opts h)
  unfolding calibrate_from_3
  from_3 = attempt-Follows _ _ _ _ _ _ _ _ _ (λ port e. refl) (λ port. refl) from_4

  from_2 :
      Follows WrState.calibrated mode (left 2) WrState.calibration_2 (calibrate_from_2 a opts h)
  unfolding calibrate_from_2
  from_2 = attempt-Follows _ _ _ _ _ _ _ _ _ (λ port e. refl) (λ port. refl) from_3

  from_1 :
      Follows WrState.calibrated mode (left 1) WrState.calibration_1 (calibrate_from_1 a opts h)
  unfolding calibrate_from_1
  from_1 = attempt-Follows _ _ _ _ _ _ _ _ _ (λ port e. refl) (λ port. refl) from_2

  from_0 : Follows WrState.calibrated mode (left 0) WrState.calibration (calibrate_from_0 a opts h)
  unfolding calibrate_from_0
  from_0 = attempt-Follows _ _ _ _ _ _ _ _ _ (λ port e. refl) (λ port. refl) from_1

-- From any substate of the calibration, one pass refines the plan of the calibration (pattern on;
-- transmitter on, measured and off; pattern off; receiver on, measured and off), carried out from
-- the call of that substate: with the answers of the hardware the pass makes exactly the calls of
-- the plan up to the first that fails, in order, and stays in the substate that the plan reaches,
-- or, if none fails, makes all calls that are left, sends one message after them and enters the
-- calibrated state.
pub do_calibration-IsPass :
    (a : Answered) (opts : RunTimeOpts) (h : Calibrates) (state : WrState) (sys : Sys)
    → main_state state ≡ WrState.calibration
    → sys.port.wr_port_state ≡ state
    → let out = carry_out (drop (calls_behind state) (calibration_plan h)) state in
      IsPass WrState.calibrated sys (do_calibration a opts h state sys) (out.0) (out.1) (out.2)
unfolding do_calibration main_state
do_calibration-IsPass a opts h WrState.calibration sys m e =
    from_0 a opts h sys.port.wr_mode sys e refl
do_calibration-IsPass a opts h WrState.calibration_1 sys m e =
    from_1 a opts h sys.port.wr_mode sys e refl
do_calibration-IsPass a opts h WrState.calibration_2 sys m e =
    from_2 a opts h sys.port.wr_mode sys e refl
do_calibration-IsPass a opts h WrState.calibration_3 sys m e =
    from_3 a opts h sys.port.wr_mode sys e refl
do_calibration-IsPass a opts h WrState.calibration_4 sys m e =
    from_4 a opts h sys.port.wr_mode sys e refl
do_calibration-IsPass a opts h WrState.calibration_5 sys m e =
    from_5 a opts h sys.port.wr_mode sys e refl
do_calibration-IsPass a opts h WrState.calibration_6 sys m e =
    from_6 a opts h sys.port.wr_mode sys e refl
do_calibration-IsPass a opts h WrState.calibration_7 sys m e =
    from_7 a opts h sys.port.wr_mode sys e refl
do_calibration-IsPass a opts h WrState.calibration_8 sys m e =
    finish-Follows a opts h sys.port.wr_mode sys e refl
do_calibration-IsPass a opts h state sys m e = absurd (ground (arith, m))
