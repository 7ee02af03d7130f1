-- ===== src/Port/Lock.antt =====
-- One pass of the lock against its plan.
use mathlib.Core.List.{append-nil}
use mathlib.Core.Path.{subst}
use ptp_noposix.Prelude.{
  ℕ, ◌≡◌, ◌⊎◌, inl, inr, refl, sym, ap, ◌∙◌, [], ◌∷◌, ◌++◌, drop, true, false, if◌then◌else◌, ◌==◌,
  arith,
}
use ptp_noposix.Constants.{WrState, primary_slave, secondary_slave, locked_id}
use ptp_noposix.Datatypes.{RunTimeOpts}
use ptp_noposix.Wr.{wr_timetout_manage, main_state}
use ptp_noposix.Msg.Signaling.{msg_pack_wr_signaling}
use ptp_noposix.Port.{
  send_general, locking_enable, locking_poll, locking_disable, Answered, Sys,
  issue_wr_signaling_msg,
}
use ptp_noposix.Port.Link.{to_wr_state, enter_wr_state, leave_wr_state}
use ptp_noposix.Port.Attempt.{
  Locks, attempt, substate, lock_from_0, lock_from_1, lock_from_2, lock_with, do_lock,
}
use ptp_noposix.Port.Progress.{Plan, carry_out, IsPass, Follows, attempt-Follows}

-- The plan of the lock, with the mode and the priority that every call names.
abbrev pub lock_plan : Locks → (mode priority : ℕ) → Plan
lock_plan h mode priority =
    (locking_enable mode priority, h.enabled, WrState.s_lock_1)
    ∷ (locking_poll mode priority, h.locked, WrState.s_lock_2)
    ∷ (locking_disable mode priority, h.disabled, WrState.s_lock_2)
    ∷ []

abbrev pub locks_behind : WrState → ℕ
locks_behind WrState.s_lock_1 = 1
locks_behind WrState.s_lock_2 = 2
locks_behind state = 0

module _ (a : Answered) (opts : RunTimeOpts) (h : Locks) (mode priority : ℕ) where
  abbrev left : ℕ → Plan
  left n = drop n (lock_plan h mode priority)

  enter_locked : Follows WrState.locked mode [] WrState.s_lock_2 (to_wr_state a opts WrState.locked)
  unfolding carry_out IsPass to_wr_state enter_wr_state wr_timetout_manage issue_wr_signaling_msg
  enter_locked sys e m =
      let port = leave_wr_state a sys.port in
      let packed = msg_pack_wr_signaling sys.clock port locked_id port.msg_obuf in
      (
        record {
          message = packed.0;
          len = packed.1;
          is =
              ap (λ xs. xs ++ send_general (packed.0) (packed.1) ∷ []) (sym (append-nil sys.calls));
        },
        refl,
      )

  -- A pass whose first call names the mode of the port.
  with_mode :
      (plan : Plan) (state : WrState) (pass : ℕ → Sys → Sys)
      → Follows WrState.locked mode plan state (pass mode)
      → Follows WrState.locked mode plan state (λ sys. pass sys.port.wr_mode sys)
  with_mode plan state pass f sys e m =
      let out = carry_out plan state in
      subst (λ c. IsPass WrState.locked sys (pass c sys) (out.0) (out.1) (out.2)) (sym m)
        (f sys e m)

  from_2 : Follows WrState.locked mode (left 2) WrState.s_lock_2 (lock_from_2 a opts h priority)
  unfolding lock_from_2
  from_2 =
      with_mode _ _
        (λ c.
          attempt (locking_disable c priority) h.disabled (λ port. port)
            (to_wr_state a opts WrState.locked))
        (attempt-Follows _ _ _ _ _ _ _ _ _ (λ port e. e) (λ port. refl) enter_locked)

  from_1 : Follows WrState.locked mode (left 1) WrState.s_lock_1 (lock_from_1 a opts h priority)
  unfolding lock_from_1
  from_1 =
      with_mode _ _
        (λ c.
          attempt (locking_poll c priority) h.locked (substate WrState.s_lock_2)
            (lock_from_2 a opts h priority))
        (attempt-Follows _ _ _ _ _ _ _ _ _ (λ port e. refl) (λ port. refl) from_2)

  from_0 : Follows WrState.locked mode (left 0) WrState.s_lock (lock_from_0 a opts h priority)
  unfolding lock_from_0
  from_0 =
      with_mode _ _
        (λ c.
          attempt (locking_enable c priority) h.enabled (substate WrState.s_lock_1)
            (lock_from_1 a opts h priority))
        (attempt-Follows _ _ _ _ _ _ _ _ _ (λ port e. refl) (λ port. refl) from_1)

lock_with-IsPass :
    (a : Answered) (opts : RunTimeOpts) (h : Locks) (priority : ℕ) (state : WrState) (sys : Sys)
    → main_state state ≡ WrState.s_lock
    → sys.port.wr_port_state ≡ state
    → let out =
        carry_out (drop (locks_behind state) (lock_plan h sys.port.wr_mode priority)) state in
      IsPass WrState.locked sys (lock_with a opts h priority state sys) (out.0) (out.1) (out.2)
unfolding lock_with main_state
lock_with-IsPass a opts h priority WrState.s_lock sys m e =
    from_0 a opts h sys.port.wr_mode priority sys e refl
lock_with-IsPass a opts h priority WrState.s_lock_1 sys m e =
    from_1 a opts h sys.port.wr_mode priority sys e refl
lock_with-IsPass a opts h priority WrState.s_lock_2 sys m e =
    from_2 a opts h sys.port.wr_mode priority sys e refl
lock_with-IsPass a opts h priority state sys m e = absurd (ground (arith, m))

-- The role of a port, and the priority with which it locks.
abbrev pub LocksWith : (role priority : ℕ) → Type 0
LocksWith role priority =
    ((role ≡ primary_slave) × (priority ≡ 0)) ⊎ ((role ≡ secondary_slave) × (priority ≡ 1))

by_role :
    (a : Answered) (opts : RunTimeOpts) (h : Locks) (priority : ℕ) (state : WrState) (sys : Sys)
    → LocksWith sys.port.wr_slave_role priority
    → do_lock a opts h state sys ≡ lock_with a opts h priority state sys
unfolding do_lock
by_role a opts h priority state sys r =
    let role = sys.port.wr_slave_role in
    let rest = if role == secondary_slave then lock_with a opts h 1 state sys else sys in
    elim r [
      | inl (p, q) ↦
          let first : (role == primary_slave) ≡ true = ground (arith, p) in
          ap (λ b. if b then lock_with a opts h 0 state sys else rest) first
          ∙ ap (λ n. lock_with a opts h n state sys) (sym q)
      | inr (p, q) ↦
          let other : (role == primary_slave) ≡ false = ground (arith, p) in
          let second : (role == secondary_slave) ≡ true = ground (arith, p) in
          ap (λ b. if b then lock_with a opts h 0 state sys else rest) other
          ∙ ap (λ b. if b then lock_with a opts h 1 state sys else sys) second
          ∙ ap (λ n. lock_with a opts h n state sys) (sym q)
    ]

-- From any substate of the lock, in a port that is a primary slave, with priority 0, or a secondary
-- slave, with priority 1, one pass refines the plan of the lock (enable, poll, disable, with the
-- mode and that priority), carried out from the call of that substate: it makes exactly the calls
-- up to the first that fails and stays in the substate that the plan reaches, or, if none fails,
-- makes all calls that are left, sends one message after them and enters the locked state.
pub do_lock-IsPass :
    (a : Answered) (opts : RunTimeOpts) (h : Locks) (priority : ℕ) (state : WrState) (sys : Sys)
    → LocksWith sys.port.wr_slave_role priority
    → main_state state ≡ WrState.s_lock
    → sys.port.wr_port_state ≡ state
    → let out =
        carry_out (drop (locks_behind state) (lock_plan h sys.port.wr_mode priority)) state in
      IsPass WrState.locked sys (do_lock a opts h state sys) (out.0) (out.1) (out.2)
do_lock-IsPass a opts h priority state sys r m e =
    let out = carry_out (drop (locks_behind state) (lock_plan h sys.port.wr_mode priority)) state in
    subst (λ end. IsPass WrState.locked sys end (out.0) (out.1) (out.2))
      (sym (by_role a opts h priority state sys r))
      (lock_with-IsPass a opts h priority state sys m e)
