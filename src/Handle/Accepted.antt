-- ===== src/Handle/Accepted.antt =====
-- Messages that `handle` gives to the handler of their type, and those that it ignores.
use ptp_noposix.Prelude.{ℕ, ◌≤◌, ◌≡◌, ◌∙◌, false, if◌then◌else◌, if_true, if_false, arith}
use ptp_noposix.Prelude.Int.{pos, ltb_ℤ, eqb_ℤ}
use ptp_noposix.Constants.{header_length}
use ptp_noposix.Datatypes.{MsgHeader, RunTimeOpts}
use ptp_noposix.Msg.Header.{msg_unpack_header}
use ptp_noposix.Port.{Sys}
use ptp_noposix.Issue.{on_port}
use ptp_noposix.Handle.{Received, store_message, read_message, is_accepted, dispatch, handle}

-- The message is in the port, and its header is read.
abbrev pub read_in : Received → Sys → Sys
read_in r sys = on_port read_message (on_port (store_message r) sys)

-- The version and the domain of the message are those of the receiver.
abbrev pub IsAddressed : MsgHeader → Sys → Type 0
IsAddressed header sys =
    (header.version_ptp ≡ sys.port.version_number)
    × (header.domain_number ≡ sys.clock.domain_number)

module _ (r : Received) (opts : RunTimeOpts) (sys : Sys) (n : ℕ) where
  long_enough :
      r.length ≡ pos n
      → header_length ≤ n
      → (ltb_ℤ r.length (pos 0) ≡ false)
        × (eqb_ℤ r.length (pos 0) ≡ false)
        × (ltb_ℤ r.length (pos header_length) ≡ false)
  long_enough e h = rw e (ground arith)

  handle-read :
      r.length ≡ pos n
      → header_length ≤ n
      → handle r opts sys ≡ (
          if is_accepted (read_in r sys)
          then dispatch r opts (read_in r sys).port.msg_tmp_header (read_in r sys)
          else read_in r sys)
  unfolding handle
  handle-read e h =
      let (c1, c2, c3) = long_enough e h in if_false _ _ c1 ∙ if_false _ _ c2 ∙ if_false _ _ c3

  pub handle-dispatch :
      r.length ≡ pos n
      → header_length ≤ n
      → IsAddressed (msg_unpack_header r.content) sys
      → handle r opts sys ≡ dispatch r opts (msg_unpack_header r.content) (read_in r sys)
  unfolding is_accepted store_message read_message
  handle-dispatch e h (v, d) =
      handle-read e h ∙ if_true {b = is_accepted (read_in r sys)} _ _ (ground (arith, v, d))
