-- ===== src/Handle/Signaling.antt =====
-- `handleSignaling` of PTPWRd/protocol.c.
use ptp_noposix.Prelude.{◌==◌, ◌&&◌, ◌||◌, Bool, if◌then◌else◌}
use ptp_noposix.Constants.{WrState, slave_present, wr_m_only, wr_m_and_s, wr_master}
use ptp_noposix.Datatypes.{PtpPortDs, RunTimeOpts}
use ptp_noposix.Msg.Signaling.{msg_unpack_wr_signaling}
use ptp_noposix.Bmc.Decision.{is_master}
use ptp_noposix.Port.{Answered, Sys}
use ptp_noposix.Port.Link.{to_wr_state}
use ptp_noposix.Issue.{on_port}

-- What the message tells is kept in the port.
unfoldable pub read_signaling : PtpPortDs → PtpPortDs
read_signaling port =
    let (target, id, told) =
      msg_unpack_wr_signaling port port.msg_tmp_wr_message_id port.msg_ibuf in
    record told { msg_tmp_wr_message_id = id }

-- A slave presents itself to a port that may be a White Rabbit master.
unfoldable pub meets_slave : PtpPortDs → Bool
meets_slave port =
    is_master port.port_state
    && (port.msg_tmp_wr_message_id == slave_present
        && (port.wr_config == wr_m_only || port.wr_config == wr_m_and_s))

unfoldable pub handle_signaling : Answered → RunTimeOpts → (is_from_self : Bool) → Sys → Sys
handle_signaling a opts is_from_self sys =
    let told = on_port read_signaling sys in
    if is_from_self
    then sys
    else if meets_slave told.port
    then to_wr_state a opts WrState.m_lock
        (on_port (λ port. record port { wr_mode = wr_master }) told)
    else told
