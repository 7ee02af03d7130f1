-- ===== src/Constants.antt =====
-- PTPWRd/constants.h: the states as data types, the other enumerations as numbers, since the code
-- stores them in octets and takes them apart by bits. `PTPD_NETIF_*` is libptpnetif/ptpd_netif.h.
use ptp_noposix.Prelude.{ℕ}
use ptp_noposix.Prelude.Int.{ℤ, pos, negsuc}

pub data PtpState : Type 0 where
  initializing faulty disabled listening pre_master master passive uncalibrated slave : PtpState

-- The numbers of the enumeration.
abbrev pub pts_index : PtpState → ℕ
pts_index PtpState.initializing = 0
pts_index PtpState.faulty = 1
pts_index PtpState.disabled = 2
pts_index PtpState.listening = 3
pts_index PtpState.pre_master = 4
pts_index PtpState.master = 5
pts_index PtpState.passive = 6
pts_index PtpState.uncalibrated = 7
pts_index PtpState.slave = 8

pub data WrState : Type 0 where
  present s_lock m_lock locked calibration calibrated resp_calib_req wr_link_on : WrState
  idle : WrState
  s_lock_1 s_lock_2 : WrState
  calibration_1 calibration_2 calibration_3 calibration_4 calibration_5 calibration_6 : WrState
  calibration_7 calibration_8 : WrState
  resp_calib_req_1 resp_calib_req_2 resp_calib_req_3 : WrState

-- The index of a main state in the arrays of timers; the other states have none.
abbrev pub wrs_index : WrState → ℕ
wrs_index WrState.present = 0
wrs_index WrState.s_lock = 1
wrs_index WrState.m_lock = 2
wrs_index WrState.locked = 3
wrs_index WrState.calibration = 4
wrs_index WrState.calibrated = 5
wrs_index WrState.resp_calib_req = 6
wrs_index WrState.wr_link_on = 7
wrs_index WrState.idle = 9
wrs_index WrState.s_lock_1 = 10
wrs_index WrState.s_lock_2 = 11
wrs_index WrState.calibration_1 = 12
wrs_index WrState.calibration_2 = 13
wrs_index WrState.calibration_3 = 14
wrs_index WrState.calibration_4 = 15
wrs_index WrState.calibration_5 = 16
wrs_index WrState.calibration_6 = 17
wrs_index WrState.calibration_7 = 18
wrs_index WrState.calibration_8 = 19
wrs_index WrState.resp_calib_req_1 = 20
wrs_index WrState.resp_calib_req_2 = 21
wrs_index WrState.resp_calib_req_3 = 22

abbrev pub wr_timer_array_size : ℕ
wr_timer_array_size = 8

-- wrConfig.
abbrev pub non_wr : ℕ
non_wr = 0

abbrev pub wr_m_only : ℕ
wr_m_only = 1

abbrev pub wr_s_only : ℕ
wr_s_only = 2

abbrev pub wr_m_and_s : ℕ
wr_m_and_s = 3

-- wrMode: PTPD_NETIF_TX and PTPD_NETIF_RX.
abbrev pub wr_master : ℕ
wr_master = 1

abbrev pub wr_slave : ℕ
wr_slave = 2

-- wrSlaveRole.
abbrev pub non_slave : ℕ
non_slave = 0

abbrev pub primary_slave : ℕ
primary_slave = 1

abbrev pub secondary_slave : ℕ
secondary_slave = 2

-- wr_flags.
abbrev pub wr_node_mode : ℕ
wr_node_mode = 0x03

abbrev pub wr_is_calibrated : ℕ
wr_is_calibrated = 0x04

abbrev pub wr_is_wr_mode : ℕ
wr_is_wr_mode = 0x08

-- wrMessageID.
abbrev pub null_wr_tlv : ℕ
null_wr_tlv = 0

abbrev pub slave_present : ℕ
slave_present = 0x1000

abbrev pub lock : ℕ
lock = 0x1001

abbrev pub locked_id : ℕ
locked_id = 0x1002

abbrev pub calibrate : ℕ
calibrate = 0x1003

abbrev pub calibrated_id : ℕ
calibrated_id = 0x1004

abbrev pub wr_mode_on_id : ℕ
wr_mode_on_id = 0x1005

abbrev pub ann_sufix : ℕ
ann_sufix = 0x2000

-- The configurations that the hardware reports, HEXP_PORT_MODE_* of wrsw_hal/hal_exports.h.
abbrev pub wr_mode_auto : ℕ
wr_mode_auto = 4

abbrev pub port_mode_wr_m_and_s : ℕ
port_mode_wr_m_and_s = 4

abbrev pub port_mode_wr_master : ℕ
port_mode_wr_master = 1

abbrev pub port_mode_wr_slave : ℕ
port_mode_wr_slave = 2

-- Lengths of messages.
abbrev pub header_length : ℕ
header_length = 34

abbrev pub announce_length : ℕ
announce_length = 64

abbrev pub sync_length : ℕ
sync_length = 44

abbrev pub follow_up_length : ℕ
follow_up_length = 44

abbrev pub delay_req_length : ℕ
delay_req_length = 44

abbrev pub delay_resp_length : ℕ
delay_resp_length = 54

abbrev pub pdelay_req_length : ℕ
pdelay_req_length = 54

abbrev pub pdelay_resp_length : ℕ
pdelay_resp_length = 54

abbrev pub pdelay_resp_follow_up_length : ℕ
pdelay_resp_follow_up_length = 54

abbrev pub wr_announce_tlv_length : ℕ
wr_announce_tlv_length = 10

abbrev pub wr_announce_length : ℕ
wr_announce_length = 78

abbrev pub wr_signaling_msg_base_length : ℕ
wr_signaling_msg_base_length = 48

-- The organization extension of White Rabbit.
abbrev pub tlv_type_org_extension : ℕ
tlv_type_org_extension = 0x0003

abbrev pub wr_tlv_organization_id : ℕ
wr_tlv_organization_id = 0x080030

abbrev pub wr_tlv_magic_number : ℕ
wr_tlv_magic_number = 0xDEAD

abbrev pub wr_tlv_wr_version_number : ℕ
wr_tlv_wr_version_number = 0x01

abbrev pub internal_oscillator : ℕ
internal_oscillator = 0xA0

abbrev pub two_step_flag_bit : ℕ
two_step_flag_bit = 0x02

-- The answers of the data set comparison.
abbrev pub a_better_by_topology_then_b : ℤ
a_better_by_topology_then_b = negsuc 1

abbrev pub a_better_then_b : ℤ
a_better_then_b = negsuc 0

abbrev pub b_better_then_a : ℤ
b_better_then_a = pos 1

abbrev pub b_better_by_topology_then_a : ℤ
b_better_by_topology_then_a = pos 2

abbrev pub a_equals_b : ℤ
a_equals_b = pos 0

abbrev pub dsc_error : ℤ
dsc_error = pos 0
