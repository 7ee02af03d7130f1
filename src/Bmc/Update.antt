-- ===== src/Bmc/Update.antt =====
-- The updates of the data sets in PTPWRd/bmc.c: m1, m3, p1, s1, s2 and copyD0. A function that
-- writes to the clock through the port takes both and gives both.
use ptp_noposix.Prelude.{ℕ, ◌+◌, Bool, true, false, ◌==◌, ◌!=◌, bit_and, bit_or, u8, u16, ◌<<<◌}
use ptp_noposix.Constants.{
  non_wr, wr_node_mode, wr_is_wr_mode, wr_is_calibrated, non_slave, primary_slave, secondary_slave,
  internal_oscillator,
}
use ptp_noposix.Datatypes.{MsgHeader, MsgAnnounce, PtpClockDs, PtpPortDs}
use ptp_noposix.Msg.Header.{msg_unpack_header}
use ptp_noposix.Msg.Announce.{msg_unpack_announce}

-- Table 13: the local clock is the master. (The update of the parent data set is compiled out.)
unfoldable pub m1 : PtpClockDs → PtpPortDs → PtpClockDs × PtpPortDs
m1 clock port = (
  record clock { time_source = internal_oscillator; primary_slave_port_number = 0 },
  record port {
    parent_wr_config = port.wr_config;
    parent_is_wr_node = port.wr_config != non_wr;
    parent_wr_mode_on = port.wr_mode_on;
    parent_calibrated = port.calibrated;
    wr_slave_role = non_slave;
  },
)

unfoldable pub m3 : PtpPortDs → PtpPortDs
m3 port = record port { wr_slave_role = non_slave }

unfoldable pub p1 : PtpPortDs → PtpPortDs
p1 port = record port { wr_slave_role = non_slave }

-- Table 16: the local clock follows the given master.
unfoldable pub s1 : MsgHeader → MsgAnnounce → PtpClockDs → PtpPortDs → PtpClockDs × PtpPortDs
s1 header announce clock port = (
  record clock {
    steps_removed = u16 (announce.steps_removed + 1);
    parent_port_identity = header.source_port_identity;
    grandmaster_identity = announce.grandmaster_identity;
    grandmaster_clock_quality = announce.grandmaster_clock_quality;
    grandmaster_priority1 = announce.grandmaster_priority1;
    grandmaster_priority2 = announce.grandmaster_priority2;
    primary_slave_port_number = port.port_identity.port_number;
    current_utc_offset = announce.current_utc_offset;
    current_utc_offset_valid = bit_and header.flag_field_1 0x04 == 0x04;
    leap59 = bit_and header.flag_field_1 0x02 == 0x02;
    leap61 = bit_and header.flag_field_1 0x01 == 0x01;
    time_traceable = bit_and header.flag_field_1 0x10 == 0x10;
    frequency_traceable = bit_and header.flag_field_1 0x20 == 0x20;
    ptp_timescale = bit_and header.flag_field_1 0x08 == 0x08;
    time_source = announce.time_source;
  },
  record port {
    parent_is_wr_node = bit_and announce.wr_flags wr_node_mode != non_wr;
    parent_wr_mode_on = bit_and announce.wr_flags wr_is_wr_mode == wr_is_wr_mode;
    parent_calibrated = bit_and announce.wr_flags wr_is_calibrated == wr_is_calibrated;
    parent_wr_config = bit_and announce.wr_flags wr_node_mode;
    wr_slave_role = primary_slave;
  },
)

-- A secondary slave: its foreign master is taken from the message in the input buffer.
unfoldable pub s2 : MsgHeader → PtpPortDs → PtpPortDs
s2 header port =
    let old = port.secondary_foreign_master in
    record port {
      wr_slave_role = secondary_slave;
      secondary_foreign_master = record {
        foreign_master_port_identity = header.source_port_identity;
        foreign_master_announce_messages = 0;
        reception_port_number = port.port_identity.port_number;
        announce = msg_unpack_announce old.announce port.msg_ibuf;
        header = msg_unpack_header port.msg_ibuf;
      };
    }

abbrev pub of_bool : Bool → ℕ
of_bool true = 1
of_bool false = 0

-- Table 12: the local data set as a header and an announce message.
unfoldable pub copy_d0 : PtpClockDs → PtpPortDs → MsgHeader × MsgAnnounce
copy_d0 clock port =
    let header = port.msg_tmp_header in
    let announce = port.msg_tmp_announce in
    let f1 = bit_and (bit_or announce.wr_flags port.wr_config) wr_node_mode in
    let f2 = bit_or f1 (of_bool port.calibrated <<< 2) in
    (
      record header {
        source_port_identity = record (header.source_port_identity) {
          clock_identity = port.clock_identity;
        };
      },
      record announce {
        grandmaster_priority1 = clock.priority1;
        grandmaster_identity = port.clock_identity;
        grandmaster_clock_quality = clock.clock_quality;
        grandmaster_priority2 = clock.priority2;
        steps_removed = 0;
        wr_flags = u8 (bit_or f2 (of_bool port.wr_mode_on <<< 3));
      },
    )
