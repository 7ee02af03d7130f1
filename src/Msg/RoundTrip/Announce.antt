-- ===== src/Msg/RoundTrip/Announce.antt =====
-- What a receiver unpacks from an Announce message.
use ptp_noposix.Prelude.{
  ℕ, zero, suc, ◌*◌, ◌/◌, ◌%◌, ◌^◌, ◌<◌, ◌≤◌, ◌≡◌, refl, ap, ◌∙◌, Bool, true, false, ◌⊎◌, ◌==◌,
  bit_and, bit_or, arith, u16, ◌>>>◌, ◌<<<◌,
}
use ptp_noposix.Prelude.Bits.{bit_or_comm, bit_or_disjoint}
use ptp_noposix.Prelude.Int.{ℤ, pos, negsuc, pos_part, neg_part, signed16}
use ptp_noposix.Constants.{
  non_wr, wr_m_only, wr_s_only, wr_m_and_s, wr_node_mode, wr_is_calibrated, wr_is_wr_mode,
}
use ptp_noposix.Datatypes.{Buf, MsgAnnounce, PtpPortDs, PtpClockDs, ClockQuality}
use ptp_noposix.Buf.{get_be16, get_identity, put_be16, clear, put_identity, set_message_type}
use ptp_noposix.Buf.Laws.{read16}
use ptp_noposix.Msg.Header.{msg_unpack_header}
use ptp_noposix.Msg.Announce.{
  announces_wr, pattern16, suffix_flags, put_announce, msg_pack_announce, msg_unpack_announce,
}
use ptp_noposix.Msg.RoundTrip.{message_type_read}

signed16-pattern16 :
    (w : ℕ) (a : ℤ) → w ≡ pattern16 a → pos_part a < 2 ^ 15 → neg_part a ≤ 2 ^ 15 → signed16 w ≡ a
signed16-pattern16 w (pos n) e h k = ground arith
signed16-pattern16 w (negsuc n) e h k = ground arith

-- The two octets of `stepsRemoved`, the lower one first.
steps_read : (s : ℕ) → s < 2 ^ 16 → u16 (bit_or (s % 256) (((s >>> 8) % 256) <<< 8)) ≡ s
steps_read s h = omega (
  arith,
  bit_or_comm (s % 256) ((s / 2 ^ 8) % 256 * 2 ^ 8),
  bit_or_disjoint 8 ((s / 2 ^ 8) % 256) (s % 256) (omega arith),
)

quality_eq :
    {q : ClockQuality} {v : ℕ}
    → v ≡ q.offset_scaled_log_variance
    → record {
      clock_class = q.clock_class;
      clock_accuracy = q.clock_accuracy;
      offset_scaled_log_variance = v;
    }
      ≡ q
quality_eq {q} e = λ i. record q { offset_scaled_log_variance = e i }

-- The tests by which `s1` of bmc.c takes the flags apart.
abbrev pub Decodes : ℕ → ℕ → Bool → Bool → Type 0
Decodes f wr_config calibrated wr_mode_on =
    (bit_and f wr_node_mode ≡ wr_config)
    × ((bit_and f wr_is_calibrated == wr_is_calibrated) ≡ calibrated)
    × ((bit_and f wr_is_wr_mode == wr_is_wr_mode) ≡ wr_mode_on)

flags_decode :
    (c : ℕ) (cal on : Bool)
    → c < 4
    → (suffix_flags c cal on < 16) × Decodes (suffix_flags c cal on) c cal on
flags_decode zero true true h = (omega arith, (refl, refl, refl))
flags_decode zero true false h = (omega arith, (refl, refl, refl))
flags_decode zero false true h = (omega arith, (refl, refl, refl))
flags_decode zero false false h = (omega arith, (refl, refl, refl))
flags_decode (suc zero) true true h = (omega arith, (refl, refl, refl))
flags_decode (suc zero) true false h = (omega arith, (refl, refl, refl))
flags_decode (suc zero) false true h = (omega arith, (refl, refl, refl))
flags_decode (suc zero) false false h = (omega arith, (refl, refl, refl))
flags_decode (suc (suc zero)) true true h = (omega arith, (refl, refl, refl))
flags_decode (suc (suc zero)) true false h = (omega arith, (refl, refl, refl))
flags_decode (suc (suc zero)) false true h = (omega arith, (refl, refl, refl))
flags_decode (suc (suc zero)) false false h = (omega arith, (refl, refl, refl))
flags_decode (suc (suc (suc zero))) true true h = (omega arith, (refl, refl, refl))
flags_decode (suc (suc (suc zero))) true false h = (omega arith, (refl, refl, refl))
flags_decode (suc (suc (suc zero))) false true h = (omega arith, (refl, refl, refl))
flags_decode (suc (suc (suc zero))) false false h = (omega arith, (refl, refl, refl))
flags_decode (suc (suc (suc (suc c)))) cal on h = absurd (omega arith)

-- The 16-bit fields of the data sets that an Announce message carries.
pub record IsAnnounceable (clock : PtpClockDs) (port : PtpPortDs) : Type 0 where
  pub id_fits : port.sent_announce_sequence_id < 2 ^ 16
  pub variance_fits : clock.clock_quality.offset_scaled_log_variance < 2 ^ 16
  pub steps_fit : clock.steps_removed < 2 ^ 16
  pub utc_fits : pos_part clock.current_utc_offset < 2 ^ 15
  pub utc_fits_below : neg_part clock.current_utc_offset ≤ 2 ^ 15

module _ (clock : PtpClockDs) (port : PtpPortDs) (old : MsgAnnounce) (buf : Buf) where
  common :
      (wr : Bool)
      → buf 0 < 256
      → IsAnnounceable clock port
      → let out = put_announce wr clock port buf in
        let h = msg_unpack_header out in
        let a = msg_unpack_announce old out in
        (h.message_type ≡ 11)
        × (h.sequence_id ≡ port.sent_announce_sequence_id)
        × (a.current_utc_offset ≡ clock.current_utc_offset)
        × (a.grandmaster_priority1 ≡ clock.grandmaster_priority1)
        × (a.grandmaster_clock_quality ≡ clock.clock_quality)
        × (a.grandmaster_priority2 ≡ clock.grandmaster_priority2)
        × (a.grandmaster_identity ≡ clock.grandmaster_identity)
        × (a.steps_removed ≡ clock.steps_removed)
        × (a.time_source ≡ clock.time_source)
  unfolding put_announce msg_unpack_header msg_unpack_announce put_be16 clear set_message_type
      get_identity put_identity
  common true h0 w =
      let out = put_announce true clock port buf in
      (
        message_type_read 11 (buf 0) h0 (omega arith),
        read16 30 port.sent_announce_sequence_id out refl refl w.id_fits,
        signed16-pattern16 _ clock.current_utc_offset
            (read16 44 (pattern16 clock.current_utc_offset) out refl refl (omega arith)) w.utc_fits
            w.utc_fits_below,
        refl,
        quality_eq (
            read16 50 clock.clock_quality.offset_scaled_log_variance out refl refl w.variance_fits),
        refl,
        refl,
        steps_read clock.steps_removed w.steps_fit,
        refl,
      )
  common false h0 w =
      let out = put_announce false clock port buf in
      (
        message_type_read 11 (buf 0) h0 (omega arith),
        read16 30 port.sent_announce_sequence_id out refl refl w.id_fits,
        signed16-pattern16 _ clock.current_utc_offset
            (read16 44 (pattern16 clock.current_utc_offset) out refl refl (omega arith)) w.utc_fits
            w.utc_fits_below,
        refl,
        quality_eq (
            read16 50 clock.clock_quality.offset_scaled_log_variance out refl refl w.variance_fits),
        refl,
        refl,
        steps_read clock.steps_removed w.steps_fit,
        refl,
      )

  -- The octet of flags is read where there is a suffix, and stays where there is none.
  flags :
      (wr : Bool)
      → port.wr_config < 4
      → (wr ≡ true
          → (msg_unpack_announce old (put_announce wr clock port buf)).wr_flags
            ≡ suffix_flags port.wr_config port.calibrated port.wr_mode_on)
        × (wr ≡ false
            → (msg_unpack_announce old (put_announce wr clock port buf)).wr_flags ≡ old.wr_flags)
  unfolding put_announce msg_unpack_announce put_be16 get_be16 clear set_message_type put_identity
  flags true hc = (
    λ e.
        let f = suffix_flags port.wr_config port.calibrated port.wr_mode_on in
        let small = (flags_decode port.wr_config port.calibrated port.wr_mode_on hc).0 in
        ap (λ (t : ℕ). t % 2 ^ 8)
          (read16 76 f (put_announce true clock port buf) refl refl (omega (arith, small)))
        ∙ omega (arith, small),
    λ e. cc,
  )
  flags false hc = (λ e. cc, λ e. refl)

-- The receiver of an Announce message reads its type, its sequence id, and the utc offset,
-- grandmaster priorities and identity, the quality of the local clock, the steps and the time
-- source of the sender, if the first octet of the buffer is an octet and the sequence id, the
-- variance, the steps and the utc offset fit their fields.
pub unpack-pack_announce :
    (clock : PtpClockDs) (port : PtpPortDs) (old : MsgAnnounce) (buf : Buf)
    → buf 0 < 256
    → IsAnnounceable clock port
    → let out = msg_pack_announce clock port buf in
      let h = msg_unpack_header out in
      let a = msg_unpack_announce old out in
      (h.message_type ≡ 11)
      × (h.sequence_id ≡ port.sent_announce_sequence_id)
      × (a.current_utc_offset ≡ clock.current_utc_offset)
      × (a.grandmaster_priority1 ≡ clock.grandmaster_priority1)
      × (a.grandmaster_clock_quality ≡ clock.clock_quality)
      × (a.grandmaster_priority2 ≡ clock.grandmaster_priority2)
      × (a.grandmaster_identity ≡ clock.grandmaster_identity)
      × (a.steps_removed ≡ clock.steps_removed)
      × (a.time_source ≡ clock.time_source)
unfolding msg_pack_announce
unpack-pack_announce clock port old buf h0 w = common clock port old buf (announces_wr port) h0 w

-- The receiver of an Announce message of a port that is configured as a White Rabbit master (or
-- master and slave) decodes from its flags that configuration, whether the port is calibrated and
-- whether it is in White Rabbit mode.
pub unpack-pack_announce_flags :
    (clock : PtpClockDs) (port : PtpPortDs) (old : MsgAnnounce) (buf : Buf)
    → port.wr_config < 4
    → (port.wr_config ≡ wr_m_only) ⊎ (port.wr_config ≡ wr_m_and_s)
    → let a = msg_unpack_announce old (msg_pack_announce clock port buf) in
      Decodes a.wr_flags port.wr_config port.calibrated port.wr_mode_on
unfolding msg_pack_announce
unpack-pack_announce_flags clock port old buf hc h =
    let (kept, stays) = flags clock port old buf (announces_wr port) hc in
    let decodes = flags_decode port.wr_config port.calibrated port.wr_mode_on hc in
    let e = kept (unfold announces_wr in ground arith) in rw e decodes.1

-- An Announce message of a port that is configured as no White Rabbit port or as a slave leaves the
-- flags that the structure of the receiver had.
unpack-pack_announce_plain :
    (clock : PtpClockDs) (port : PtpPortDs) (old : MsgAnnounce) (buf : Buf)
    → (port.wr_config ≡ non_wr) ⊎ (port.wr_config ≡ wr_s_only)
    → (msg_unpack_announce old (msg_pack_announce clock port buf)).wr_flags ≡ old.wr_flags
unfolding msg_pack_announce
unpack-pack_announce_plain clock port old buf h =
    (flags clock port old buf (announces_wr port) (omega arith)).1
      (unfold announces_wr in ground arith)
