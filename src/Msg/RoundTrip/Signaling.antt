-- ===== src/Msg/RoundTrip/Signaling.antt =====
-- What a receiver unpacks from a White Rabbit signaling message.
use ptp_noposix.Prelude.{
  ℕ, ◌/◌, ◌%◌, ◌^◌, ◌<◌, ◌≡◌, ◌≢◌, refl, inl, inr, ap, ◌∙◌, Bool, true, false, ◌⊎◌, ◌==◌, ◌||◌,
  bit_and, bit_or, arith, if◌then◌else◌, ◌>>>◌, ◌<<<◌,
}
use ptp_noposix.Prelude.Bits.{bit_and_low, bit_or_disjoint}
use ptp_noposix.Constants.{
  non_wr, ann_sufix, calibrate, calibrated_id, slave_present, lock, locked_id, wr_mode_on_id,
}
use ptp_noposix.Datatypes.{Buf, PtpPortDs, PtpClockDs, FixedDelta}
use ptp_noposix.Buf.{get_be16, put_be16, put_be32, clear, put_identity, set_message_type}
use ptp_noposix.Buf.Laws.{read16, read32}
use ptp_noposix.Msg.Signaling.{build_wr_signaling, msg_pack_wr_signaling, msg_unpack_wr_signaling}

-- The words that a port sends about itself.
pub record IsSendable (port : PtpPortDs) : Type 0 where
  pub retry_fits : port.cal_retry < 2 ^ 8
  pub period_fits : port.cal_period < 2 ^ 32
  pub tx_fits : (port.delta_tx.msb < 2 ^ 32) × (port.delta_tx.lsb < 2 ^ 32)
  pub rx_fits : (port.delta_rx.msb < 2 ^ 32) × (port.delta_rx.lsb < 2 ^ 32)

-- What the receiver of a message learns of the sender: of CALIBRATE the calibration that it asks
-- for, of CALIBRATED its fixed delays.
abbrev pub learned : ℕ → PtpPortDs → PtpPortDs → PtpPortDs
learned id sender receiver =
    if id == calibrate
    then record receiver {
      other_node_cal_send_pattern = if sender.calibrated then 0 else 1;
      other_node_cal_retry = sender.cal_retry;
      other_node_cal_period = sender.cal_period;
    }
    else if id == calibrated_id
    then record receiver {
      other_node_delta_tx = sender.delta_tx;
      other_node_delta_rx = sender.delta_rx;
    }
    else receiver

abbrev pattern_word : ℕ → Bool → ℕ
pattern_word retry calibrated =
    if calibrated then bit_or (retry <<< 8) 0x0000 else bit_or (retry <<< 8) 0x0001

pattern_word_parts :
    (retry : ℕ) (calibrated : Bool)
    → retry < 256
    → (pattern_word retry calibrated < 2 ^ 16)
      × (pattern_word retry calibrated % 256 ≡ (if calibrated then 0 else 1))
      × (pattern_word retry calibrated / 256 ≡ retry)
pattern_word_parts retry true h = omega (arith, bit_or_disjoint 8 retry 0 (omega arith))
pattern_word_parts retry false h = omega (arith, bit_or_disjoint 8 retry 1 (omega arith))

module _ (clock : PtpClockDs) (sender receiver : PtpPortDs) (old_id : ℕ) (buf : Buf)
    (w : IsSendable sender) where
  calibrate_received :
      let (out, len) = build_wr_signaling clock sender calibrate buf in
      let (target, id, port) = msg_unpack_wr_signaling receiver old_id out in
      (len ≡ 68) × (id ≡ calibrate) × (port ≡ learned calibrate sender receiver)
  unfolding build_wr_signaling msg_unpack_wr_signaling put_be16 put_be32 get_be16 clear
      set_message_type put_identity
  calibrate_received =
      let out = (build_wr_signaling clock sender calibrate buf).0 in
      let x = pattern_word sender.cal_retry sender.calibrated in
      let parts = pattern_word_parts sender.cal_retry sender.calibrated w.retry_fits in
      let word = read16 56 x out refl refl parts.0 in
      let pattern = ap (λ (t : ℕ). bit_and 0xFF t) word ∙ bit_and_low 8 x ∙ parts.1 in
      let retry =
        ap (λ (t : ℕ). bit_and 0xFF (t >>> 8)) word
        ∙ bit_and_low 8 (x >>> 8)
        ∙ omega (arith, parts, w.retry_fits) in
      let period = read32 58 sender.cal_period out refl refl refl refl w.period_fits in
      (
        refl,
        refl,
        λ i. record receiver {
          other_node_cal_send_pattern = pattern i;
          other_node_cal_retry = retry i;
          other_node_cal_period = period i;
        },
      )

  delta_eq : (d : FixedDelta) {a b : ℕ} → a ≡ d.msb → b ≡ d.lsb → record { lsb = b; msb = a } ≡ d
  delta_eq d p q = λ i. record { lsb = q i; msb = p i }

  calibrated_received :
      let (out, len) = build_wr_signaling clock sender calibrated_id buf in
      let (target, id, port) = msg_unpack_wr_signaling receiver old_id out in
      (len ≡ 72) × (id ≡ calibrated_id) × (port ≡ learned calibrated_id sender receiver)
  unfolding build_wr_signaling msg_unpack_wr_signaling put_be16 put_be32 get_be16 clear
      set_message_type put_identity
  calibrated_received =
      let out = (build_wr_signaling clock sender calibrated_id buf).0 in
      let tx =
        delta_eq sender.delta_tx (read32 56 sender.delta_tx.msb out refl refl refl refl w.tx_fits.0)
          (read32 60 sender.delta_tx.lsb out refl refl refl refl w.tx_fits.1) in
      let rx =
        delta_eq sender.delta_rx (read32 64 sender.delta_rx.msb out refl refl refl refl w.rx_fits.0)
          (read32 68 sender.delta_rx.lsb out refl refl refl refl w.rx_fits.1) in
      (refl, refl, λ i. record receiver { other_node_delta_tx = tx i; other_node_delta_rx = rx i })

-- The messages that carry no data.
pub data IsPlain : ℕ → Type 0 where
  slave_present_plain : IsPlain slave_present
  lock_plain : IsPlain lock
  locked_plain : IsPlain locked_id
  wr_mode_on_plain : IsPlain wr_mode_on_id

plain_received :
    (clock : PtpClockDs) (sender receiver : PtpPortDs) (old_id : ℕ) (buf : Buf) {id : ℕ}
    → IsPlain id
    → let (out, len) = build_wr_signaling clock sender id buf in
      let (target, got, port) = msg_unpack_wr_signaling receiver old_id out in
      (len ≡ 56) × (got ≡ id) × (port ≡ learned id sender receiver)
unfolding build_wr_signaling msg_unpack_wr_signaling put_be16 put_be32 get_be16 clear
    set_message_type put_identity
plain_received clock sender receiver old_id buf slave_present_plain = (refl, refl, refl)
plain_received clock sender receiver old_id buf lock_plain = (refl, refl, refl)
plain_received clock sender receiver old_id buf locked_plain = (refl, refl, refl)
plain_received clock sender receiver old_id buf wr_mode_on_plain = (refl, refl, refl)

-- The messages of the White Rabbit link setup.
abbrev pub IsWrMessage : ℕ → Type 0
IsWrMessage id = (id ≡ calibrate) ⊎ ((id ≡ calibrated_id) ⊎ IsPlain id)

no_guard : (m id : ℕ) → m ≢ non_wr → id ≢ ann_sufix → (m == non_wr || id == ann_sufix) ≡ false
no_guard m id h k = ground arith

guarded : (m id : ℕ) → m ≡ non_wr → (m == non_wr || id == ann_sufix) ≡ true
guarded m id h = ground arith

not_suffix : {id : ℕ} → IsWrMessage id → id ≢ ann_sufix
not_suffix (inl e) h = omega (arith, e, h)
not_suffix (inr (inl e)) h = omega (arith, e, h)
not_suffix (inr (inr slave_present_plain)) h = omega (arith, h)
not_suffix (inr (inr lock_plain)) h = omega (arith, h)
not_suffix (inr (inr locked_plain)) h = omega (arith, h)
not_suffix (inr (inr wr_mode_on_plain)) h = omega (arith, h)

packed :
    (clock : PtpClockDs) (sender : PtpPortDs) (id : ℕ) (buf : Buf)
    → sender.wr_mode ≢ non_wr
    → id ≢ ann_sufix
    → msg_pack_wr_signaling clock sender id buf ≡ build_wr_signaling clock sender id buf
unfolding msg_pack_wr_signaling
packed clock sender id buf wr ne = rw ((no_guard sender.wr_mode id wr ne)) refl

packs_nothing :
    (clock : PtpClockDs) (sender : PtpPortDs) (id : ℕ) (buf : Buf)
    → sender.wr_mode ≡ non_wr
    → msg_pack_wr_signaling clock sender id buf ≡ (buf, 0)
unfolding msg_pack_wr_signaling
packs_nothing clock sender id buf e = rw ((guarded sender.wr_mode id e)) refl

received :
    (clock : PtpClockDs) (sender receiver : PtpPortDs) (old_id id : ℕ) (buf : Buf)
    → IsWrMessage id
    → IsSendable sender
    → let out = (build_wr_signaling clock sender id buf).0 in
      let r = msg_unpack_wr_signaling receiver old_id out in
      (r.1 ≡ id) × (r.2 ≡ learned id sender receiver)
received clock sender receiver old_id id buf (inl e) w =
    let p = calibrate_received clock sender receiver old_id buf w in rw e (p.1, p.2)
received clock sender receiver old_id id buf (inr (inl e)) w =
    let p = calibrated_received clock sender receiver old_id buf w in rw e (p.1, p.2)
received clock sender receiver old_id id buf (inr (inr m)) w =
    let p = plain_received clock sender receiver old_id buf m in (p.1, p.2)

-- A signaling message of the link setup, packed by a port in a White Rabbit mode whose retry count,
-- calibration period and fixed delays fit their fields, gives its receiver the message id and, with
-- CALIBRATE, the calibration that the sender asks for, or, with CALIBRATED, the fixed delays of the
-- sender; all else of the receiver stays.
pub unpack-pack_wr_signaling :
    (clock : PtpClockDs) (sender receiver : PtpPortDs) (old_id id : ℕ) (buf : Buf)
    → IsWrMessage id
    → IsSendable sender
    → sender.wr_mode ≢ non_wr
    → let out = (msg_pack_wr_signaling clock sender id buf).0 in
      let r = msg_unpack_wr_signaling receiver old_id out in
      (r.1 ≡ id) × (r.2 ≡ learned id sender receiver)
unpack-pack_wr_signaling clock sender receiver old_id id buf m w wr =
    rw (packed clock sender id buf wr (not_suffix m))
      (received clock sender receiver old_id id buf m w)

-- A port that is in no White Rabbit mode sends an empty message and leaves its buffer.
pub msg_pack_wr_signaling-non_wr :
    (clock : PtpClockDs) (sender : PtpPortDs) (id : ℕ) (buf : Buf)
    → sender.wr_mode ≡ non_wr
    → msg_pack_wr_signaling clock sender id buf ≡ (buf, 0)
msg_pack_wr_signaling-non_wr clock sender id buf e = packs_nothing clock sender id buf e
