-- ===== src/Exchange/Sync.antt =====
-- A Sync and its Follow_up, from a master to its slave.
use ptp_noposix.Prelude.{
  ℕ, ◌^◌, ◌<◌, ◌≡◌, refl, sym, ap, ◌∙◌, true, false, bit_and, u32, arith, [], ◌∷◌, ◌++◌, ltb,
}
use ptp_noposix.Prelude.Int.{pos, eqb_ℤ, i32, i32_fits}
use ptp_noposix.Time.{TimeInternal, int_max, to_internal_time}
use ptp_noposix.Stamp.{timeint_to_wr}
use ptp_noposix.Constants.{sync_length, follow_up_length}
use ptp_noposix.Datatypes.{Buf, WrTimestamp, PtpPortDs, RunTimeOpts}
use ptp_noposix.Datatypes.Empty.{empty_timestamp}
use ptp_noposix.Msg.Header.{msg_unpack_header}
use ptp_noposix.Msg.Event.{msg_pack_sync, msg_pack_follow_up}
use ptp_noposix.Msg.RoundTrip.{wire_time, unpack-pack_sync, unpack-pack_follow_up}
use ptp_noposix.Servo.{Servo, wr_servo_got_sync}
use ptp_noposix.Port.{Answered, Sys, send_event, send_general}
use ptp_noposix.Issue.{on_port, transmit, issue_sync, issue_followup, issue_delay_req}
use ptp_noposix.Handle.{Received, store_message, read_message, handle}
use ptp_noposix.Handle.Sync.{accept_follow_up}
use ptp_noposix.Handle.Accepted.{read_in}
use ptp_noposix.Exchange.{delivered}
use ptp_noposix.Exchange.Pair.{
  waits_for_follow, IsOfParent, handle-sync, handle-follow_up, pack_sync-header,
  pack_follow_up-header, pack_sync-octet, after_sync, issue_sync-port, issue_followup-port,
}

-- What the servo of the slave measured.
abbrev pub HasMeasured : Servo → (sent received : WrTimestamp) → Type 0
HasMeasured servo t1 t2 =
    (servo.got_sync ≡ true)
    × (servo.s.t1 ≡ record { sec = pos t1.sec; nsec = pos t1.nsec; phase = pos 0; correct = pos 1 })
    × (servo.s.t2 ≡ record {
      sec = i32 (pos t2.sec);
      nsec = i32 (pos t2.nsec);
      phase = t2.phase;
      correct = t2.correct;
    })

-- The time in a Follow_up message, as the servo keeps it.
wire_time-measured :
    (garbage : TimeInternal) (sec nsec : ℕ)
    → sec < int_max
    → nsec < 2 ^ 31
    → record (timeint_to_wr
        (record (to_internal_time garbage (wire_time sec nsec)) { phase = pos 0 })) {
          correct = pos 1;
        }
      ≡ record { sec = pos sec; nsec = pos nsec; phase = pos 0; correct = pos 1 }
unfolding to_internal_time timeint_to_wr
wire_time-measured garbage sec nsec hs hn =
    let small : u32 sec ≡ sec = omega arith in
    let before : ltb sec int_max ≡ true = ground arith in
    rw (small, before, i32_fits (pos nsec) (hn, omega arith)) refl

module _ (r1 r2 : Received) (opts : RunTimeOpts) (a : Answered) (master : PtpPortDs)
    (sys : Sys) where
  abbrev buf1 : Buf
  buf1 = msg_pack_sync empty_timestamp master master.msg_obuf

  abbrev buf2 : Buf
  buf2 = msg_pack_follow_up (after_sync a master) buf1

  pair_received :
      master.msg_obuf 0 < 256
      → master.sent_sync_sequence_id < 2 ^ 16
      → a.stamp.sec < int_max
      → a.stamp.nsec < 2 ^ 31
      → bit_and (msg_unpack_header master.msg_obuf).flag_field_0 2 ≡ 2
      → IsOfParent (msg_unpack_header master.msg_obuf) sys
      → HasMeasured
          (handle
            (delivered buf2 follow_up_length r2)
            opts
            (handle (delivered buf1 sync_length r1) opts sys)).servo
          a.stamp
          r1.rx_ts
  unfolding store_message read_message accept_follow_up issue_delay_req transmit wr_servo_got_sync
      timeint_to_wr
  pair_received h0 hs hsec hnsec two (addressed, source, other, slave) =
      let (type1, _, id1, _, _) =
        unpack-pack_sync empty_timestamp master master.msg_obuf h0 (ground arith) hs in
      let (type2, _, id2, time) =
        unpack-pack_follow_up (after_sync a master) buf1 master.sent_sync_sequence_id
          (pack_sync-octet empty_timestamp master master.msg_obuf h0) hs refl (omega arith) in
      let h1 = msg_unpack_header buf1 in
      let h2 = msg_unpack_header buf2 in
      let (v1, d1, f1, s1) = pack_sync-header empty_timestamp master master.msg_obuf in
      let (v2, d2, s2) = pack_follow_up-header (after_sync a master) buf1 in
      let first = delivered buf1 sync_length r1 in
      let second = delivered buf2 follow_up_length r2 in
      let noted = on_port (waits_for_follow h1) (read_in first sys) in
      let e1 : handle first opts sys ≡ noted =
        handle-sync first opts sys h1 refl refl type1 (rw f1 two)
          ((v1 ∙ addressed.0, d1 ∙ addressed.1), s1 ∙ source, other, slave) in
      let e2 : handle second opts noted
          ≡ accept_follow_up second.reply opts second.garbage (read_in second noted) =
        handle-follow_up second opts noted h2 refl refl type2 refl (id1 ∙ sym id2)
          ((v2 ∙ v1 ∙ addressed.0, d2 ∙ d1 ∙ addressed.1), s2 ∙ s1 ∙ source, other, slave) in
      rw (e1, e2)
        (refl, rw time (wire_time-measured r2.garbage a.stamp.sec a.stamp.nsec hsec hnsec), refl)

-- The two messages of the master.
unfoldable pub IsPair : (master first second : Sys) → Type 0
IsPair master first second =
    second.calls
    ≡ (master.calls ++ send_event first.port.msg_obuf sync_length ∷ [])
      ++ send_general second.port.msg_obuf follow_up_length ∷ []

issue_sync-calls :
    (a : Answered) (opts : RunTimeOpts) (sys : Sys)
    → (issue_sync a opts sys).calls
      ≡ sys.calls
        ++ send_event (msg_pack_sync empty_timestamp sys.port sys.port.msg_obuf) sync_length ∷ []
unfolding issue_sync transmit
issue_sync-calls a opts sys = refl

issue_followup-calls :
    (a : Answered) (opts : RunTimeOpts) (sys : Sys)
    → (issue_followup a opts sys).calls
      ≡ sys.calls
        ++ send_general (msg_pack_follow_up sys.port sys.port.msg_obuf) follow_up_length ∷ []
unfolding issue_followup transmit
issue_followup-calls a opts sys = refl

IsPair-sent :
    (opts : RunTimeOpts) (a f : Answered) (master : Sys)
    → eqb_ℤ a.sent (pos 0) ≡ false
    → eqb_ℤ f.sent (pos 0) ≡ false
    → IsPair master (issue_sync a opts master) (issue_followup f opts (issue_sync a opts master))
unfolding IsPair
IsPair-sent opts a f master sent sent' =
    let first = issue_sync a opts master in
    let b1 : msg_pack_sync empty_timestamp master.port master.port.msg_obuf ≡ first.port.msg_obuf =
      sym (ap (λ (p : PtpPortDs). p.msg_obuf) (issue_sync-port a opts master sent)) in
    let b2 : msg_pack_follow_up first.port first.port.msg_obuf
        ≡ (issue_followup f opts first).port.msg_obuf =
      sym (ap (λ (p : PtpPortDs). p.msg_obuf) (issue_followup-port f opts first sent')) in
    issue_followup-calls f opts first
    ∙ ap (λ b. first.calls ++ send_general b follow_up_length ∷ []) b2
    ∙ ap
        (λ cs.
          cs ++ send_general ((issue_followup f opts first).port.msg_obuf) follow_up_length ∷ [])
        (issue_sync-calls a opts master
          ∙ ap (λ b. master.calls ++ send_event b sync_length ∷ []) b1)

-- If a master whose senders do not answer 0 issues a Sync and a Follow_up, it sends these two
-- messages after its earlier calls; and if they are handed to a slave whose parent it is, in the
-- domain and version of the slave, then the servo of the slave holds as t1 the time at which the
-- hardware of the master sent the Sync, with phase 0, and as t2 the time at which the slave
-- received it, across the wrap of the sequence id; provided that the header in the output buffer of
-- the master is its own with the two-step flag, its first octet is an octet, the sequence id fits
-- its field, the seconds are below INT_MAX and the nanoseconds below 2^31.
pub handle-issue_sync :
    (r1 r2 : Received) (opts opts' : RunTimeOpts) (a f : Answered) (master slave : Sys)
    → eqb_ℤ a.sent (pos 0) ≡ false
    → eqb_ℤ f.sent (pos 0) ≡ false
    → master.port.msg_obuf 0 < 256
    → master.port.sent_sync_sequence_id < 2 ^ 16
    → a.stamp.sec < int_max
    → a.stamp.nsec < 2 ^ 31
    → bit_and (msg_unpack_header master.port.msg_obuf).flag_field_0 2 ≡ 2
    → IsOfParent (msg_unpack_header master.port.msg_obuf) slave
    → let first = issue_sync a opts master in
      let second = issue_followup f opts first in
      IsPair master first second
      × HasMeasured
          (handle
            (delivered second.port.msg_obuf follow_up_length r2)
            opts'
            (handle (delivered first.port.msg_obuf sync_length r1) opts' slave)).servo
          a.stamp
          r1.rx_ts
handle-issue_sync r1 r2 opts opts' a f master slave sent sent' h0 hs hsec hnsec two parent =
    let first = issue_sync a opts master in
    let second = issue_followup f opts first in
    let e1 : first.port ≡ after_sync a master.port = issue_sync-port a opts master sent in
    let e2 : second.port.msg_obuf ≡ buf2 r1 r2 opts' a master.port slave =
      ap (λ (p : PtpPortDs). p.msg_obuf) (issue_followup-port f opts first sent')
      ∙ ap (λ (p : PtpPortDs). msg_pack_follow_up p p.msg_obuf) e1 in
    let e1' : first.port.msg_obuf ≡ buf1 r1 r2 opts' a master.port slave =
      ap (λ (p : PtpPortDs). p.msg_obuf) e1 in
    (
      IsPair-sent opts a f master sent sent',
      rw (e2, e1') (pair_received r1 r2 opts' a master.port slave h0 hs hsec hnsec two parent),
    )
