-- ===== src/Issue/Synced.antt =====
-- The sync timer and the state of a port over the messages that it sends.
use ptp_noposix.Prelude.{refl, if_intro}
use ptp_noposix.Prelude.Int.{pos, eqb_ℤ}
use ptp_noposix.Datatypes.{MsgHeader, PtpPortDs, RunTimeOpts}
use ptp_noposix.Port.{LinkCall, Answered}
use ptp_noposix.Port.Running.{SyncAsMaster}
use ptp_noposix.Port.Synced.{SyncAsMaster-same, to_faulty-SyncAsMaster, Syncs}
use ptp_noposix.Issue.{
  transmit, issue_announce, issue_sync, issue_followup, issue_delay_req, issue_pdelay_req,
  issue_delay_resp, issue_pdelay_resp, issue_pdelay_resp_follow_up,
}

-- A change of a port.
abbrev pub Holds : (PtpPortDs → PtpPortDs) → Type 0
Holds f = (port : PtpPortDs) → SyncAsMaster port → SyncAsMaster (f port)

module _ (a : Answered) (opts : RunTimeOpts) where
  transmit-Syncs :
      (c : LinkCall) (stored counted : PtpPortDs → PtpPortDs)
      → Holds stored
      → Holds counted
      → Syncs (transmit a opts c stored counted)
  unfolding transmit
  transmit-Syncs c stored counted hs hc sys h =
      let kept = hs sys.port h in
      if_intro SyncAsMaster (eqb_ℤ a.sent (pos 0)) _ _
        (λ _. to_faulty-SyncAsMaster opts (stored sys.port) kept) (λ _. hc (stored sys.port) kept)

  -- The issuers.
  pub announce-Syncs : Syncs (issue_announce a opts)
  unfolding issue_announce
  announce-Syncs sys h =
      transmit-Syncs _ _ _ (λ p k. k) (λ p k. SyncAsMaster-same refl refl k) _
        (SyncAsMaster-same refl refl h)

  pub sync-Syncs : Syncs (issue_sync a opts)
  unfolding issue_sync
  sync-Syncs sys h =
      transmit-Syncs _ _ _ (λ p k. SyncAsMaster-same refl refl k)
        (λ p k. SyncAsMaster-same refl refl k) _ (SyncAsMaster-same refl refl h)

  pub followup-Syncs : Syncs (issue_followup a opts)
  unfolding issue_followup
  followup-Syncs sys h =
      transmit-Syncs _ _ _ (λ p k. k) (λ p k. k) _ (SyncAsMaster-same refl refl h)

  pub delay_req-Syncs : Syncs (issue_delay_req a opts)
  unfolding issue_delay_req
  delay_req-Syncs sys h =
      transmit-Syncs _ _ _ (λ p k. SyncAsMaster-same refl refl k)
        (λ p k. SyncAsMaster-same refl refl k) _ (SyncAsMaster-same refl refl h)

  pub pdelay_req-Syncs : Syncs (issue_pdelay_req a opts)
  unfolding issue_pdelay_req
  pdelay_req-Syncs sys h =
      transmit-Syncs _ _ _ (λ p k. SyncAsMaster-same refl refl k)
        (λ p k. SyncAsMaster-same refl refl k) _ (SyncAsMaster-same refl refl h)

  pub delay_resp-Syncs : (header : MsgHeader) → Syncs (issue_delay_resp a opts header)
  unfolding issue_delay_resp
  delay_resp-Syncs header sys h =
      transmit-Syncs _ _ _ (λ p k. k) (λ p k. k) _ (SyncAsMaster-same refl refl h)

  pub pdelay_resp-Syncs : (header : MsgHeader) → Syncs (issue_pdelay_resp a opts header)
  unfolding issue_pdelay_resp
  pdelay_resp-Syncs header sys h =
      transmit-Syncs _ _ _ (λ p k. SyncAsMaster-same refl refl k) (λ p k. k) _
        (SyncAsMaster-same refl refl h)

  pub pdelay_resp_follow_up-Syncs :
      (header : MsgHeader) → Syncs (issue_pdelay_resp_follow_up a opts header)
  unfolding issue_pdelay_resp_follow_up
  pdelay_resp_follow_up-Syncs header sys h =
      transmit-Syncs _ _ _ (λ p k. k) (λ p k. k) _ (SyncAsMaster-same refl refl h)
