-- ===== src/OpenXr/Events.antt =====
-- A frame with its event, whatever the life of the session.
use device_sdk.Base.{List, Option, none, some, Bool, true, false, ◌≡◌, subst}
use device_sdk.OpenXr.Session.{
  OpenXrSessionState, OpenXrDeviceState, SessionState, Event, session_state_changed, other, XrCall,
  handle_events, state_changed,
}
use device_sdk.OpenXr.Protocol.{Life, told, phase_of, At, Seen, mk, begun, at_rest, under_way, lost}
use device_sdk.OpenXr.Rest.{
  Ends, rest, Reaches, rest_at_rest, rest_lost, rest_stopping, rest_running, rest-ready,
}

-- A session that runs does so whatever the device's state.
rest_synced :
    (d : OpenXrDeviceState) (s : OpenXrSessionState) (fs : Option Bool) (active r : Bool)
    (calls : List XrCall)
    → At under_way s
    → Reaches calls begun
    → Ends under_way (rest r (mk s d fs active calls))
rest_synced d OpenXrSessionState.unknown fs active r calls a h = absurd a
rest_synced d OpenXrSessionState.idle fs active r calls a h = absurd a
rest_synced d OpenXrSessionState.ready fs active r calls a h = absurd a
rest_synced d OpenXrSessionState.running fs active r calls a h = rest_running d fs active r calls h
rest_synced d OpenXrSessionState.stopping fs active r calls a h = absurd a
rest_synced d OpenXrSessionState.loss_pending fs active r calls a h = absurd a
rest_synced d OpenXrSessionState.exiting fs active r calls a h = absurd a

some-injective : {A : Type 0} {a b : A} → some a ≡ some b → a ≡ b
some-injective e = cc

pub arrived :
    {next : Life} (P : Life → Type 0) (life : Life) → some life ≡ some next → P life → P next
arrived P life e h = subst P (some-injective e) h

pub rest-Ends :
    (life next : Life) (e : Option Event) (s : OpenXrSessionState) (d : OpenXrDeviceState)
    (fs : Option Bool) (active r : Bool) (calls : List XrCall)
    → told life e ≡ some next
    → At life s
    → Seen d fs
    → Reaches calls (phase_of life)
    → Ends next (rest r (handle_events e (mk s d fs active calls)))
unfolding handle_events state_changed
rest-Ends at_rest next none s d fs active r calls t a k h =
    arrived (λ l. Ends l (rest r (mk s d fs active calls))) at_rest t
      (rest_at_rest s d fs active r calls a k h)
rest-Ends at_rest next (some other) s d fs active r calls t a k h =
    arrived (λ l. Ends l (rest r (mk s d fs active calls))) at_rest t
      (rest_at_rest s d fs active r calls a k h)
rest-Ends at_rest next (some (session_state_changed SessionState.unknown)) s d fs active r calls t a
      k h =
    absurd (cc)
rest-Ends at_rest next (some (session_state_changed SessionState.idle)) s d fs active r calls t a k
      h =
    arrived
      (λ l. Ends l (
        rest r (
          handle_events (some (session_state_changed SessionState.idle)) (mk s d fs active calls))))
      at_rest t (rest_at_rest OpenXrSessionState.idle d fs active r calls tt k h)
rest-Ends at_rest next (some (session_state_changed SessionState.ready)) s d fs active r calls t a k
      h =
    arrived
      (λ l. Ends l (
        rest r (
          handle_events (some (session_state_changed SessionState.ready))
            (mk s d fs active calls))))
      under_way t (rest-ready d fs active r calls h)
rest-Ends at_rest next (some (session_state_changed SessionState.synchronized)) s d fs active r
      calls t a k h =
    absurd (cc)
rest-Ends at_rest next (some (session_state_changed SessionState.visible)) s d fs active r calls t a
      k h =
    absurd (cc)
rest-Ends at_rest next (some (session_state_changed SessionState.focused)) s d fs active r calls t a
      k h =
    absurd (cc)
rest-Ends at_rest next (some (session_state_changed SessionState.stopping)) s d fs active r calls t
      a k h =
    absurd (cc)
rest-Ends at_rest next (some (session_state_changed SessionState.loss_pending)) s d fs active r
      calls t a k h =
    arrived
      (λ l. Ends l (
        rest r (
          handle_events (some (session_state_changed SessionState.loss_pending))
            (mk s d fs active calls))))
      (lost false) t (rest_lost false OpenXrSessionState.loss_pending d fs active r calls tt k h)
rest-Ends at_rest next (some (session_state_changed SessionState.exiting)) s d fs active r calls t a
      k h =
    arrived
      (λ l. Ends l (
        rest r (
          handle_events (some (session_state_changed SessionState.exiting))
            (mk s d fs active calls))))
      at_rest t (rest_at_rest OpenXrSessionState.exiting d fs active r calls tt k h)
rest-Ends under_way next none s d fs active r calls t a k h =
    arrived (λ l. Ends l (rest r (mk s d fs active calls))) under_way t
      (rest_synced d s fs active r calls a h)
rest-Ends under_way next (some other) s d fs active r calls t a k h =
    arrived (λ l. Ends l (rest r (mk s d fs active calls))) under_way t
      (rest_synced d s fs active r calls a h)
rest-Ends under_way next (some (session_state_changed SessionState.unknown)) s d fs active r calls t
      a k h =
    absurd (cc)
rest-Ends under_way next (some (session_state_changed SessionState.idle)) s d fs active r calls t a
      k h =
    absurd (cc)
rest-Ends under_way next (some (session_state_changed SessionState.ready)) s d fs active r calls t a
      k h =
    absurd (cc)
rest-Ends under_way next (some (session_state_changed SessionState.synchronized)) s d fs active r
      calls t a k h =
    arrived
      (λ l. Ends l (
        rest r (
          handle_events (some (session_state_changed SessionState.synchronized))
            (mk s d fs active calls))))
      under_way t (rest_synced OpenXrDeviceState.synchronized s fs active r calls a h)
rest-Ends under_way next (some (session_state_changed SessionState.visible)) s d fs active r calls t
      a k h =
    arrived
      (λ l. Ends l (
        rest r (
          handle_events (some (session_state_changed SessionState.visible))
            (mk s d fs active calls))))
      under_way t (rest_synced OpenXrDeviceState.visible s fs active r calls a h)
rest-Ends under_way next (some (session_state_changed SessionState.focused)) s d fs active r calls t
      a k h =
    arrived
      (λ l. Ends l (
        rest r (
          handle_events (some (session_state_changed SessionState.focused))
            (mk s d fs active calls))))
      under_way t (rest_synced OpenXrDeviceState.focused s fs active r calls a h)
rest-Ends under_way next (some (session_state_changed SessionState.stopping)) s d fs active r calls
      t a k h =
    arrived
      (λ l. Ends l (
        rest r (
          handle_events (some (session_state_changed SessionState.stopping))
            (mk s d fs active calls))))
      at_rest t (rest_stopping d fs active r calls k h)
rest-Ends under_way next (some (session_state_changed SessionState.loss_pending)) s d fs active r
      calls t a k h =
    arrived
      (λ l. Ends l (
        rest r (
          handle_events (some (session_state_changed SessionState.loss_pending))
            (mk s d fs active calls))))
      (lost true) t (rest_lost true OpenXrSessionState.loss_pending d fs active r calls tt k h)
rest-Ends under_way next (some (session_state_changed SessionState.exiting)) s d fs active r calls t
      a k h =
    absurd (cc)
rest-Ends (lost b) next none s d fs active r calls t a k h =
    arrived (λ l. Ends l (rest r (mk s d fs active calls))) (lost b) t
      (rest_lost b s d fs active r calls a k h)
rest-Ends (lost b) next (some other) s d fs active r calls t a k h =
    arrived (λ l. Ends l (rest r (mk s d fs active calls))) (lost b) t
      (rest_lost b s d fs active r calls a k h)
rest-Ends (lost b) next (some (session_state_changed SessionState.unknown)) s d fs active r calls t
      a k h =
    absurd (cc)
rest-Ends (lost b) next (some (session_state_changed SessionState.idle)) s d fs active r calls t a k
      h =
    absurd (cc)
rest-Ends (lost b) next (some (session_state_changed SessionState.ready)) s d fs active r calls t a
      k h =
    absurd (cc)
rest-Ends (lost b) next (some (session_state_changed SessionState.synchronized)) s d fs active r
      calls t a k h =
    absurd (cc)
rest-Ends (lost b) next (some (session_state_changed SessionState.visible)) s d fs active r calls t
      a k h =
    absurd (cc)
rest-Ends (lost b) next (some (session_state_changed SessionState.focused)) s d fs active r calls t
      a k h =
    absurd (cc)
rest-Ends (lost b) next (some (session_state_changed SessionState.stopping)) s d fs active r calls t
      a k h =
    absurd (cc)
rest-Ends (lost b) next (some (session_state_changed SessionState.loss_pending)) s d fs active r
      calls t a k h =
    absurd (cc)
rest-Ends (lost b) next (some (session_state_changed SessionState.exiting)) s d fs active r calls t
      a k h =
    absurd (cc)
