-- ===== src/OpenXr/Protocol.antt =====
-- The order in which OpenXR wants its calls, and what its runtime tells of a session.
use device_sdk.Base.{List, [], ◌∷◌, ◌++◌, Option, none, some, Bool, true, false, ◌≡◌, ap}
use device_sdk.OpenXr.Session.{
  session_created, OpenXrSessionState, OpenXrDeviceState, SessionState, Event,
  session_state_changed, other, XrCall, begin_session, end_session, wait_frame, locate_views,
  begin_frame, acquire_image, wait_image, release_image, end_frame, App, Frame,
}

-- How far the session and its frame have come.
pub data Phase : Type 0 where
  stopped begun waited open_frame acquired drawable released : Phase

abbrev pub advance : Phase → XrCall → Option Phase
advance p locate_views = some p
advance stopped begin_session = some begun
advance begun end_session = some stopped
advance begun wait_frame = some waited
advance waited begin_frame = some open_frame
advance open_frame acquire_image = some acquired
advance acquired wait_image = some drawable
advance drawable release_image = some released
advance released (end_frame layers) = some begun
advance _ _ = none

abbrev pub advance_all : Phase → List XrCall → Option Phase
advance_all p [] = some p
advance_all p (c ∷ cs) = elim (advance p c) [ none ↦ none | some q ↦ advance_all q cs ]

-- The life of a session as the runtime tells of it. `lost` says whether it had begun.
pub data Life : Type 0 where
  at_rest under_way : Life
  lost : Bool → Life

-- The events that the runtime sends, by OpenXR's specification: ready at rest, stopping under way, and
-- nothing about a session that is lost.
abbrev pub told : Life → Option Event → Option Life
told life none = some life
told life (some other) = some life
told at_rest (some (session_state_changed SessionState.idle)) = some at_rest
told at_rest (some (session_state_changed SessionState.exiting)) = some at_rest
told at_rest (some (session_state_changed SessionState.ready)) = some under_way
told at_rest (some (session_state_changed SessionState.loss_pending)) = some (lost false)
told under_way (some (session_state_changed SessionState.synchronized)) = some under_way
told under_way (some (session_state_changed SessionState.visible)) = some under_way
told under_way (some (session_state_changed SessionState.focused)) = some under_way
told under_way (some (session_state_changed SessionState.stopping)) = some at_rest
told under_way (some (session_state_changed SessionState.loss_pending)) = some (lost true)
told _ _ = none

abbrev pub told_all : Life → List Frame → Option Life
told_all life [] = some life
told_all life (f ∷ fs) = elim (told life f.event) [ none ↦ none | some next ↦ told_all next fs ]

abbrev pub phase_of : Life → Phase
phase_of at_rest = stopped
phase_of under_way = begun
phase_of (lost true) = begun
phase_of (lost false) = stopped

-- A runtime that refuses no call.
abbrev pub refuses : XrCall → Bool
refuses c = false

then_append :
    (q : Phase) (xs ys : List XrCall) (o : Option Phase)
    → ((r : Phase) → advance_all r xs ≡ some q → advance_all r (xs ++ ys) ≡ advance_all q ys)
    → (elim o [ none ↦ none | some r ↦ advance_all r xs ]) ≡ some q
    → (elim o [ none ↦ none | some r ↦ advance_all r (xs ++ ys) ]) ≡ advance_all q ys
then_append q xs ys none k h = absurd (cc)
then_append q xs ys (some r) k h = k r h

pub advance_all-append :
    (p q : Phase) (xs ys : List XrCall)
    → advance_all p xs ≡ some q
    → advance_all p (xs ++ ys) ≡ advance_all q ys
advance_all-append p q [] ys e = ap (λ o. elim o [ none ↦ none | some r ↦ advance_all r ys ]) e
advance_all-append p q (x ∷ xs) ys e =
    then_append q xs ys (advance p x) (λ r h. advance_all-append r q xs ys h) e

-- The session's state at the end of a frame.
abbrev pub At : Life → OpenXrSessionState → Type 0
At at_rest OpenXrSessionState.unknown = Unit
At at_rest OpenXrSessionState.idle = Unit
At at_rest OpenXrSessionState.exiting = Unit
At under_way OpenXrSessionState.running = Unit
At (lost b) OpenXrSessionState.loss_pending = Unit
At _ _ = ⊥

-- The frame's state is there once the session has run.
abbrev pub Seen : OpenXrDeviceState → Option Bool → Type 0
Seen OpenXrDeviceState.unknown none = Unit
Seen _ none = ⊥
Seen d (some r) = Unit

abbrev pub mk : OpenXrSessionState → OpenXrDeviceState → Option Bool → Bool → List XrCall → App
mk s d fs active calls = record {
  system_state = session_created;
  session_state = s;
  device_state = d;
  frame_state = fs;
  camera_active = active;
  calls = calls;
}
