-- ===== src/OpenXr/Session.antt =====
-- openxr/schedule.rs, session.rs and render.rs: the states, the events of the runtime, and what one
-- frame asks of it. The render schedule is taken to run after the update of the same frame.
use device_sdk.Base.{List, [], ◌∷◌, ◌++◌, Option, none, some, Bool, true, false}

pub data OpenXrSystemState : Type 0 where
  unavailable available session_created : OpenXrSystemState

pub data OpenXrSessionState : Type 0 where
  unknown idle ready running stopping loss_pending exiting : OpenXrSessionState

pub data OpenXrDeviceState : Type 0 where
  unknown synchronized visible focused : OpenXrDeviceState

-- The states that the runtime tells of.
pub data SessionState : Type 0 where
  unknown idle ready synchronized visible focused stopping loss_pending exiting : SessionState

pub data Event : Type 0 where
  session_state_changed : SessionState → Event
  other : Event

-- The calls of the OpenXR runtime. `end_frame` says whether layers are composed.
pub data XrCall : Type 0 where
  begin_session end_session wait_frame locate_views begin_frame acquire_image wait_image
        release_image :
      XrCall
  end_frame : Bool → XrCall

-- The resources of the application: `frame_state` is whether the frame should be rendered, `calls` what
-- has been asked of the runtime.
pub record App : Type 0 where
  pub system_state : OpenXrSystemState
  pub session_state : OpenXrSessionState
  pub device_state : OpenXrDeviceState
  pub frame_state : Option Bool
  pub camera_active : Bool
  pub calls : List XrCall

-- What the runtime gives in a frame: an event, and whether the frame should be rendered.
pub record Frame : Type 0 where
  pub event : Option Event
  pub should_render : Bool

unfoldable pub openxr_in_state_synchronized : OpenXrDeviceState → Bool
openxr_in_state_synchronized OpenXrDeviceState.unknown = false
openxr_in_state_synchronized OpenXrDeviceState.synchronized = true
openxr_in_state_synchronized OpenXrDeviceState.visible = true
openxr_in_state_synchronized OpenXrDeviceState.focused = true

unfoldable pub state_changed : SessionState → App → App
state_changed SessionState.idle app = record app { session_state = OpenXrSessionState.idle }
state_changed SessionState.ready app = record app { session_state = OpenXrSessionState.ready }
state_changed SessionState.stopping app = record app { session_state = OpenXrSessionState.stopping }
state_changed SessionState.loss_pending app = record app {
  session_state = OpenXrSessionState.loss_pending;
}
state_changed SessionState.exiting app = record app { session_state = OpenXrSessionState.exiting }
state_changed SessionState.synchronized app = record app {
  device_state = OpenXrDeviceState.synchronized;
}
state_changed SessionState.visible app = record app { device_state = OpenXrDeviceState.visible }
state_changed SessionState.focused app = record app { device_state = OpenXrDeviceState.focused }
state_changed SessionState.unknown app = app

unfoldable pub handle_events : Option Event → App → App
unfolding state_changed
handle_events none app = app
handle_events (some other) app = app
handle_events (some (session_state_changed s)) app = state_changed s app

-- A system may panic, where the runtime refuses a call or a resource is missing.
abbrev pub System : Type 0
System = App → Option App

infixl 5 ◌>=>◌
abbrev pub ◌>=>◌ : System → System → System
(first >=> second) app = elim (first app) [ none ↦ none | some app' ↦ second app' ]

abbrev pub run_if : Bool → System → System
run_if true system app = system app
run_if false system app = some app

module _ (fails : XrCall → Bool) where
  unfoldable pub ask : XrCall → System
  ask c app = elim (fails c) [
    | true ↦ none
    | false ↦ some (record app { calls = app.calls ++ c ∷ [] })
  ]

  abbrev pub set_session : OpenXrSessionState → System
  set_session s app = some (record app { session_state = s })

  unfoldable pub begin_openxr_session : System
  unfolding ask
  begin_openxr_session = ask begin_session >=> set_session OpenXrSessionState.running

  unfoldable pub end_openxr_session : System
  unfolding ask
  end_openxr_session = ask end_session >=> set_session OpenXrSessionState.idle

  -- The systems that update the session's state, with their conditions.
  unfoldable pub update_session : OpenXrSessionState → System
  unfolding begin_openxr_session end_openxr_session
  update_session OpenXrSessionState.ready = begin_openxr_session
  update_session OpenXrSessionState.stopping = end_openxr_session
  update_session _ = λ app. some app

  unfoldable pub openxr_wait_frame : Bool → System
  unfolding ask
  openxr_wait_frame should_render =
      ask wait_frame >=> (λ app. some (record app { frame_state = some should_render }))

  unfoldable pub openxr_update_camera : System
  openxr_update_camera app = elim app.frame_state [
    | none ↦ none
    | some should_render ↦ some (record app { camera_active = should_render })
  ]

  -- The systems of the frame loop, which run while the session does.
  unfoldable pub frame_loop : Bool → OpenXrSessionState → System
  unfolding openxr_wait_frame openxr_update_camera
  frame_loop should_render OpenXrSessionState.running =
      openxr_wait_frame should_render
      >=> (λ app. run_if (openxr_in_state_synchronized app.device_state) openxr_update_camera app)
  frame_loop should_render _ = λ app. some app

  abbrev pub created : OpenXrSystemState → System → System
  created session_created system app = system app
  created unavailable system app = some app
  created available system app = some app

  -- The schedule of the update.
  unfoldable pub update : Frame → System
  unfolding handle_events update_session frame_loop
  update f app =
      created app.system_state
        ((λ app. some (handle_events f.event app))
          >=> (λ app. update_session app.session_state app)
          >=> (λ app. frame_loop f.should_render app.session_state app))
        app

  unfoldable pub openxr_locate_views : System
  unfolding ask
  openxr_locate_views app = elim app.frame_state [ none ↦ none | some s ↦ ask locate_views app ]

  unfoldable pub openxr_end_frame : System
  unfolding ask
  openxr_end_frame app = elim app.frame_state [ none ↦ none | some s ↦ ask (end_frame s) app ]

  unfoldable pub openxr_begin_frame : System
  unfolding ask
  openxr_begin_frame app = elim app.frame_state [ none ↦ none | some s ↦ ask begin_frame app ]

  -- The systems of the render schedule, which run while the session does.
  unfoldable pub render : OpenXrSessionState → System
  unfolding openxr_begin_frame openxr_end_frame
  render OpenXrSessionState.running =
      openxr_begin_frame
      >=> ask acquire_image
      >=> ask wait_image
      >=> ask release_image
      >=> openxr_end_frame
  render _ = λ app. some app

  unfoldable pub run_frame : Frame → System
  unfolding update openxr_locate_views render
  run_frame f =
      update f
      >=> (λ app. run_if (openxr_in_state_synchronized app.device_state) openxr_locate_views app)
      >=> (λ app. render app.session_state app)

  unfoldable pub run_frames : List Frame → System
  unfolding run_frame
  run_frames [] = λ app. some app
  run_frames (f ∷ fs) = run_frame f >=> run_frames fs
