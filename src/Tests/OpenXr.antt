-- ===== src/Tests/OpenXr.antt =====
-- An application whose session begins, shows two frames, and ends.
use device_sdk.Base.{List, [], ◌∷◌, none, some, true, false, ◌≡◌, refl}
use device_sdk.OpenXr.Session.{App, Frame, SessionState, session_state_changed, run_frames}
use device_sdk.OpenXr.Protocol.{advance_all, stopped, at_rest, refuses}
use device_sdk.OpenXr.Frames.{created_app, run_frames-advance_all}
use device_sdk.OpenXr.Creation.{ViewConfigurationView, XrRuntime, local_floor, in_order}
use device_sdk.OpenXr.Creation.Schedule.{no_session, Provides, drawing, scheduled}
use device_sdk.OpenXr.Creation.Order.{create_swapchain-init_render_resources}

abbrev frames : List Frame
frames =
    record { event = none; should_render = false }
    ∷ record { event = some (session_state_changed SessionState.ready); should_render = false }
    ∷ record {
      event = some (session_state_changed SessionState.synchronized);
      should_render = true;
    }
    ∷ record { event = some (session_state_changed SessionState.stopping); should_render = true }
    ∷ []

run_frames-advance_all_example :
    (app : App) × (run_frames refuses frames created_app ≡ some app)
    × (advance_all stopped app.calls ≡ some stopped)
run_frames-advance_all_example = run_frames-advance_all at_rest frames refl

abbrev eye : ViewConfigurationView
eye = record { width = 1024; height = 1024; samples = 1 }

-- A headset with two views, a floor and three images.
abbrev headset : XrRuntime
headset = record {
  view_configurations = some (2 ∷ []);
  views_of = λ k. some (eye ∷ eye ∷ []);
  blend_modes_of = λ k. some (1 ∷ []);
  creates_session = true;
  space_types = some (local_floor ∷ []);
  creates_space = λ t. true;
  create_swapchain_images = λ v. some (10 ∷ 11 ∷ 12 ∷ []);
}

headset-Provides : Provides headset
headset-Provides = record {
  kind = 2;
  kinds = [];
  view = eye;
  views = eye ∷ [];
  mode = 1;
  modes = [];
  types = local_floor ∷ [];
  image = 10;
  images = 11 ∷ 12 ∷ [];
  configured = refl;
  viewed = refl;
  blended = refl;
  started = refl;
  typed = refl;
  spaced = λ t. refl;
  drawn = refl;
}

-- The reference space is created between the other two.
create_swapchain-init_render_resources_example :
    in_order headset (scheduled headset false 0 1) no_session
    ≡ some (drawing headset headset-Provides)
create_swapchain-init_render_resources_example =
    create_swapchain-init_render_resources headset headset-Provides false 0 1
