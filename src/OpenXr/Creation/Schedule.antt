-- ===== src/OpenXr/Creation/Schedule.antt =====
-- The orders in which the systems that create the session may run, and what they find.
use device_sdk.Base.{ℕ, zero, suc, List, [], ◌∷◌, none, some, Bool, true, false, ◌≡◌}
use device_sdk.OpenXr.Session.{available, session_created}
use device_sdk.OpenXr.Creation.{
  ReferenceSpaceType, ViewConfigurationView, XrRuntime, Resources, Creating, length, has_stage,
  primary_space_type, with_views, view_index, initialize_view_and_blend_mode,
  initialize_openxr_session, create_reference_space, create_swapchain, init_render_resources,
  finish_session_create, spawn_camera,
}

-- The resources before the session is created.
abbrev pub no_session : Resources
no_session = record {
  views = none;
  view_configurations = none;
  blend_modes = none;
  layer_builder = false;
  session = false;
  frame_stream = false;
  swapchain = false;
  swapchain_images = none;
  reference_space = none;
  render_resources = false;
  cameras = [];
  system_state = available;
}

-- An element put at an index, or at the end.
unfoldable pub inserted : {A : Type 0} → ℕ → A → List A → List A
inserted i x [] = x ∷ []
inserted zero x (y ∷ ys) = x ∷ y ∷ ys
inserted (suc i) x (y ∷ ys) = y ∷ inserted i x ys

-- The orders that the schedule allows: the systems of the set `SessionCreate` in either order, and then
-- those of `PostSessionCreate`, three in a chain, with `create_swapchain` before the `i`-th of them, and
-- with `create_reference_space` anywhere. The action space changes none of the resources.
module _ (rt : XrRuntime) where
  abbrev pub session_set : Bool → List Creating → List Creating
  session_set true systems =
      initialize_view_and_blend_mode rt ∷ initialize_openxr_session rt ∷ systems
  session_set false systems =
      initialize_openxr_session rt ∷ initialize_view_and_blend_mode rt ∷ systems

  abbrev pub chain : List Creating
  chain = init_render_resources rt ∷ finish_session_create rt ∷ spawn_camera rt ∷ []

  abbrev pub post_set : ℕ → ℕ → List Creating
  post_set i j = inserted j (create_reference_space rt) (inserted i (create_swapchain rt) chain)

  abbrev pub scheduled : Bool → ℕ → ℕ → List Creating
  scheduled views_first i j = session_set views_first (post_set i j)

-- What the runtime has: a view configuration with a view and a blend mode, the session, its reference
-- spaces, and a swapchain with an image.
pub record Provides (rt : XrRuntime) : Type 0 where
  pub kind : ℕ
  pub kinds : List ℕ
  pub view : ViewConfigurationView
  pub views : List ViewConfigurationView
  pub mode : ℕ
  pub modes : List ℕ
  pub types : List ReferenceSpaceType
  pub image : ℕ
  pub images : List ℕ
  pub configured : rt.view_configurations ≡ some (kind ∷ kinds)
  pub viewed : rt.views_of kind ≡ some (view ∷ views)
  pub blended : rt.blend_modes_of kind ≡ some (mode ∷ modes)
  pub started : rt.creates_session ≡ true
  pub typed : rt.space_types ≡ some types
  pub spaced : (t : ReferenceSpaceType) → rt.creates_space t ≡ true
  pub drawn : rt.create_swapchain_images view ≡ some (image ∷ images)

module _ (rt : XrRuntime) (p : Provides rt) where
  abbrev pub viewing : Resources
  viewing = record no_session {
    views = some (length (p.view ∷ p.views));
    view_configurations = some (p.kind, p.view ∷ p.views);
    blend_modes = some (p.mode, p.mode ∷ p.modes);
    layer_builder = true;
  }

  abbrev pub in_session : Resources
  in_session = record viewing { session = true; frame_stream = true }

  abbrev pub in_space : Resources
  in_space = record in_session {
    reference_space = some (primary_space_type rt (has_stage rt p.types));
  }

  abbrev pub with_swapchain : Resources
  with_swapchain = record in_space {
    swapchain = true;
    swapchain_images = some (with_views rt (p.image ∷ p.images));
  }

  abbrev pub drawing : Resources
  drawing = record with_swapchain {
    swapchain = false;
    frame_stream = false;
    layer_builder = false;
    render_resources = true;
    system_state = session_created;
    cameras = view_index rt 0 ∷ view_index rt 1 ∷ [];
  }
