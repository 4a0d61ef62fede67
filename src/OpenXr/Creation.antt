-- ===== src/OpenXr/Creation.antt =====
-- openxr/session.rs, swapchain.rs and reference_space.rs: the systems that create the session, as
-- changes of the resources of the application. The runtime's handles are left out.
pub mod Schedule
pub mod Order
use device_sdk.Base.{
  ℕ, suc, ◌+◌, List, [], ◌∷◌, ◌++◌, Option, none, some, Bool, true, false, ◌≡◌, refl,
}
use device_sdk.OpenXr.Session.{OpenXrSystemState, available, session_created}

pub data ReferenceSpaceType : Type 0 where
  stage local_floor other_space : ReferenceSpaceType

-- A view of a view configuration: its recommended size and number of samples.
pub record ViewConfigurationView : Type 0 where
  pub width : ℕ
  pub height : ℕ
  pub samples : ℕ

-- What openxr and wgpu give; `none` is an error. A swapchain is named by its images.
pub record XrRuntime : Type 0 where
  pub view_configurations : Option (List ℕ)
  pub views_of : ℕ → Option (List ViewConfigurationView)
  pub blend_modes_of : ℕ → Option (List ℕ)
  pub creates_session : Bool
  pub space_types : Option (List ReferenceSpaceType)
  pub creates_space : ReferenceSpaceType → Bool
  pub create_swapchain_images : ViewConfigurationView → Option (List ℕ)

pub record Resources : Type 0 where
  pub views : Option ℕ
  pub view_configurations : Option (ℕ × List ViewConfigurationView)
  pub blend_modes : Option (ℕ × List ℕ)
  pub layer_builder : Bool
  pub session : Bool
  pub frame_stream : Bool
  pub swapchain : Bool
  pub swapchain_images : Option (List (ℕ × List ℕ))
  pub reference_space : Option ReferenceSpaceType
  pub render_resources : Bool
  pub cameras : List ℕ
  pub system_state : OpenXrSystemState

abbrev pub Creating : Type 0
Creating = Resources → Option Resources

abbrev pub length : {A : Type 0} → List A → ℕ
length [] = 0
length (x ∷ xs) = suc (length xs)

infixl 5 ◌>>=◌
abbrev pub ◌>>=◌ : {A B : Type 0} → (found : Option A) → (A → Option B) → Option B
found >>= next = elim found [ none ↦ none | some a ↦ next a ]

abbrev pub head : {A : Type 0} → List A → Option A
head [] = none
head (x ∷ xs) = some x

abbrev pub require : Bool → Option (Unit {0})
require true = some tt
require false = none

module _ (rt : XrRuntime) where
  -- The first view configuration and its first blend mode are chosen.
  unfoldable pub initialize_view_and_blend_mode : Creating
  initialize_view_and_blend_mode r = do
    configurations ← rt.view_configurations
    kind ← head configurations
    views ← rt.views_of kind
    modes ← rt.blend_modes_of kind
    mode ← head modes
    some (record r {
      views = some (length views);
      view_configurations = some (kind, views);
      blend_modes = some (mode, modes);
      layer_builder = true;
    })

  unfoldable pub initialize_openxr_session : Creating
  initialize_openxr_session r = do
    made ← require rt.creates_session
    some (record r { session = true; frame_stream = true })

  abbrev pub has_stage : List ReferenceSpaceType → Bool
  has_stage [] = false
  has_stage (stage ∷ ts) = true
  has_stage (local_floor ∷ ts) = has_stage ts
  has_stage (other_space ∷ ts) = has_stage ts

  abbrev pub primary_space_type : Bool → ReferenceSpaceType
  primary_space_type true = stage
  primary_space_type false = local_floor

  unfoldable pub create_reference_space : Creating
  create_reference_space r = do
    session ← require r.session
    types ← rt.space_types
    let space = primary_space_type (has_stage types)
    made ← require (rt.creates_space space)
    some (record r { reference_space = some space })

  -- Each image has a view for either eye.
  abbrev pub with_views : List ℕ → List (ℕ × List ℕ)
  with_views [] = []
  with_views (image ∷ images) = (image, 0 ∷ 1 ∷ []) ∷ with_views images

  unfoldable pub create_swapchain : Creating
  create_swapchain r = do
    session ← require r.session
    (kind, views) ← r.view_configurations
    view ← head views
    images ← rt.create_swapchain_images view
    some (record r { swapchain = true; swapchain_images = some (with_views images) })

  unfoldable pub init_render_resources : Creating
  init_render_resources r = do
    stream ← require r.frame_stream
    swapchain ← require r.swapchain
    builder ← require r.layer_builder
    some (record r {
      frame_stream = false;
      swapchain = false;
      layer_builder = false;
      render_resources = true;
    })

  unfoldable pub finish_session_create : Creating
  finish_session_create r = some (record r { system_state = session_created })

  -- `u32::from_le_bytes(*b"OPXR")`.
  abbrev pub view_index_base : ℕ
  view_index_base = 1381519439

  abbrev pub view_index : ℕ → ℕ
  view_index i = view_index_base + i

  abbrev pub cameras_from : ℕ → List ℕ → List ℕ
  cameras_from i [] = []
  cameras_from i (view ∷ views) = view_index i ∷ cameras_from (suc i) views

  -- A camera for each view of the first image.
  unfoldable pub spawn_camera : Creating
  spawn_camera r = do
    images ← r.swapchain_images
    (image, views) ← head images
    some (record r { cameras = r.cameras ++ cameras_from 0 views })

  abbrev pub in_order : List Creating → Creating
  in_order [] r = some r
  in_order (system ∷ systems) r = system r >>= in_order systems
