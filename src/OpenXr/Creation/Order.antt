-- ===== src/OpenXr/Creation/Order.antt =====
-- The order of the systems that create the session.
use device_sdk.Base.{
  ℕ, zero, suc, List, [], ◌∷◌, ◌++◌, Option, none, some, Bool, true, false, ◌≡◌, refl, arith, ap,
  ◌∙◌,
}
use device_sdk.OpenXr.Session.{session_created}
use device_sdk.OpenXr.Creation.{
  XrRuntime, Resources, Creating, ◌>>=◌, in_order, length, has_stage, primary_space_type,
  with_views, view_index, initialize_view_and_blend_mode, initialize_openxr_session,
  create_reference_space, create_swapchain, init_render_resources, finish_session_create,
  spawn_camera,
}
use device_sdk.OpenXr.Creation.Schedule.{
  no_session, inserted, session_set, chain, post_set, scheduled, Provides, viewing, in_session,
  in_space, drawing,
}

module _ (rt : XrRuntime) (p : Provides rt) where
  -- What is there in the end, by the place of `create_swapchain`.
  abbrev pub created : ℕ → Option Resources
  created zero = some (drawing rt p)
  created (suc i) = none

  step_view :
      (r : Resources)
      → initialize_view_and_blend_mode rt r
        ≡ some (record r {
          views = some (length (p.view ∷ p.views));
          view_configurations = some (p.kind, p.view ∷ p.views);
          blend_modes = some (p.mode, p.mode ∷ p.modes);
          layer_builder = true;
        })
  unfolding initialize_view_and_blend_mode
  step_view r = rw (p.configured) (rw (p.viewed, p.blended) refl)

  step_session :
      (r : Resources)
      → initialize_openxr_session rt r ≡ some (record r { session = true; frame_stream = true })
  unfolding initialize_openxr_session
  step_session r = rw (p.started) refl

  step_space :
      (r : Resources)
      → r.session ≡ true
      → create_reference_space rt r
        ≡ some (record r { reference_space = some (primary_space_type rt (has_stage rt p.types)) })
  unfolding create_reference_space
  step_space r e =
      ground (arith, e, p.typed, p.spaced (primary_space_type rt (has_stage rt p.types)))

  step_swapchain :
      (r : Resources)
      → r.session ≡ true
      → r.view_configurations ≡ some (p.kind, p.view ∷ p.views)
      → create_swapchain rt r
        ≡ some (record r {
          swapchain = true;
          swapchain_images = some (with_views rt (p.image ∷ p.images));
        })
  unfolding create_swapchain
  step_swapchain r e f = rw (e) (rw (f) (rw (p.drawn) refl))

  then_in_order :
      (system : Creating) (systems : List Creating) (r r' : Resources)
      → system r ≡ some r'
      → in_order rt (system ∷ systems) r ≡ in_order rt systems r'
  then_in_order system systems r r' e = ap (λ o. o >>= in_order rt systems) e

  after_session :
      (views_first : Bool) (systems : List Creating)
      → in_order rt (session_set rt views_first systems) no_session
        ≡ in_order rt systems (in_session rt p)
  after_session true systems =
      then_in_order (initialize_view_and_blend_mode rt) (initialize_openxr_session rt ∷ systems)
        no_session (viewing rt p) (step_view no_session)
      ∙ then_in_order (initialize_openxr_session rt) systems (viewing rt p) (in_session rt p)
          (step_session (viewing rt p))
  after_session false systems =
      then_in_order (initialize_openxr_session rt) (initialize_view_and_blend_mode rt ∷ systems)
        no_session _ (step_session no_session)
      ∙ then_in_order (initialize_view_and_blend_mode rt) systems _ (in_session rt p) (step_view _)

  after_space :
      (r : Resources) (systems : List Creating)
      → r.session ≡ true
      → in_order rt (create_reference_space rt ∷ systems) r
        ≡ in_order rt systems
            (record r { reference_space = some (primary_space_type rt (has_stage rt p.types)) })
  after_space r systems e = then_in_order (create_reference_space rt) systems r _ (step_space r e)

  after_swapchain :
      (r : Resources) (systems : List Creating)
      → r.session ≡ true
      → r.view_configurations ≡ some (p.kind, p.view ∷ p.views)
      → in_order rt (create_swapchain rt ∷ systems) r
        ≡ in_order rt systems (record r {
          swapchain = true;
          swapchain_images = some (with_views rt (p.image ∷ p.images));
        })
  after_swapchain r systems e f =
      then_in_order (create_swapchain rt) systems r _ (step_swapchain r e f)

  -- The reference space last, after the swapchain and after each system of the chain.
  abbrev drawn : Resources
  drawn = record (in_session rt p) {
    swapchain = true;
    swapchain_images = some (with_views rt (p.image ∷ p.images));
  }

  abbrev initialised : Resources
  initialised = record drawn {
    swapchain = false;
    frame_stream = false;
    layer_builder = false;
    render_resources = true;
  }

  abbrev finished : Resources
  finished = record initialised { system_state = session_created }

  abbrev spawned : Resources
  spawned = record finished { cameras = view_index rt 0 ∷ view_index rt 1 ∷ [] }

  after_post_set : (i j : ℕ) → in_order rt (post_set rt i j) (in_session rt p) ≡ created i
  unfolding inserted init_render_resources finish_session_create spawn_camera
  after_post_set zero zero =
      after_space (in_session rt p) (create_swapchain rt ∷ chain rt) refl
      ∙ after_swapchain (in_space rt p) (chain rt) refl refl
  after_post_set zero (suc zero) =
      after_swapchain (in_session rt p) (create_reference_space rt ∷ chain rt) refl refl
      ∙ after_space drawn (chain rt) refl
  after_post_set zero (suc (suc zero)) =
      let rest : List Creating = finish_session_create rt ∷ spawn_camera rt ∷ [] in
      after_swapchain (in_session rt p)
        (init_render_resources rt ∷ create_reference_space rt ∷ rest) refl refl
      ∙ after_space initialised rest refl
  after_post_set zero (suc (suc (suc zero))) =
      let rest : List Creating = create_reference_space rt ∷ spawn_camera rt ∷ [] in
      after_swapchain (in_session rt p) (init_render_resources rt ∷ finish_session_create rt ∷ rest)
        refl refl
      ∙ after_space finished (spawn_camera rt ∷ []) refl
  after_post_set zero (suc (suc (suc (suc j)))) =
      after_swapchain (in_session rt p) (chain rt ++ create_reference_space rt ∷ []) refl refl
      ∙ after_space spawned [] refl
  after_post_set (suc i) zero =
      after_space (in_session rt p) (inserted (suc i) (create_swapchain rt) (chain rt)) refl
  after_post_set (suc i) (suc j) = refl

  -- With a runtime that provides all that is asked for: in every order of the systems that the schedule
  -- allows, the creation of the session ends, with the render resources, a camera for either eye, and the
  -- state in which frames are run, if the swapchain is created before the render resources are set up,
  -- and panics if it is not.
  pub create_swapchain-init_render_resources :
      (views_first : Bool) (i j : ℕ)
      → in_order rt (scheduled rt views_first i j) no_session ≡ created i
  create_swapchain-init_render_resources views_first i j =
      after_session views_first (post_set rt i j) ∙ after_post_set i j
