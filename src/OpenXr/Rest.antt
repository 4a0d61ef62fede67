-- ===== src/OpenXr/Rest.antt =====
-- A frame after its events, in each state of the session.
use device_sdk.Base.{List, [], ◌∷◌, ◌++◌, Option, none, some, Bool, ◌≡◌, refl, ap, ◌∙◌}
use device_sdk.OpenXr.Session.{
  session_created, OpenXrSessionState, OpenXrDeviceState, XrCall, begin_session, end_session,
  wait_frame, locate_views, begin_frame, acquire_image, wait_image, release_image, end_frame, App,
  openxr_in_state_synchronized, System, ◌>=>◌, run_if, ask, update_session, frame_loop,
  openxr_locate_views, openxr_begin_frame, openxr_end_frame, openxr_wait_frame,
  openxr_update_camera, begin_openxr_session, end_openxr_session, render,
}
use device_sdk.OpenXr.Protocol.{
  Phase, advance, advance_all, Life, phase_of, refuses, advance_all-append, At, Seen, mk, stopped,
  begun, waited, open_frame, acquired, drawable, released, at_rest, under_way, lost,
}

-- A system that ends, in a state that is linked to the life of the session.
pub record Linked (life : Life) (app : App) : Type 0 where
  pub system : app.system_state ≡ session_created
  pub session : At life app.session_state
  pub seen : Seen app.device_state app.frame_state
  pub legal : advance_all stopped app.calls ≡ some (phase_of life)

abbrev pub Ends : Life → Option App → Type 0
Ends life o = (app : App) × (o ≡ some app) × Linked life app

-- The systems that follow the events.
abbrev pub rest : Bool → System
rest r =
    (λ app. update_session refuses app.session_state app)
    >=> (λ app. frame_loop refuses r app.session_state app)
    >=> (λ app.
        run_if (openxr_in_state_synchronized app.device_state) (openxr_locate_views refuses) app)
    >=> (λ app. render refuses app.session_state app)

abbrev pub Reaches : List XrCall → Phase → Type 0
Reaches calls p = advance_all stopped calls ≡ some p

Reaches-one :
    (p q : Phase) (calls : List XrCall) (c : XrCall)
    → Reaches calls p
    → advance p c ≡ some q
    → Reaches (calls ++ c ∷ []) q
Reaches-one p q calls c h e =
    advance_all-append stopped p calls (c ∷ []) h
    ∙ ap (λ o. elim o [ none ↦ none | some r ↦ advance_all r [] ]) e

Reaches-locate :
    (p : Phase) (calls : List XrCall) → Reaches calls p → Reaches (calls ++ locate_views ∷ []) p
Reaches-locate p calls h = Reaches-one p p calls locate_views h refl

abbrev locate : System
locate app =
    run_if (openxr_in_state_synchronized app.device_state) (openxr_locate_views refuses) app

located :
    (p : Phase) (s : OpenXrSessionState) (d : OpenXrDeviceState) (fs : Option Bool) (active : Bool)
    (calls : List XrCall)
    → Seen d fs
    → Reaches calls p
    → (calls' : List XrCall) × (locate (mk s d fs active calls) ≡ some (mk s d fs active calls'))
      × Reaches calls' p
unfolding openxr_in_state_synchronized openxr_locate_views
located p s OpenXrDeviceState.unknown fs active calls k h = (calls, refl, h)
located p s OpenXrDeviceState.synchronized (some r) active calls k h =
    (calls ++ locate_views ∷ [], refl, Reaches-locate p calls h)
located p s OpenXrDeviceState.visible (some r) active calls k h =
    (calls ++ locate_views ∷ [], refl, Reaches-locate p calls h)
located p s OpenXrDeviceState.focused (some r) active calls k h =
    (calls ++ locate_views ∷ [], refl, Reaches-locate p calls h)
located p s OpenXrDeviceState.synchronized none active calls k h = absurd k
located p s OpenXrDeviceState.visible none active calls k h = absurd k
located p s OpenXrDeviceState.focused none active calls k h = absurd k

-- A frame without a session that runs ends after the views.
abbrev quiet : System
quiet = locate >=> (λ app. render refuses app.session_state app)

quiet-Ends :
    (life : Life) (s : OpenXrSessionState) (d : OpenXrDeviceState) (fs : Option Bool)
    (active : Bool) (calls : List XrCall)
    → At life s
    → ((app : App) → render refuses s app ≡ some app)
    → Seen d fs
    → Reaches calls (phase_of life)
    → Ends life (quiet (mk s d fs active calls))
quiet-Ends life s d fs active calls a n k h =
    let (calls', e, l) = located (phase_of life) s d fs active calls k h in
    (
      mk s d fs active calls',
      ap (λ o. elim o [ none ↦ none | some app ↦ render refuses app.session_state app ]) e
          ∙ n (mk s d fs active calls'),
      record { system = refl; session = a; seen = k; legal = l },
    )

pub rest_at_rest :
    (s : OpenXrSessionState) (d : OpenXrDeviceState) (fs : Option Bool) (active r : Bool)
    (calls : List XrCall)
    → At at_rest s
    → Seen d fs
    → Reaches calls (phase_of (at_rest))
    → Ends (at_rest) (rest r (mk s d fs active calls))
unfolding update_session frame_loop render
rest_at_rest OpenXrSessionState.unknown d fs active r calls a k h =
    quiet-Ends at_rest _ d fs active calls a (λ app. refl) k h
rest_at_rest OpenXrSessionState.idle d fs active r calls a k h =
    quiet-Ends at_rest _ d fs active calls a (λ app. refl) k h
rest_at_rest OpenXrSessionState.ready d fs active r calls a k h = absurd a
rest_at_rest OpenXrSessionState.running d fs active r calls a k h = absurd a
rest_at_rest OpenXrSessionState.stopping d fs active r calls a k h = absurd a
rest_at_rest OpenXrSessionState.loss_pending d fs active r calls a k h = absurd a
rest_at_rest OpenXrSessionState.exiting d fs active r calls a k h =
    quiet-Ends at_rest _ d fs active calls a (λ app. refl) k h

pub rest_lost :
    (b : Bool) (s : OpenXrSessionState) (d : OpenXrDeviceState) (fs : Option Bool) (active r : Bool)
    (calls : List XrCall)
    → At (lost b) s
    → Seen d fs
    → Reaches calls (phase_of (lost b))
    → Ends (lost b) (rest r (mk s d fs active calls))
unfolding update_session frame_loop render
rest_lost b OpenXrSessionState.unknown d fs active r calls a k h = absurd a
rest_lost b OpenXrSessionState.idle d fs active r calls a k h = absurd a
rest_lost b OpenXrSessionState.ready d fs active r calls a k h = absurd a
rest_lost b OpenXrSessionState.running d fs active r calls a k h = absurd a
rest_lost b OpenXrSessionState.stopping d fs active r calls a k h = absurd a
rest_lost b OpenXrSessionState.loss_pending d fs active r calls a k h =
    quiet-Ends (lost b) _ d fs active calls a (λ app. refl) k h
rest_lost b OpenXrSessionState.exiting d fs active r calls a k h = absurd a

pub rest_stopping :
    (d : OpenXrDeviceState) (fs : Option Bool) (active r : Bool) (calls : List XrCall)
    → Seen d fs
    → Reaches calls begun
    → Ends at_rest (rest r (mk OpenXrSessionState.stopping d fs active calls))
unfolding update_session frame_loop render end_openxr_session ask
rest_stopping d fs active r calls k h =
    quiet-Ends at_rest OpenXrSessionState.idle d fs active (calls ++ end_session ∷ []) tt
      (λ app. refl) k (Reaches-one begun stopped calls end_session h refl)

-- What a frame of a session that runs asks, with the views between its wait and its begin or not.
drawn :
    (calls : List XrCall) (r : Bool)
    → Reaches calls waited
    → Reaches
        (((((calls ++ begin_frame ∷ []) ++ acquire_image ∷ []) ++ wait_image ∷ [])
            ++ release_image ∷ [])
          ++ end_frame r ∷ [])
        begun
drawn calls r h =
    let c1 : List XrCall = calls ++ begin_frame ∷ [] in
    let c2 : List XrCall = c1 ++ acquire_image ∷ [] in
    let c3 : List XrCall = c2 ++ wait_image ∷ [] in
    let c4 : List XrCall = c3 ++ release_image ∷ [] in
    let h1 = Reaches-one waited open_frame calls begin_frame h refl in
    let h2 = Reaches-one open_frame acquired c1 acquire_image h1 refl in
    let h3 = Reaches-one acquired drawable c2 wait_image h2 refl in
    let h4 = Reaches-one drawable released c3 release_image h3 refl in
    Reaches-one released begun c4 (end_frame r) h4 refl

pub rest_running :
    (d : OpenXrDeviceState) (fs : Option Bool) (active r : Bool) (calls : List XrCall)
    → Reaches calls begun
    → Ends under_way (rest r (mk OpenXrSessionState.running d fs active calls))
unfolding update_session frame_loop render ask openxr_wait_frame openxr_update_camera
    openxr_in_state_synchronized openxr_locate_views openxr_begin_frame openxr_end_frame
rest_running OpenXrDeviceState.unknown fs active r calls h = (
  _,
  refl,
  record {
    system = refl;
    session = tt;
    seen = tt;
    legal = drawn (calls ++ wait_frame ∷ []) r (Reaches-one begun waited calls wait_frame h refl);
  },
)
rest_running OpenXrDeviceState.synchronized fs active r calls h = (
  _,
  refl,
  record {
    system = refl;
    session = tt;
    seen = tt;
    legal = drawn ((calls ++ wait_frame ∷ []) ++ locate_views ∷ []) r (
        Reaches-locate waited (calls ++ wait_frame ∷ [])
          (Reaches-one begun waited calls wait_frame h refl));
  },
)
rest_running OpenXrDeviceState.visible fs active r calls h = (
  _,
  refl,
  record {
    system = refl;
    session = tt;
    seen = tt;
    legal = drawn ((calls ++ wait_frame ∷ []) ++ locate_views ∷ []) r (
        Reaches-locate waited (calls ++ wait_frame ∷ [])
          (Reaches-one begun waited calls wait_frame h refl));
  },
)
rest_running OpenXrDeviceState.focused fs active r calls h = (
  _,
  refl,
  record {
    system = refl;
    session = tt;
    seen = tt;
    legal = drawn ((calls ++ wait_frame ∷ []) ++ locate_views ∷ []) r (
        Reaches-locate waited (calls ++ wait_frame ∷ [])
          (Reaches-one begun waited calls wait_frame h refl));
  },
)

pub rest-ready :
    (d : OpenXrDeviceState) (fs : Option Bool) (active r : Bool) (calls : List XrCall)
    → Reaches calls stopped
    → Ends under_way (rest r (mk OpenXrSessionState.ready d fs active calls))
unfolding update_session frame_loop render begin_openxr_session ask
rest-ready d fs active r calls h =
    rest_running d fs active r (calls ++ begin_session ∷ [])
      (Reaches-one stopped begun calls begin_session h refl)
