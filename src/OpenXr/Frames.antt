-- ===== src/OpenXr/Frames.antt =====
-- Frame after frame against the protocol of OpenXR.
use device_sdk.Base.{
  List, [], ◌∷◌, Option, none, some, false, ◌≡◌, refl, sym, subst, ap, ◌∙◌, inl, inr, Option-cases,
}
use device_sdk.OpenXr.Session.{
  OpenXrSessionState, OpenXrDeviceState, App, Frame, update, run_frame, run_frames,
}
use device_sdk.OpenXr.Protocol.{
  advance_all, Life, told, told_all, phase_of, refuses, mk, stopped, at_rest,
}
use device_sdk.OpenXr.Rest.{Linked, Ends}
use device_sdk.OpenXr.Events.{arrived, rest-Ends}

run_frame-Ends :
    (life next : Life) (f : Frame) (app : App)
    → told life f.event ≡ some next
    → Linked life app
    → Ends next (run_frame refuses f app)
unfolding run_frame update
run_frame-Ends life next f app t l =
    subst (λ y. Ends next (run_frame refuses f (record app { system_state = y }))) (sym l.system)
      (rest-Ends life next f.event app.session_state app.device_state app.frame_state
        app.camera_active f.should_render app.calls t l.session l.seen l.legal)

then_frames :
    (life : Life) (fs : List Frame) (next : Life) (o : Option App)
    → Ends next o
    → ((app : App) → Linked next app → Ends life (run_frames refuses fs app))
    → Ends life (elim o [ none ↦ none | some app ↦ run_frames refuses fs app ])
then_frames life fs next o (app, e, l) k =
    let (app', e', l') = k app l in
    (app', ap (λ p. elim p [ none ↦ none | some a ↦ run_frames refuses fs a ]) e ∙ e', l')

none-some : {A : Type 0} {a : A} → none ≡ some a → ⊥
none-some e = cc

none-told :
    (life end : Life) (f : Frame) (fs : List Frame)
    → told life f.event ≡ none
    → told_all life (f ∷ fs) ≡ some end
    → ⊥
none-told life end f fs e t =
    none-some (ap (λ o. elim o [ none ↦ none | some x ↦ told_all x fs ]) (sym e) ∙ t)

rest_told :
    (life next end : Life) (f : Frame) (fs : List Frame)
    → told life f.event ≡ some next
    → told_all life (f ∷ fs) ≡ some end
    → told_all next fs ≡ some end
rest_told life next end f fs e t =
    ap (λ o. elim o [ none ↦ none | some x ↦ told_all x fs ]) (sym e) ∙ t

run_frames-Ends :
    (life end : Life) (fs : List Frame) (app : App)
    → told_all life fs ≡ some end
    → Linked life app
    → Ends end (run_frames refuses fs app)
unfolding run_frames
run_frames-Ends life end [] app t l = (app, refl, arrived (λ x. Linked x app) life t l)
run_frames-Ends life end (f ∷ fs) app t l = elim (Option-cases (told life f.event)) [
  | inl e ↦ absurd (none-told life end f fs e t)
  | inr (next, e) ↦
      then_frames end fs next (run_frame refuses f app) (run_frame-Ends life next f app e l)
        (λ a m. run_frames-Ends next end fs a (rest_told life next end f fs e t) m)
]

-- The application when its session has been created.
abbrev pub created_app : App
created_app = mk OpenXrSessionState.unknown OpenXrDeviceState.unknown none false []

-- The frames of the application ask of OpenXR what it allows, whatever number there are and whatever
-- the runtime tells in them, as long as it tells what its specification says and refuses no call: no
-- frame panics, the session is begun when it is ready and ended when it stops, a frame is only waited
-- for in a session that has begun, each image is acquired, waited for and released within its frame,
-- and every frame that is begun is ended before the next.
pub run_frames-advance_all :
    (life : Life) (fs : List Frame)
    → told_all at_rest fs ≡ some life
    → (app : App) × (run_frames refuses fs created_app ≡ some app)
      × (advance_all stopped app.calls ≡ some (phase_of life))
run_frames-advance_all life fs t =
    let (app, e, l) =
      run_frames-Ends at_rest life fs created_app t
        (record { system = refl; session = tt; seen = tt; legal = refl }) in
    (app, e, l.legal)
