-- ===== src/Ffi/Calls/Keeps.antt =====
-- What the parts of the exported functions leave as it was.
use device_sdk.Base.{ℕ, Option, none, some, ◌≡◌, refl, sym, subst, arith, inl, inr, Option-cases}
use device_sdk.Base.Results.{ok, err}
use device_sdk.RtcClient.State.{RtcClient}
use device_sdk.RtcClient.State
use device_sdk.Ffi.Wrapper.{ClientWrapper}
use device_sdk.Ffi.Manager.{
  NetManager, Run, returned, aborted, put, with_client, with_webrtc_client, kept, no_client,
  destroy_client, destroy_webrtc_client,
}

-- A property of the manager that a call leaves, if it returns.
abbrev pub After : {A : Type 0} → (NetManager → Type 0) → Run A → Type 0
After P (returned a m) = P m
After P aborted = Unit

-- No handle is given out, no client appears under another handle, and the count is as before.
pub record Tame (m m' : NetManager) : Type 0 where
  pub next : m'.next_handle_id ≡ m.next_handle_id
  pub active : m'.active_operations ≡ m.active_operations
  pub clients : (h : ℕ) → m.clients h ≡ none → m'.clients h ≡ none
  pub webrtc_clients : (h : ℕ) → m.webrtc_clients h ≡ none → m'.webrtc_clients h ≡ none

pub Tame-refl : (m : NetManager) → Tame m m
Tame-refl m = record { next = refl; active = refl; clients = λ h e. e; webrtc_clients = λ h e. e }

pub put-none :
    {A : Type 0} (k : ℕ) (map : ℕ → Option A) (h : ℕ) → map h ≡ none → put k none map h ≡ none
put-none k map h e = ground (arith, e)

pub put-some :
    {A : Type 0} (k : ℕ) (a b : A) (map : ℕ → Option A) (h : ℕ)
    → map k ≡ some a
    → map h ≡ none
    → put k (some b) map h ≡ none
put-some k a b map h s e = ground (arith, s, e)

module _ {R : Type 0} (h : ℕ) (f : ClientWrapper → Option (R × ClientWrapper))
    (m : NetManager) where
  pub with_client_unknown : m.clients h ≡ none → with_client h f m ≡ returned (err no_client) m
  unfolding with_client
  with_client_unknown e = ground (arith, e)

  with_client_panics :
      (w : ClientWrapper) → m.clients h ≡ some w → f w ≡ none → with_client h f m ≡ aborted
  unfolding with_client
  with_client_panics w e g = ground (arith, e, g)

  pub with_client_done :
      (w w' : ClientWrapper) (r : R)
      → m.clients h ≡ some w
      → f w ≡ some (r, w')
      → with_client h f m ≡ returned (ok r) (record m { clients = put h (some w') m.clients })
  unfolding with_client
  with_client_done w w' r e g = ground (arith, e, g)

  pub with_client-Tame : After (Tame m) (with_client h f m)
  with_client-Tame = elim (Option-cases (m.clients h)) [
    | inl e ↦ subst (After (Tame m)) (sym (with_client_unknown e)) (Tame-refl m)
    | inr (w, e) ↦ elim (Option-cases (f w)) [
      | inl g ↦ subst (After (Tame m)) (sym (with_client_panics w e g)) tt
      | inr ((r, w'), g) ↦ subst (After (Tame m)) (sym (with_client_done w w' r e g)) (record {
        next = refl;
        active = refl;
        clients = λ k n. put-some h w w' m.clients k e n;
        webrtc_clients = λ k n. n;
      })
    ]
  ]

  pub with_client-flag : After (λ d. d.shutdown_flag ≡ m.shutdown_flag) (with_client h f m)
  with_client-flag =
      let P : NetManager → Type 0 = λ d. d.shutdown_flag ≡ m.shutdown_flag in
      elim (Option-cases (m.clients h)) [
        | inl e ↦ subst (After P) (sym (with_client_unknown e)) refl
        | inr (w, e) ↦ elim (Option-cases (f w)) [
          | inl g ↦ subst (After P) (sym (with_client_panics w e g)) tt
          | inr ((r, w'), g) ↦ subst (After P) (sym (with_client_done w w' r e g)) refl
        ]
      ]

kept-Tame :
    {R : Type 0} (h : ℕ) (c : RtcClient) (r : State.Run R) (m : NetManager)
    → m.webrtc_clients h ≡ some c
    → After (Tame m) (kept m h r)
kept-Tame h c (State.ok a d) m e = record {
  next = refl;
  active = refl;
  clients = λ k n. n;
  webrtc_clients = λ k n. put-some h c d m.webrtc_clients k e n;
}
kept-Tame h c (State.err t d) m e = record {
  next = refl;
  active = refl;
  clients = λ k n. n;
  webrtc_clients = λ k n. put-some h c d m.webrtc_clients k e n;
}
kept-Tame h c (State.panicked d) m e = tt

module _ {R : Type 0} (h : ℕ) (f : RtcClient → State.Run R) (m : NetManager) where
  pub with_webrtc_client_unknown :
      m.webrtc_clients h ≡ none → with_webrtc_client h f m ≡ returned (err no_client) m
  unfolding with_webrtc_client
  with_webrtc_client_unknown e = ground (arith, e)

  with_webrtc_client_known :
      (c : RtcClient) → m.webrtc_clients h ≡ some c → with_webrtc_client h f m ≡ kept m h (f c)
  unfolding with_webrtc_client
  with_webrtc_client_known c e = ground (arith, e)

  pub with_webrtc_client-Tame : After (Tame m) (with_webrtc_client h f m)
  with_webrtc_client-Tame = elim (Option-cases (m.webrtc_clients h)) [
    | inl e ↦ subst (After (Tame m)) (sym (with_webrtc_client_unknown e)) (Tame-refl m)
    | inr (c, e) ↦
        subst (After (Tame m)) (sym (with_webrtc_client_known c e)) (kept-Tame h c (f c) m e)
  ]

pub destroy_client-Tame : (h : ℕ) (m : NetManager) → After (Tame m) (destroy_client h m)
unfolding destroy_client
destroy_client-Tame h m = record {
  next = refl;
  active = refl;
  clients = λ k n. put-none h m.clients k n;
  webrtc_clients = λ k n. n;
}

pub destroy_webrtc_client-Tame :
    (h : ℕ) (m : NetManager) → After (Tame m) (destroy_webrtc_client h m)
unfolding destroy_webrtc_client
destroy_webrtc_client-Tame h m = record {
  next = refl;
  active = refl;
  clients = λ k n. n;
  webrtc_clients = λ k n. put-none h m.webrtc_clients k n;
}
