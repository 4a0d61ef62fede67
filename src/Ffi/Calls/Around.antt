-- ===== src/Ffi/Calls/Around.antt =====
-- What is put around the parts of the exported functions keeps what they keep.
use device_sdk.Base.{
  ℕ, ◌^◌, ◌<◌, List, Option, none, some, Bool, true, false, ◌≡◌, sym, subst, ◌∙◌, arith, ◌==◌, Text,
  if◌then◌else◌,
}
use device_sdk.Base.Results.{Result, ok, err}
use device_sdk.Ffi.Codes.{ℤ, invalid_param}
use device_sdk.Ffi.Wrapper.{CNetResponse, Outside}
use device_sdk.Ffi.Manager.{
  NetManager, Call, Run, returned, aborted, up, down, guarded, dropped, increment_operations,
  with_client,
}
use device_sdk.Ffi.Clients.{
  CText, with_text, text_of, then_code, handle_code, or_error, then_response, look,
}
use device_sdk.Ffi.Calls.{Answer, answers}
use device_sdk.Ffi.Calls.Keeps.{After, Tame, Tame-refl, with_client-Tame}

module _ (P : NetManager → Type 0) where
  pub then_code-After :
      {R : Type 0} (code : Result R → ℤ) (r : Run (Result R))
      → After P r
      → After P (then_code code r)
  then_code-After code (returned a m) h = h
  then_code-After code aborted h = tt

  pub handle_code-After : (out : Outside) (r : Run Bool) → After P r → After P (handle_code out r)
  handle_code-After out (returned true m) h = h
  handle_code-After out (returned false m) h = h
  handle_code-After out aborted h = tt

  pub answers-After : {A : Type 0} (f : A → Answer) (r : Run A) → After P r → After P (answers f r)
  answers-After f (returned a m) h = h
  answers-After f aborted h = tt

  pub or_error-After :
      (out : Outside) (c : ℤ) (r : Run (Result CNetResponse))
      → After P r
      → After P (or_error out c r)
  or_error-After out c (returned (ok a) m) h = h
  or_error-After out c (returned (err e) m) h = h
  or_error-After out c aborted h = tt

pub Tame-trans : (a b c : NetManager) → Tame a b → Tame b c → Tame a c
Tame-trans a b c s t = record {
  next = t.next ∙ s.next;
  active = t.active ∙ s.active;
  clients = λ h e. t.clients h (s.clients h e);
  webrtc_clients = λ h e. t.webrtc_clients h (s.webrtc_clients h e);
}

After-trans :
    {A : Type 0} (a b : NetManager) (r : Run A) → Tame a b → After (Tame b) r → After (Tame a) r
After-trans a b (returned x c) s t = Tame-trans a b c s t
After-trans a b aborted s t = tt

pub then_response-Tame :
    (out : Outside) (h : ℕ) (m : NetManager) (r : Run (Result (Result (Unit {0}))))
    → After (Tame m) r
    → After (Tame m) (then_response out h r)
then_response-Tame out h m (returned (ok (ok x)) d) t =
    or_error-After (Tame m) out _ (with_client h (look out) d)
      (After-trans m d (with_client h (look out) d) t (with_client-Tame h (look out) d))
then_response-Tame out h m (returned (ok (err e)) d) t =
    or_error-After (Tame m) out _ (with_client h (look out) d)
      (After-trans m d (with_client h (look out) d) t (with_client-Tame h (look out) d))
then_response-Tame out h m (returned (err e) d) t = t
then_response-Tame out h m aborted t = tt

-- A body that keeps the manager in this sense, whatever the manager.
abbrev pub Tames : {A : Type 0} → Call A → Type 0
Tames body = (m : NetManager) → After (Tame m) (body m)

pub if-After :
    {A : Type 0} (P : NetManager → Type 0) (b : Bool) (r s : Run A)
    → After P r
    → After P s
    → After P (if b then r else s)
if-After P true r s p q = p
if-After P false r s p q = q

text-After :
    (P : NetManager → Type 0) (t : Option Text) (m : NetManager) (body : Text → Run ℤ)
    → P m
    → ((s : Text) → After P (body s))
    → After P (elim t [ none ↦ returned invalid_param m | some s ↦ body s ])
text-After P none m body p q = p
text-After P (some s) m body p q = q s

pub with_text-Tames :
    (to_str : List ℕ → Option Text) (h : ℕ) (t : CText) (body : Text → Call ℤ)
    → ((s : Text) → Tames (body s))
    → Tames (with_text to_str h t body)
unfolding with_text
with_text-Tames to_str h t body k m =
    if-After (Tame m) (h == 0) _ _ (Tame-refl m)
      (text-After (Tame m) (text_of to_str t) m (λ s. body s m) (Tame-refl m) (λ s. k s m))

down-up : (n : ℕ) → n < 2 ^ 64 → down (up n) ≡ n
down-up n h = omega (arith, h)

pub down-up_same : (a b : ℕ) → a ≡ up b → b < 2 ^ 64 → down a ≡ b
down-up_same a b e h = subst (λ x. down x ≡ b) (sym e) (down-up b h)

dropped-Tame :
    {A : Type 0} (m : NetManager) (r : Run A)
    → m.active_operations < 2 ^ 64
    → After (Tame (increment_operations m)) r
    → After (Tame m) (dropped r)
dropped-Tame m (returned a d) h t = record {
  next = t.next;
  active = down-up_same d.active_operations m.active_operations t.active h;
  clients = t.clients;
  webrtc_clients = t.webrtc_clients;
}
dropped-Tame m aborted h t = tt

pub guarded-Tame :
    {A : Type 0} (refusal : A) (body : Call A)
    → Tames body
    → (m : NetManager) → m.active_operations < 2 ^ 64
    → After (Tame m) (guarded refusal body m)
unfolding guarded
guarded-Tame refusal body k m h =
    if-After (Tame m) m.shutdown_flag _ _ (Tame-refl m)
      (dropped-Tame m (body (increment_operations m)) h (k (increment_operations m)))
