-- ===== src/Ffi/Calls/Destroyed.antt =====
-- A handle whose client has been destroyed names no client again.
use device_sdk.Base.{
  ℕ, suc, ◌+◌, ◌^◌, ◌<◌, ◌≤◌, List, [], ◌∷◌, Option, none, some, Bool, true, false, ◌≡◌, ◌≢◌, ◌⊎◌,
  subst, ap, ◌∙◌, arith, ◌==◌, inl, inr, length, if◌then◌else◌,
}
use device_sdk.Ffi.Codes.{ℤ, invalid_handle, success}
use device_sdk.Ffi.Wrapper.{Outside, ClientWrapper}
use device_sdk.Ffi.Manager.{
  NetManager, Run, returned, put, up, guarded, dropped, increment_operations, decrement_operations,
  is_some, destroy_client,
}
use device_sdk.Ffi.Clients
use device_sdk.Ffi.Clients.{
  text_of, then_code, nested_code, CText, set_by, with_text, create_matched, or_zero, timeout_set,
  client_create, client_destroy, client_set_url, client_set_method, client_set_user,
  client_set_password, client_set_req_body, client_set_header, client_set_timeout, client_request,
  client_connect, client_get_request, client_post_request, client_put_request,
  client_delete_request, client_get_response,
}
use device_sdk.Ffi.Sessions.{Surroundings}
use device_sdk.Ffi.Calls.{Exported, OnClient, perform, client_call}
use device_sdk.Ffi.Calls.Bodies.{client_call-Tame}
use device_sdk.Ffi.Calls.Unknown.{Refused, Unknown, client_call-Refused}
use device_sdk.Ffi.Calls.Effects.{Effect, perform-Effect}
use device_sdk.Ffi.Calls.Sequences.{IsValid, IsValid-Effect, perform_all, then_all, After-map}
use device_sdk.Ffi.Calls.Keeps.{After, Tame}

up_small : (n : ℕ) → suc n < 2 ^ 64 → up n ≡ suc n
up_small n h = omega (arith, h)

le_or_lt : (a b : ℕ) → (a ≤ b) ⊎ (b < a)
le_or_lt a b = omega arith

module _ (env : Surroundings) (h : ℕ) where
  still-Unknown :
      (m d : NetManager)
      → h < m.next_handle_id
      → Unknown env h m
      → suc m.next_handle_id < 2 ^ 64
      → Effect m d
      → Unknown env h d × (h < d.next_handle_id)
  still-Unknown m d l u b (inl t) = (t.clients h u, omega (arith, t.next, l))
  still-Unknown m d l u b (inr t) = (
    t.clients h (λ e. omega (arith, e, l)) u,
    omega (arith, l, t.next ∙ up_small m.next_handle_id b),
  )

  -- A handle that is not in use is not given out again, as long as there are others.
  perform_all-Unknown :
      (cs : List Exported) (m : NetManager)
      → IsValid m
      → m.active_operations < 2 ^ 64
      → h < m.next_handle_id
      → m.next_handle_id + length cs < 2 ^ 64
      → Unknown env h m
      → After (λ d. Unknown env h d × (d.active_operations < 2 ^ 64)) (perform_all env cs m)
  perform_all-Unknown [] m v a l b u = (u, a)
  perform_all-Unknown (c ∷ cs) m v a l b u = then_all _ env cs (perform env c m) (
      After-map (Effect m) _ (perform env c m)
        (λ d f.
          let (w, n, s) = IsValid-Effect m d v (omega (arith, b)) f in
          let (g, k) = still-Unknown m d l u (omega (arith, b)) f in
          perform_all-Unknown cs d w (omega (arith, s, a)) k (omega (arith, n, b)) g)
        (perform-Effect env c m a))

put_self : {A : Type 0} (h : ℕ) (o : Option A) (map : ℕ → Option A) → put h o map h ≡ o
put_self h o map = ground arith

-- The ways in which a destruction ends, by its three tests.
abbrev ended : Outside → NetManager → NetManager → Bool → Bool → Option ClientWrapper → Run ℤ
ended out m gone flag zero o =
    if flag
    then returned invalid_handle m
    else dropped (
        if zero
        then returned invalid_handle (increment_operations m)
        else Clients.handle_code out (returned (is_some o) gone))

ended-success :
    (out : Outside) (m gone m' : NetManager) (flag zero : Bool) (o : Option ClientWrapper)
    → ended out m gone flag zero o ≡ returned success m'
    → (o ≢ none) × (m' ≡ decrement_operations gone)
ended-success out m gone m' true zero o e = absurd (cc)
ended-success out m gone m' false true o e = absurd (cc)
ended-success out m gone m' false false none e = absurd (cc)
ended-success out m gone m' false false (some w) e = (λ n. cc, cc)

client_destroy-success :
    (env : Surroundings) (h : ℕ) (m m' : NetManager)
    → client_destroy env.out h m ≡ returned success m'
    → (m.clients h ≢ none) × (m'.clients h ≡ none)
unfolding client_destroy guarded destroy_client
client_destroy-success env h m m' e =
    let gone : NetManager = record (increment_operations m) { clients = put h none m.clients } in
    let (known, g) = ended-success env.out m gone m' m.shutdown_flag (h == 0) (m.clients h) e in
    (known, ap (λ d. d.clients h) g ∙ put_self h none m.clients)

below : (m : NetManager) (h : ℕ) → IsValid m → m.clients h ≢ none → h < m.next_handle_id
below m h v n = elim (le_or_lt m.next_handle_id h) [
  | inl l ↦ absurd (n (v.fresh h l).0)
  | inr l ↦ l
]

-- A handle that has been destroyed is never of use again: whatever calls follow, as long as there are
-- more handles than calls, every guarded function on it answers an error and changes nothing.
pub client_destroy-Refused :
    (env : Surroundings) (h : ℕ) (m m' : NetManager) (cs : List Exported)
    → IsValid m
    → m.active_operations < 2 ^ 64
    → suc (m.next_handle_id + length cs) < 2 ^ 64
    → client_destroy env.out h m ≡ returned success m'
    → After (λ d. (c : OnClient) → Refused d (client_call env h c d)) (perform_all env cs m')
client_destroy-Refused env h m m' cs v a b e =
    let t : Tame m m' = subst (After (Tame m)) e (client_call-Tame env m a h OnClient.destroy) in
    let (w, n, s) = IsValid-Effect m m' v (omega (arith, b)) (inl t) in
    let (known, gone) = client_destroy-success env h m m' e in
    After-map _ _ (perform_all env cs m') (λ d k c. client_call-Refused env h d k.1 k.0 c)
      (perform_all-Unknown env h cs m' w (omega (arith, s, a))
        (omega (arith, below m h v known, t.next)) (omega (arith, t.next, b)) gone)
