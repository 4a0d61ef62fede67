-- ===== src/Ffi/Calls/Sequences.antt =====
-- The manager over sequences of calls: the handles, and the count of the operations.
use device_sdk.Base.{
  ℕ, suc, ◌+◌, ◌^◌, ◌<◌, ◌≤◌, List, [], ◌∷◌, none, ◌≡◌, ◌≢◌, ◌⊎◌, refl, sym, subst, ◌∙◌, arith, inl,
  inr, length,
}
use device_sdk.Ffi.Manager.{NetManager, new, Run, returned, aborted}
use device_sdk.Ffi.Sessions.{Surroundings}
use device_sdk.Ffi.Calls.{Exported, Answer, perform}
use device_sdk.Ffi.Calls.Effects.{Effect, Grown, perform-Effect}
use device_sdk.Ffi.Calls.Keeps.{After}

-- No handle from the next one on is in use, zero is none, and no handle is one of both kinds.
pub record IsValid (m : NetManager) : Type 0 where
  pub positive : 1 ≤ m.next_handle_id
  pub zero_free : (m.clients 0 ≡ none) × (m.webrtc_clients 0 ≡ none)
  pub fresh : (h : ℕ) → m.next_handle_id ≤ h → (m.clients h ≡ none) × (m.webrtc_clients h ≡ none)
  pub apart : (h : ℕ) → (m.clients h ≡ none) ⊎ (m.webrtc_clients h ≡ none)

same_or_other : (h k : ℕ) → (h ≡ k) ⊎ (h ≢ k)
same_or_other h k = omega arith

Grown-apart :
    (m m' : NetManager)
    → IsValid m
    → Grown m m'
    → (h : ℕ) → (m'.clients h ≡ none) ⊎ (m'.webrtc_clients h ≡ none)
Grown-apart m m' v t h = elim (same_or_other h m.next_handle_id) [
  | inl e ↦
      let (c, w) = v.fresh m.next_handle_id (omega arith) in
      subst (λ k. (m'.clients k ≡ none) ⊎ (m'.webrtc_clients k ≡ none)) (sym e) (t.one c w)
  | inr n ↦ elim (v.apart h) [
    | inl c ↦ inl (t.clients h n c)
    | inr w ↦ inr (t.webrtc_clients h n w)
  ]
]

pub IsValid-Effect :
    (m m' : NetManager)
    → IsValid m
    → suc m.next_handle_id < 2 ^ 64
    → Effect m m'
    → IsValid m'
      × (m'.next_handle_id ≤ suc m.next_handle_id)
      × (m'.active_operations ≡ m.active_operations)
IsValid-Effect m m' v b (inl t) = (
  record {
    positive = omega (arith, v.positive, t.next);
    zero_free = (t.clients 0 v.zero_free.0, t.webrtc_clients 0 v.zero_free.1);
    fresh = λ h l.
        let (c, w) = v.fresh h (omega (arith, l, t.next)) in (t.clients h c, t.webrtc_clients h w);
    apart =
        λ h. elim (v.apart h) [ inl c ↦ inl (t.clients h c) | inr w ↦ inr (t.webrtc_clients h w) ];
  },
  omega (arith, t.next),
  t.active,
)
IsValid-Effect m m' v b (inr t) =
    let n : m'.next_handle_id ≡ suc m.next_handle_id = t.next ∙ omega (arith, b) in
    (
      record {
        positive = omega (arith, n);
        zero_free = (
          t.clients 0 (λ e. omega (arith, e, v.positive)) v.zero_free.0,
          t.webrtc_clients 0 (λ e. omega (arith, e, v.positive)) v.zero_free.1,
        );
        fresh = λ h l.
            let (c, w) = v.fresh h (omega (arith, l, n)) in
            let other : h ≢ m.next_handle_id = λ e. omega (arith, e, l, n) in
            (t.clients h other c, t.webrtc_clients h other w);
        apart = Grown-apart m m' v t;
      },
      omega (arith, n),
      t.active,
    )

-- The manager after the calls, one after the other.
abbrev pub perform_all : Surroundings → List Exported → NetManager → Run (Unit {0})
perform_all env [] m = returned tt m
perform_all env (c ∷ cs) m = elim (perform env c m) [
  | returned a m' ↦ perform_all env cs m'
  | aborted ↦ aborted
]

pub then_all :
    (P : NetManager → Type 0) (env : Surroundings) (cs : List Exported) (r : Run Answer)
    → After (λ m'. After P (perform_all env cs m')) r
    → After P (elim r [ returned a m' ↦ perform_all env cs m' | aborted ↦ aborted ])
then_all P env cs (returned a m') h = h
then_all P env cs aborted h = tt

pub After-map :
    {A : Type 0} (P Q : NetManager → Type 0) (r : Run A)
    → ((m : NetManager) → P m → Q m)
    → After P r
    → After Q r
After-map P Q (returned a m) f h = f m h
After-map P Q aborted f h = tt

perform_all-IsValid_from :
    (env : Surroundings) (cs : List Exported) (m : NetManager) (n : ℕ)
    → IsValid m
    → m.active_operations ≡ n
    → n < 2 ^ 64
    → m.next_handle_id + length cs < 2 ^ 64
    → After (λ m'. IsValid m' × (m'.active_operations ≡ n)) (perform_all env cs m)
perform_all-IsValid_from env [] m n v e a b = (v, e)
perform_all-IsValid_from env (c ∷ cs) m n v e a b = then_all _ env cs (perform env c m) (
    After-map (Effect m) _ (perform env c m)
      (λ m' f.
        let (v', l, s) = IsValid-Effect m m' v (omega (arith, b)) f in
        perform_all-IsValid_from env cs m' n v' (s ∙ e) a (omega (arith, l, b)))
      (perform-Effect env c m (omega (arith, e, a))))

new-IsValid : IsValid new
unfolding new
new-IsValid = record {
  positive = omega arith;
  zero_free = (refl, refl);
  fresh = λ h l. (refl, refl);
  apart = λ h. inl refl;
}

-- After any calls of the exported functions, in any order, and fewer than there are handles, the
-- handles that were never given out and zero name no client, no handle names clients of both kinds,
-- and no operation is left counted as active. A call that panics ends the process.
pub perform_all-IsValid :
    (env : Surroundings) (cs : List Exported)
    → suc (length cs) < 2 ^ 64
    → After (λ m. IsValid m × (m.active_operations ≡ 0)) (perform_all env cs new)
unfolding new
perform_all-IsValid env cs b =
    perform_all-IsValid_from env cs new 0 new-IsValid refl (omega arith) (omega (arith, b))
