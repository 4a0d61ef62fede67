-- ===== src/NetServer/Start.antt =====
-- When `start` succeeds and what it starts; the handlers of the WebSocket server.
use device_sdk.Base.{
  ℕ, zero, suc, ◌+◌, List, [], ◌∷◌, ◌++◌, Option, none, some, Bool, true, false, not, ◌≡◌, ◌≢◌, ◌↔◌,
  refl, sym, ap, ◌∙◌, inl, inr, subst, arith, Text, codes, length, lookup, ◌==◌, if◌then◌else◌,
  Bool-cases, Option-cases,
}
use device_sdk.Base.Results.{ok, ok_or, >>=-eq-ok, ok-injective}
use device_sdk.Common.Enums.{Protocols}
use device_sdk.WsServer.{
  WsHandler, WsHandlers, WebSocketServer, default_handler, text_type, binary_type, ping_type,
  pong_type, Incoming, handle_connection,
}
use device_sdk.WsServer
use device_sdk.WsServer.Handlers.{IsComplete, IsLower, new-lookup, register_handler-IsComplete}
use device_sdk.WsServer.Replies.{Returns, handle_connection-Returns}
use device_sdk.NetServer.{
  XrNetServer, FileSystem, validate_path, validate_path_write_permission, Service, service_of,
  spawn_all, panic_if, is_nil, panic_if_err, start, register_all, run_ws_server,
}

-- The services of a list of protocols, each with the port at its own place.
abbrev pub services : List Protocols → List ℕ → List Service
services [] ports = []
services (p ∷ ps) [] = []
services (p ∷ ps) (n ∷ ns) = service_of p n ++ services ps ns

spawn_all-services :
    (ps : List Protocols) (ns : List ℕ)
    → length ps ≡ length ns
    → spawn_all ps ns ≡ ok (services ps ns)
unfolding spawn_all
spawn_all-services [] ns e = refl
spawn_all-services (p ∷ ps) [] e = absurd (omega arith)
spawn_all-services (p ∷ ps) (n ∷ ns) e = rw (spawn_all-services ps ns (omega arith))

-- The configuration that `start` accepts: at least one protocol, as many ports, and a root directory
-- that exists and can be written.
pub record CanStart (fs : FileSystem) (s : XrNetServer) : Type 0 where
  pub has_protocol : s.protocol ≢ []
  pub paired : length s.protocol ≡ length s.port
  pub dir : Text
  pub has_dir : s.root_dir ≡ some dir
  pub dir_exists : fs.exists dir ≡ true
  pub writable : fs.readonly dir ≡ false

panic_if-false : (b : Bool) (message : Text) → panic_if b message ≡ ok tt → b ≡ false
panic_if-false true m h = cc
panic_if-false false m h = refl

is_nil-false : {A : Type 0} (l : List A) → is_nil l ≡ false → l ≢ []
is_nil-false [] h = cc
is_nil-false (x ∷ xs) h = λ e. cc

is_nil_of_ne : {A : Type 0} (l : List A) → l ≢ [] → is_nil l ≡ false
is_nil_of_ne [] h = absurd (h refl)
is_nil_of_ne (x ∷ xs) h = refl

is_nil_of_length :
    {A B : Type 0} (l : List A) (m : List B) → l ≢ [] → length l ≡ length m → is_nil m ≡ false
is_nil_of_length [] m n e = absurd (n refl)
is_nil_of_length (x ∷ xs) [] n e = absurd (omega arith)
is_nil_of_length (x ∷ xs) (y ∷ ys) n e = refl

same_length : (a b : ℕ) (m : Text) (u : Unit {0}) → panic_if (not (a == b)) m ≡ ok u → a ≡ b
same_length a b m u h = ground arith

no_mismatch : (a b : ℕ) (m : Text) → a ≡ b → panic_if (not (a == b)) m ≡ ok tt
no_mismatch a b m h = ground arith

some_of_ok : {A : Type 0} (o : Option A) (m : Text) {a : A} → ok_or o m ≡ ok a → o ≡ some a
some_of_ok none m h = cc
some_of_ok (some b) m h = cc

module _ (fs : FileSystem) (dir m : Text) where
  exists_of_ok :
      (u : Unit {0}) → panic_if_err (validate_path fs dir) m ≡ ok u → fs.exists dir ≡ true
  unfolding validate_path
  exists_of_ok u h = ground arith

  ok_of_exists : fs.exists dir ≡ true → panic_if_err (validate_path fs dir) m ≡ ok tt
  unfolding validate_path
  ok_of_exists h = rw h

  writable_of_ok :
      (u : Unit {0})
      → panic_if_err (validate_path_write_permission fs dir) m ≡ ok u
      → fs.readonly dir ≡ false
  unfolding validate_path_write_permission
  writable_of_ok u h = ground arith

  ok_of_writable :
      fs.readonly dir ≡ false → panic_if_err (validate_path_write_permission fs dir) m ≡ ok tt
  unfolding validate_path_write_permission
  ok_of_writable h = rw h

start_complete :
    (fs : FileSystem) (s : XrNetServer)
    → CanStart fs s
    → start fs s ≡ ok (services s.protocol s.port)
unfolding start
start_complete fs s c =
    rw
      (
        is_nil_of_ne s.protocol c.has_protocol,
        is_nil_of_length s.protocol s.port c.has_protocol c.paired,
        no_mismatch (length s.protocol) (length s.port) (codes "Protocol and Port size mismatch")
            c.paired,
        c.has_dir,
        ok_of_exists fs c.dir (codes "Invalid root directory") c.dir_exists,
        ok_of_writable fs c.dir (codes "No write permission to the root directory") c.writable,
      )
      (spawn_all-services s.protocol s.port c.paired)

start_sound :
    (fs : FileSystem) (s : XrNetServer) (l : List Service) → start fs s ≡ ok l → CanStart fs s
unfolding start
start_sound fs s l h =
    let (_, p, h₁) = >>=-eq-ok (panic_if (is_nil s.protocol) _) _ h in
    let (_, q, h₂) = >>=-eq-ok (panic_if (is_nil s.port) _) _ h₁ in
    let (_, r, h₃) = >>=-eq-ok (panic_if (not (length s.protocol == length s.port)) _) _ h₂ in
    let (dir, d, h₄) = >>=-eq-ok (ok_or s.root_dir _) _ h₃ in
    let (_, v, h₅) = >>=-eq-ok (panic_if_err (validate_path fs dir) _) _ h₄ in
    let (_, w, h₆) = >>=-eq-ok (panic_if_err (validate_path_write_permission fs dir) _) _ h₅ in
    record {
      has_protocol = is_nil-false s.protocol (panic_if-false _ _ p);
      paired = same_length _ _ _ _ r;
      dir = dir;
      has_dir = some_of_ok s.root_dir _ d;
      dir_exists = exists_of_ok fs dir _ _ v;
      writable = writable_of_ok fs dir _ _ w;
    }

-- `start` returns exactly for a configuration with a protocol, as many ports as protocols, and a
-- root directory that exists and is not read-only. It then has spawned one server for each
-- protocol that has one, in order, each with the port at the protocol's own place.
pub start_iff :
    (fs : FileSystem) (s : XrNetServer) (l : List Service)
    → (start fs s ≡ ok l) ↔ (CanStart fs s × (l ≡ services s.protocol s.port))
start_iff fs s l = (
  (λ h. let c = start_sound fs s l h in (c, ok-injective (sym h ∙ start_complete fs s c))),
  (λ (c, e). start_complete fs s c ∙ ap ok (sym e)),
)

register_all-IsComplete :
    (lower : Text → Text) (hs : WsHandlers) (s : WebSocketServer)
    → IsComplete s.handlers
    → IsComplete (register_all lower hs s).handlers
unfolding register_all
register_all-IsComplete lower [] s c = c
register_all-IsComplete lower ((t, h) ∷ hs) s c =
    register_all-IsComplete lower hs _ (register_handler-IsComplete lower t h s c)

pub new-IsComplete :
    (lower : Text → Text) → IsLower lower → IsComplete (WsServer.new lower).handlers
unfolding device_sdk.Base.same
new-IsComplete lower l = record {
  texts = rw (new-lookup lower l text_type) (λ e. cc);
  binaries = rw (new-lookup lower l binary_type) (λ e. cc);
  pings = rw (new-lookup lower l ping_type) (λ e. cc);
  pongs = rw (new-lookup lower l pong_type) (λ e. cc);
}

-- Whatever handlers the user of `XRNetServer` has registered, and whatever a client sends, the task
-- of a WebSocket connection ends without a panic.
pub run_ws_server-Returns :
    (lower : Text → Text) (s : XrNetServer) (incoming : List Incoming)
    → IsLower lower
    → Returns (handle_connection (run_ws_server lower s).handlers incoming)
unfolding run_ws_server
run_ws_server-Returns lower s incoming l =
    handle_connection-Returns _ incoming
      (register_all-IsComplete lower s.ws_handlers _ (new-IsComplete lower l))
