-- ===== src/Signaling/Isolation.antt =====
-- What a message leaves alone: the sessions that it does not name, and the table of clients.
use device_sdk.Base.{
  List, Bool, false, ◌≡◌, ◌≢◌, refl, ◌∙◌, Text, lookup, lookup-insert_other, lookup-delete_other,
}
use device_sdk.Common.Messages.{WebRtcMessage}
use device_sdk.Signaling.State.{World, Env, world_of}
use device_sdk.Signaling.Connection.{
  kind_of, dispatch, remove_client, signaling_handler, Incoming, handle_connection,
}
use device_sdk.Signaling.Keeps.{
  Keeps, dispatch-Keeps, signaling_handler-Keeps, handle_connection-Keeps,
}
use device_sdk.Signaling.Writes.{Survives, Handled-of_survives, push-Keeps}

abbrev HasSession : World → Text → World → Type 0
HasSession w id w' = lookup id w'.sessions ≡ lookup id w.sessions

HasSession-Survives : (w : World) (id : Text) → Survives (HasSession w id) (λ k. k ≢ id)
HasSession-Survives w id = record {
  put = λ w' k s n e. lookup-insert_other k id s w'.sessions n ∙ e;
  drop = λ w' k n e. lookup-delete_other k id w'.sessions n ∙ e;
  send = λ w' l e. e;
}

abbrev HasClients : World → World → Type 0
HasClients w w' = w'.clients ≡ w.clients

HasClients-Survives : (w : World) → Survives (HasClients w) (λ _. Unit {0})
HasClients-Survives w = record { put = λ w' k s _ e. e; drop = λ w' k _ e. e; send = λ w' l e. e }

-- A message of any kind leaves a session as it was if it does not name it, unless a new session
-- draws the same identifier.
pub dispatch-isolated :
    (env : Env) (w : World) (fresh id : Text) (m : WebRtcMessage)
    → fresh ≢ id
    → m.session_id ≢ id
    → lookup id (world_of (dispatch env fresh m (kind_of m.message_type) w)).sessions
      ≡ lookup id w.sessions
dispatch-isolated env w fresh id m n k =
    dispatch-Keeps (HasSession w id) env fresh m (kind_of m.message_type)
      (Handled-of_survives env (HasSession w id) (λ j. j ≢ id) (HasSession-Survives w id) fresh m n
        k)
      w refl

-- No message changes the table of clients, whatever its bytes.
pub signaling_handler-clients :
    (env : Env) (w : World) (fresh input : Text)
    → (world_of (signaling_handler env fresh input w)).clients ≡ w.clients
signaling_handler-clients env w fresh input =
    signaling_handler-Keeps (HasClients w) env fresh input
      (λ m.
        Handled-of_survives env (HasClients w) (λ _. Unit) (HasClients-Survives w) fresh m tt tt)
      w refl

remove_client_blocked :
    (env : Env) (w : World) (id : Text) → Keeps (HasClients w) (remove_client env false id)
unfolding remove_client
remove_client_blocked env w id w' e = e

-- Where `blocking_lock` panics, a client stays in the table after its connection has ended,
-- whatever it sent and also if it sent a close frame.
pub handle_connection_leaks :
    (env : Env) (w : World) (delivered : Bool) (id : Text) (incoming : List (Incoming × Text))
    → (world_of (handle_connection env false delivered id incoming w)).clients ≡ w.clients
handle_connection_leaks env w delivered id incoming =
    handle_connection-Keeps (HasClients w) env false
      (record {
        handled = λ fresh m.
            Handled-of_survives env (HasClients w) (λ _. Unit) (HasClients-Survives w) fresh m tt
              tt;
        sends = push-Keeps env (HasClients w) (λ _. Unit) (HasClients-Survives w);
        removes = remove_client_blocked env w;
      })
      delivered id incoming w refl
