-- ===== src/WebSocket.antt =====
-- src/server/websocket.rs: the subscriptions to updates and the sessions of web sockets. A broadcast
-- channel of tokio is its number, a send to it an entry of `sent`; what a receiver that lags loses
-- is not modelled. A session takes the results of `socket.next()` in order, and replies with values
-- that serde_json then prints; `from_str` is serde_json's.
pub mod Channels
pub mod Delivery
pub mod Sessions
use rfo_protocol.Base.{
  ℕ, zero, suc, ◌+◌, Bool, not, Option, none, some, List, [], ◌∷◌, ◌++◌, Text, codes, length,
  if◌then◌else◌,
}
use rfo_protocol.Base.Keys.{Assoc, text_eq, text_beq, lookup, insert}
use rfo_protocol.Protocol.{WsMessage, subscribe, unsubscribe, handshake, update, ping, pong, error}

pub record WsManager : Type 0 where
  pub subscribers : Assoc Text (List ℕ)
  pub global_tx : ℕ
  pub next_channel : ℕ
  pub sent : List (ℕ × WsMessage)

-- `WsManager::new`, on fresh channels.
unfoldable pub new_manager : WsManager
new_manager = record { subscribers = []; global_tx = 0; next_channel = 1; sent = [] }

-- `or_default()` of a list of senders
abbrev pub senders_of : Option (List ℕ) → List ℕ
senders_of none = []
senders_of (some senders) = senders

-- `for sender in tx.iter()`
unfoldable pub send_all : List ℕ → WsMessage → List (ℕ × WsMessage) → List (ℕ × WsMessage)
send_all [] msg sent = sent
send_all (channel ∷ more) msg sent = send_all more msg (sent ++ ((channel, msg) ∷ []))

unfoldable pub publish_update : WsManager → Text → ℕ → Text → WsManager
publish_update m domain quality_score timestamp =
    let msg = update domain quality_score timestamp in
    let to_domain = send_all (senders_of (lookup domain m.subscribers)) msg m.sent in
    record m { sent = to_domain ++ ((m.global_tx, msg) ∷ []) }

-- The receiver is its channel.
unfoldable pub subscribe_domain : WsManager → Text → ℕ × WsManager
subscribe_domain m domain = (
  m.next_channel,
  record m {
    subscribers =
        insert domain (senders_of (lookup domain m.subscribers) ++ (m.next_channel ∷ []))
          m.subscribers;
    next_channel = suc m.next_channel;
  },
)

unfoldable pub subscribe_global : WsManager → ℕ
subscribe_global m = m.global_tx

unfoldable pub subscriber_count : WsManager → Text → ℕ
subscriber_count m domain = length (senders_of (lookup domain m.subscribers))

unfoldable pub sum_lengths : Assoc Text (List ℕ) → ℕ
sum_lengths [] = 0
sum_lengths ((domain, senders) ∷ more) = length senders + sum_lengths more

unfoldable pub total_subscribers : WsManager → ℕ
total_subscribers m = sum_lengths m.subscribers

-- What `socket.next()` yields; binary, ping and pong frames are `other`.
pub data Incoming : Type 0 where
  text : Text → Incoming
  close other broken : Incoming

pub data Outgoing : Type 0 where
  message : WsMessage → Outgoing
  acknowledged : Text → List Text → Outgoing

pub record Session : Type 0 where
  pub manager : WsManager
  pub subscriptions : List Text
  pub replies : List Outgoing

-- The receiver that `subscribe_domain` returns is dropped.
unfoldable pub subscribe_all : List Text → Session → Session
subscribe_all [] s = s
subscribe_all (domain ∷ more) s = subscribe_all more (record s {
  manager = (subscribe_domain s.manager domain).1;
  subscriptions = s.subscriptions ++ (domain ∷ []);
})

-- `subscriptions.retain(|d| d != domain)`
unfoldable pub retain_others : Text → List Text → List Text
retain_others domain [] = []
retain_others domain (d ∷ more) =
    let rest = retain_others domain more in if text_beq d domain then rest else d ∷ rest

unfoldable pub unsubscribe_all : List Text → List Text → List Text
unsubscribe_all [] subscriptions = subscriptions
unsubscribe_all (domain ∷ more) subscriptions =
    unsubscribe_all more (retain_others domain subscriptions)

unfoldable pub reply : Outgoing → Session → Session
reply r s = record s { replies = s.replies ++ (r ∷ []) }

abbrev unsupported : Outgoing
unsupported = message (error 400 (codes "Unsupported message type"))

unfoldable pub on_message : WsMessage → Session → Session
unfolding reply
on_message (subscribe domains) s =
    reply (acknowledged (codes "subscribed") domains) (subscribe_all domains s)
on_message (unsubscribe domains) s =
    reply (acknowledged (codes "unsubscribed") domains)
      (record s { subscriptions = unsubscribe_all domains s.subscriptions })
on_message ping s = reply (message pong) s
on_message pong s = reply unsupported s
on_message (handshake request) s = reply unsupported s
on_message (update domain quality_score timestamp) s = reply unsupported s
on_message (error code_number description) s = reply unsupported s

unfoldable pub on_text : Option WsMessage → Session → Session
unfolding on_message reply
on_text none s = reply (message (error 400 (codes "Invalid message format"))) s
on_text (some ws_msg) s = on_message ws_msg s

-- `while let Some(result) = socket.next().await`
unfoldable pub handle_ws_connection : (Text → Option WsMessage) → List Incoming → Session → Session
handle_ws_connection from_str [] s = s
handle_ws_connection from_str (text t ∷ more) s =
    handle_ws_connection from_str more (on_text (from_str t) s)
handle_ws_connection from_str (other ∷ more) s = handle_ws_connection from_str more s
handle_ws_connection from_str (close ∷ more) s = s
handle_ws_connection from_str (broken ∷ more) s = s

-- `ws_handler`: a session with the shared manager and no subscriptions.
unfoldable pub ws_handler : (Text → Option WsMessage) → List Incoming → WsManager → Session
ws_handler from_str incoming manager =
    handle_ws_connection from_str incoming
      (record { manager = manager; subscriptions = []; replies = [] })
