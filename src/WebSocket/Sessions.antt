-- ===== src/WebSocket/Sessions.antt =====
-- What the sessions of src/server/websocket.rs leave in the manager that they share.
use rfo_protocol.Base.{
  ℕ, ◌+◌, ◌≡◌, ap, ◌∙◌, Option, none, some, List, [], ◌∷◌, ◌++◌, Text, arith, length, length-append,
  if◌then◌else◌, Bool-cases, inl, inr,
}
use rfo_protocol.Base.Keys.{text_eq, text_beq, text_beq_iff, lookup, lookup-insert}
use rfo_protocol.Protocol.{WsMessage, subscribe, unsubscribe, handshake, update, ping, pong, error}
use rfo_protocol.WebSocket.{
  WsManager, subscribe_domain, subscriber_count, senders_of, Session, Incoming, text, close, other,
  broken, subscribe_all, reply, on_message, on_text, handle_ws_connection, ws_handler,
}

-- How often the domain stands in the list.
unfoldable pub occurrences : Text → List Text → ℕ
occurrences domain [] = 0
occurrences domain (d ∷ more) = (if text_beq d domain then 1 else 0) + occurrences domain more

-- How often a message subscribes to the domain.
unfoldable pub asked_by : Text → Option WsMessage → ℕ
unfolding occurrences
asked_by domain none = 0
asked_by domain (some (subscribe domains)) = occurrences domain domains
asked_by domain (some (unsubscribe domains)) = 0
asked_by domain (some (handshake request)) = 0
asked_by domain (some (update d quality_score timestamp)) = 0
asked_by domain (some ping) = 0
asked_by domain (some pong) = 0
asked_by domain (some (error code_number description)) = 0

-- How often the messages up to the end of the session subscribe to the domain.
unfoldable pub asked : (Text → Option WsMessage) → Text → List Incoming → ℕ
unfolding asked_by occurrences
asked from_str domain [] = 0
asked from_str domain (text t ∷ more) = asked_by domain (from_str t) + asked from_str domain more
asked from_str domain (other ∷ more) = asked from_str domain more
asked from_str domain (close ∷ more) = 0
asked from_str domain (broken ∷ more) = 0

subscriber_count-subscribe_domain :
    (m : WsManager) (domain d : Text)
    → subscriber_count (subscribe_domain m domain).1 d
      ≡ (if text_beq domain d then 1 else 0) + subscriber_count m d
unfolding subscriber_count subscribe_domain
subscriber_count-subscribe_domain m domain d =
    let senders = λ (k : Text). senders_of (lookup k m.subscribers) in
    let found = lookup-insert domain d (senders domain ++ (m.next_channel ∷ [])) m.subscribers in
    elim (Bool-cases (text_beq domain d)) [
      | inl same ↦
          ap (λ o. length (senders_of o)) found
          ∙ rw same (
              ap (λ k. length (senders k ++ (m.next_channel ∷ []))) ((text_beq_iff domain d).0 same)
              ∙ omega (arith, length-append {0} (senders d) (m.next_channel ∷ [])))
      | inr apart ↦ ap (λ o. length (senders_of o)) found ∙ rw apart (omega arith)
    ]

subscriber_count-subscribe_all :
    (domains : List Text) (s : Session) (d : Text)
    → subscriber_count (subscribe_all domains s).manager d
      ≡ occurrences d domains + subscriber_count s.manager d
unfolding subscribe_all occurrences
subscriber_count-subscribe_all [] s d = omega arith
subscriber_count-subscribe_all (domain ∷ more) s d = omega (
  arith,
  subscriber_count-subscribe_all more
      (record s {
        manager = (subscribe_domain s.manager domain).1;
        subscriptions = s.subscriptions ++ (domain ∷ []);
      })
      d,
  subscriber_count-subscribe_domain s.manager domain d,
)

subscriber_count-on_text :
    (m : Option WsMessage) (s : Session) (d : Text)
    → subscriber_count (on_text m s).manager d ≡ asked_by d m + subscriber_count s.manager d
unfolding on_text on_message reply asked_by
subscriber_count-on_text none s d = omega arith
subscriber_count-on_text (some (subscribe domains)) s d = subscriber_count-subscribe_all domains s d
subscriber_count-on_text (some (unsubscribe domains)) s d = omega arith
subscriber_count-on_text (some (handshake request)) s d = omega arith
subscriber_count-on_text (some (update a b c)) s d = omega arith
subscriber_count-on_text (some ping) s d = omega arith
subscriber_count-on_text (some pong) s d = omega arith
subscriber_count-on_text (some (error a b)) s d = omega arith

subscriber_count-handle_ws_connection :
    (from_str : Text → Option WsMessage) (incoming : List Incoming) (s : Session) (d : Text)
    → subscriber_count (handle_ws_connection from_str incoming s).manager d
      ≡ asked from_str d incoming + subscriber_count s.manager d
unfolding handle_ws_connection asked
subscriber_count-handle_ws_connection from_str [] s d = omega arith
subscriber_count-handle_ws_connection from_str (text t ∷ more) s d = omega (
  arith,
  subscriber_count-handle_ws_connection from_str more (on_text (from_str t) s) d,
  subscriber_count-on_text (from_str t) s d,
)
subscriber_count-handle_ws_connection from_str (other ∷ more) s d =
    subscriber_count-handle_ws_connection from_str more s d
subscriber_count-handle_ws_connection from_str (close ∷ more) s d = omega arith
subscriber_count-handle_ws_connection from_str (broken ∷ more) s d = omega arith

-- A session that has ended leaves in the manager a sender for each time that it subscribed to a
-- domain: neither unsubscribing nor the end of the session takes one away.
pub subscriber_count-ws_handler :
    (from_str : Text → Option WsMessage) (incoming : List Incoming) (m : WsManager) (d : Text)
    → subscriber_count (ws_handler from_str incoming m).manager d
      ≡ asked from_str d incoming + subscriber_count m d
unfolding ws_handler
subscriber_count-ws_handler from_str incoming m d =
    subscriber_count-handle_ws_connection from_str incoming _ d
