-- ===== src/WebSocket/Channels.antt =====
-- The messages and the senders of the channels of src/server/websocket.rs.
use rfo_protocol.Base.{
  ℕ, zero, suc, ◌+◌, ◌≤◌, ◌<◌, ◌≡◌, ◌≢◌, refl, sym, ap, ◌∙◌, Bool, true, false, List, [], ◌∷◌, ◌++◌,
  Text, arith, if◌then◌else◌, Bool-cases, inl, inr, ◌==◌, ==_refl, ne→==, append_assoc, append-nil,
}
use rfo_protocol.Base.Keys.{text_eq, text_beq, text_beq_iff, lookup, lookup-insert}
use rfo_protocol.Protocol.{WsMessage, update}
use rfo_protocol.WebSocket.{WsManager, senders_of, send_all, publish_update, subscribe_domain}

-- The messages of one channel, in order.
unfoldable pub received : ℕ → List (ℕ × WsMessage) → List WsMessage
received channel [] = []
received channel ((c, msg) ∷ more) =
    let rest = received channel more in if c == channel then msg ∷ rest else rest

-- What other tasks do with the manager.
pub data Use : Type 0 where
  publish : Text → ℕ → Text → Use
  subscribe_to : Text → Use

unfoldable pub use_all : List Use → WsManager → WsManager
use_all [] m = m
use_all (publish domain quality_score timestamp ∷ more) m =
    use_all more (publish_update m domain quality_score timestamp)
use_all (subscribe_to domain ∷ more) m = use_all more (subscribe_domain m domain).1

-- The updates of the domain, in order.
unfoldable pub updates_of : Text → List Use → List WsMessage
updates_of d [] = []
updates_of d (publish domain quality_score timestamp ∷ more) =
    let rest = updates_of d more in
    if text_beq d domain then update domain quality_score timestamp ∷ rest else rest
updates_of d (subscribe_to domain ∷ more) = updates_of d more

-- How often a channel stands among the senders.
unfoldable pub uses : ℕ → List ℕ → ℕ
uses channel [] = 0
uses channel (c ∷ more) = let rest = uses channel more in if c == channel then suc rest else rest

abbrev pub senders : WsManager → Text → List ℕ
senders m d = senders_of (lookup d m.subscribers)

-- The numbers of channels in use are below the next one.
pub record IsNumbered (m : WsManager) : Type 0 where
  pub global : m.global_tx < m.next_channel
  pub local : (d : Text) (c : ℕ) → m.next_channel ≤ c → uses c (senders m d) ≡ 0
  pub unsent : (c : ℕ) → m.next_channel ≤ c → received c m.sent ≡ []

-- The channel is a sender of the domain, once, and of no other.
pub record Serves (channel : ℕ) (d : Text) (m : WsManager) : Type 0 where
  pub taken : channel < m.next_channel
  pub local : m.global_tx ≢ channel
  pub once :
      (domain : Text) → uses channel (senders m domain) ≡ (if text_beq d domain then 1 else 0)

uses-append : (c : ℕ) (xs ys : List ℕ) → uses c (xs ++ ys) ≡ uses c xs + uses c ys
unfolding uses
uses-append c [] ys = omega arith
uses-append c (x ∷ xs) ys = ground (arith, uses-append c xs ys)

received-append :
    (c : ℕ) (xs ys : List (ℕ × WsMessage)) → received c (xs ++ ys) ≡ received c xs ++ received c ys
unfolding received
received-append c [] ys = refl
received-append c ((k, msg) ∷ xs) ys = elim (Bool-cases (k == c)) [
  | inl same ↦ rw same (ap (λ r. msg ∷ r) (received-append c xs ys))
  | inr apart ↦ rw apart (received-append c xs ys)
]

-- A message, as often as the number says.
unfoldable pub times : ℕ → WsMessage → List WsMessage
times zero msg = []
times (suc n) msg = msg ∷ times n msg

received-one :
    (c k : ℕ) (more : List ℕ) (msg : WsMessage)
    → received c ((k, msg) ∷ []) ++ times (uses c more) msg ≡ times (uses c (k ∷ more)) msg
unfolding received uses times
received-one c k more msg = elim (Bool-cases (k == c)) [ inl same ↦ rw same | inr apart ↦ rw apart ]

uses-none : (c : ℕ) → uses c [] ≡ 0
unfolding uses
uses-none c = refl

received-send_all :
    (c : ℕ) (channels : List ℕ) (msg : WsMessage) (sent : List (ℕ × WsMessage))
    → received c (send_all channels msg sent) ≡ received c sent ++ times (uses c channels) msg
unfolding send_all uses times
received-send_all c [] msg sent = sym (append-nil (received c sent))
received-send_all c (k ∷ more) msg sent =
    received-send_all c more msg (sent ++ ((k, msg) ∷ []))
    ∙ ap (λ r. r ++ times (uses c more) msg) (received-append c sent ((k, msg) ∷ []))
    ∙ append_assoc (received c sent) (received c ((k, msg) ∷ [])) (times (uses c more) msg)
    ∙ ap (λ r. received c sent ++ r) (received-one c k more msg)

-- A publication to a channel that serves a domain.
pub received-publish_update :
    (c : ℕ) (m : WsManager) (domain : Text) (quality_score : ℕ) (timestamp : Text)
    → m.global_tx ≢ c
    → received c (publish_update m domain quality_score timestamp).sent
      ≡ received c m.sent
        ++ times (uses c (senders m domain)) (update domain quality_score timestamp)
unfolding publish_update received
received-publish_update c m domain quality_score timestamp local =
    let msg = update domain quality_score timestamp in
    received-append c (send_all (senders m domain) msg m.sent) ((m.global_tx, msg) ∷ [])
    ∙ rw (ne→== m.global_tx c local)
        (append-nil _ ∙ received-send_all c (senders m domain) msg m.sent)

-- A new sender for a domain leaves the places of the other channels.
pub uses-subscribe_domain :
    (m : WsManager) (domain d : Text) (c : ℕ)
    → uses c (senders (subscribe_domain m domain).1 d)
      ≡ uses c (senders m d) + uses c (if text_beq domain d then m.next_channel ∷ [] else [])
unfolding subscribe_domain
uses-subscribe_domain m domain d c =
    let found = lookup-insert domain d (senders m domain ++ (m.next_channel ∷ [])) m.subscribers in
    elim (Bool-cases (text_beq domain d)) [
      | inl same ↦
          ap (λ o. uses c (senders_of o)) found
          ∙ rw same (
              ap (λ k. uses c (senders m k ++ (m.next_channel ∷ [])))
                ((text_beq_iff domain d).0 same)
              ∙ uses-append c (senders m d) (m.next_channel ∷ []))
      | inr apart ↦ ap (λ o. uses c (senders_of o)) found ∙ rw apart (omega (arith, uses-none c))
    ]

pub uses-other : (b : Bool) (c n : ℕ) → n ≢ c → uses c (if b then n ∷ [] else []) ≡ 0
unfolding uses
uses-other true c n h = rw (ne→== n c h)
uses-other false c n h = refl

pub uses_self : (b : Bool) (c : ℕ) → uses c (if b then c ∷ [] else []) ≡ (if b then 1 else 0)
unfolding uses
uses_self true c = rw (==_refl c) (omega arith)
uses_self false c = refl
