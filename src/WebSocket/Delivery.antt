-- ===== src/WebSocket/Delivery.antt =====
-- What the receivers of src/server/websocket.rs are sent from their subscription on.
use rfo_protocol.Base.{
  ℕ, ◌≡◌, refl, sym, ap, ap₂, ◌∙◌, List, [], ◌∷◌, ◌++◌, Text, arith, Bool-cases, inl, inr,
  append_assoc, append-nil,
}
use rfo_protocol.Base.Keys.{text_eq, text_beq, lookup}
use rfo_protocol.Protocol.{update}
use rfo_protocol.WebSocket.{new_manager, WsManager, publish_update, subscribe_domain}
use rfo_protocol.WebSocket.Channels.{
  received, Use, publish, subscribe_to, use_all, updates_of, uses, IsNumbered, Serves, times,
  received-publish_update, uses-subscribe_domain, uses-other, uses_self,
}

publish_update-IsNumbered :
    (m : WsManager) (domain : Text) (quality_score : ℕ) (timestamp : Text)
    → IsNumbered m
    → IsNumbered (publish_update m domain quality_score timestamp)
unfolding publish_update times
publish_update-IsNumbered m domain quality_score timestamp h = record {
  global = h.global;
  local = h.local;
  unsent = λ c above.
      received-publish_update c m domain quality_score timestamp (omega (arith, h.global))
      ∙ ap₂ (λ r n. r ++ times n (update domain quality_score timestamp)) (h.unsent c above)
          (h.local domain c above);
}

subscribe_domain-IsNumbered :
    (m : WsManager) (domain : Text) → IsNumbered m → IsNumbered (subscribe_domain m domain).1
unfolding subscribe_domain
subscribe_domain-IsNumbered m domain h = record {
  global = omega (arith, h.global);
  local = λ d c above.
      uses-subscribe_domain m domain d c
      ∙ omega (
        arith,
        h.local d c (omega arith),
        uses-other (text_beq domain d) c m.next_channel (omega arith),
      );
  unsent = λ c above. h.unsent c (omega arith);
}

use_all-IsNumbered : (uses : List Use) (m : WsManager) → IsNumbered m → IsNumbered (use_all uses m)
unfolding use_all
use_all-IsNumbered [] m h = h
use_all-IsNumbered (publish domain quality_score timestamp ∷ more) m h =
    use_all-IsNumbered more _ (publish_update-IsNumbered m domain quality_score timestamp h)
use_all-IsNumbered (subscribe_to domain ∷ more) m h =
    use_all-IsNumbered more _ (subscribe_domain-IsNumbered m domain h)

new_manager-IsNumbered : IsNumbered new_manager
unfolding new_manager lookup uses received
new_manager-IsNumbered = record {
  global = omega arith;
  local = λ d c above. refl;
  unsent = λ c above. refl;
}

subscribe_domain-Serves :
    (c : ℕ) (d : Text) (m : WsManager) (domain : Text)
    → Serves c d m
    → Serves c d (subscribe_domain m domain).1
unfolding subscribe_domain
subscribe_domain-Serves c d m domain s = record {
  taken = omega (arith, s.taken);
  local = s.local;
  once = λ other.
      uses-subscribe_domain m domain other c
      ∙ omega (
        arith,
        s.once other,
        uses-other (text_beq domain other) c m.next_channel (omega (arith, s.taken)),
      );
}

publish_update-Serves :
    (c : ℕ) (d : Text) (m : WsManager) (domain : Text) (quality_score : ℕ) (timestamp : Text)
    → Serves c d m
    → Serves c d (publish_update m domain quality_score timestamp)
unfolding publish_update
publish_update-Serves c d m domain quality_score timestamp s = record {
  taken = s.taken;
  local = s.local;
  once = s.once;
}

sent-subscribe_domain :
    (m : WsManager) (domain : Text) (c : ℕ)
    → received c (subscribe_domain m domain).1.sent ≡ received c m.sent
unfolding subscribe_domain
sent-subscribe_domain m domain c = refl

nothing_yet :
    (m : WsManager) (d : Text)
    → IsNumbered m
    → received (subscribe_domain m d).0 (subscribe_domain m d).1.sent ≡ []
unfolding subscribe_domain
nothing_yet m d h = h.unsent m.next_channel (omega arith)

received-use_all :
    (c : ℕ) (d : Text) (later : List Use) (m : WsManager)
    → Serves c d m
    → received c (use_all later m).sent ≡ received c m.sent ++ updates_of d later
unfolding use_all updates_of times
received-use_all c d [] m s = sym (append-nil (received c m.sent))
received-use_all c d (publish domain quality_score timestamp ∷ more) m s =
    let msg = update domain quality_score timestamp in
    received-use_all c d more _ (publish_update-Serves c d m domain quality_score timestamp s)
    ∙ ap (λ r. r ++ updates_of d more)
        (received-publish_update c m domain quality_score timestamp s.local
          ∙ ap (λ n. received c m.sent ++ times n msg) (s.once domain))
    ∙ append_assoc (received c m.sent) _ (updates_of d more)
    ∙ elim (Bool-cases (text_beq d domain)) [ inl same ↦ rw same | inr apart ↦ rw apart ]
received-use_all c d (subscribe_to domain ∷ more) m s =
    received-use_all c d more _ (subscribe_domain-Serves c d m domain s)
    ∙ ap (λ r. r ++ updates_of d more) (sent-subscribe_domain m domain c)

new-Serves :
    (m : WsManager) (d : Text)
    → IsNumbered m
    → Serves (subscribe_domain m d).0 d (subscribe_domain m d).1
unfolding subscribe_domain
new-Serves m d h = record {
  taken = omega arith;
  local = omega (arith, h.global);
  once = λ domain.
      uses-subscribe_domain m d domain m.next_channel
      ∙ omega (
        arith,
        h.local domain m.next_channel (omega arith),
        uses_self (text_beq d domain) m.next_channel,
      );
}

-- Whatever was done with the manager before, a receiver that subscribes to a domain is sent the
-- updates of that domain that are published from then on, all of them, in their order and each once,
-- and nothing else, whoever else subscribes to what.
pub received-subscribe_domain :
    (before later : List Use) (d : Text)
    → received
        (subscribe_domain (use_all before new_manager) d).0
        (use_all later (subscribe_domain (use_all before new_manager) d).1).sent
      ≡ updates_of d later
received-subscribe_domain before later d =
    let m = use_all before new_manager in
    let h = use_all-IsNumbered before new_manager new_manager-IsNumbered in
    received-use_all (subscribe_domain m d).0 d later (subscribe_domain m d).1 (new-Serves m d h)
    ∙ ap (λ r. r ++ updates_of d later) (nothing_yet m d h)
