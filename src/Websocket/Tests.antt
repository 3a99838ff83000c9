-- ===== src/Websocket/Tests.antt =====
-- websocket/connection_manager.rs and file_relay.rs on small inputs.
use zenth_dht.Prelude.{ℕ, ◌≡◌, Bool, true, false, List, [], ◌∷◌, Bytes, All, arith}
use zenth_dht.Websocket.ConnectionManager.{new, register, unregister, is_connected}
use zenth_dht.Websocket.ConnectionManager.Routing.{Op, registers, sends, run, register_private}
use zenth_dht.Websocket.ConnectionManager.Closing.{on_channel, unregister_ends_both}
use zenth_dht.Websocket.FileRelay.{get_sender}
use zenth_dht.Websocket.FileRelay.History.{
  Event, announced, departed, swept, after, recall, get_sender-after,
}

abbrev ann : Bytes
ann = 1 ∷ []

abbrev ben : Bytes
ben = 2 ∷ []

abbrev everyone : ℕ → Bool
everyone c = true

abbrev traffic : List Op
traffic = registers ben ∷ sends everyone ben (5 ∷ []) ∷ sends everyone ann (6 ∷ []) ∷ []

register_private_example :
    let (c, m) = register ann (run new (registers ben ∷ [])) in
    All (λ s. s.channel ≡ c → s.message.recipient_hash ≡ ann) (run m traffic).log
register_private_example = register_private ann (registers ben ∷ []) traffic

unregister_ends_both_example :
    let (c, m) = register ann (run new traffic) in
    ((register ann m).0 ≡ c)
    × (is_connected ann (unregister ann (register ann m).1) ≡ false)
    × (on_channel c (run (unregister ann (register ann m).1) (registers ann ∷ traffic)).log
        ≡ on_channel c m.log)
unregister_ends_both_example = unregister_ends_both ann traffic (registers ann ∷ traffic)

-- Ann announces a transfer and Ben another one; Ben leaves, and the registry is swept.
abbrev history : List Event
history = swept 350 ∷ departed ben ∷ announced (2 ∷ []) ben 320 ∷ announced (1 ∷ []) ann 300 ∷ []

get_sender-after_example : get_sender (1 ∷ []) 400 (after history) ≡ recall (1 ∷ []) 400 history
get_sender-after_example = get_sender-after (1 ∷ []) 400 history (omega arith, (tt, (tt, (tt, tt))))
