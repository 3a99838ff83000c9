-- ===== src/Websocket/FileRelay/History.antt =====
-- websocket/file_relay.rs: the registry as what a reader of the whole history would say.
use zenth_dht.Prelude.{
  ℕ, ◌-◌, ◌≤◌, ◌≡◌, ◌∙◌, refl, ap, Option, none, some, List, [], ◌∷◌, Bytes, All, bytes_eq, ltb,
  if◌then◌else◌,
}
use zenth_dht.Websocket.FileRelay.{
  Registry, transfer_ttl, init, register, unregister, unregister_by_sender, cleanup_expired,
  get_sender,
}
use zenth_dht.Websocket.FileRelay.Views.{
  without_sender, get_sender-register, get_sender-unregister, get_sender-unregister_by_sender,
  get_sender-cleanup_expired,
}

-- What happens to the registry, with the readings of the clock.
pub data Event : Type 0 where
  announced : Bytes → Bytes → ℕ → Event
  finished : Bytes → Event
  departed : Bytes → Event
  swept : ℕ → Event

abbrev pub happen : Event → Registry → Registry
happen (announced tid sender now) m = register tid sender now m
happen (finished tid) m = unregister tid m
happen (departed sender) m = unregister_by_sender sender m
happen (swept read) m = cleanup_expired read m

-- The registry after a history, the last event first.
abbrev pub after : List Event → Registry
after [] = init
after (e ∷ past) = happen e (after past)

-- Who is to be asked for transfer `tid` at time `read`: who announced it last, if that is less than ten
-- minutes ago, and if the transfer has not been finished and the sender has not departed since.
-- Nothing here is ever swept.
abbrev pub recall : Bytes → ℕ → List Event → Option Bytes
recall tid read [] = none
recall tid read (announced tid' sender now ∷ past) =
    if bytes_eq tid' tid
    then (if ltb (read - now) transfer_ttl then some sender else none)
    else recall tid read past
recall tid read (finished tid' ∷ past) = if bytes_eq tid' tid then none else recall tid read past
recall tid read (departed sender ∷ past) = without_sender sender (recall tid read past)
recall tid read (swept r ∷ past) = recall tid read past

abbrev pub IsBefore : ℕ → Event → Type 0
IsBefore read (swept r) = r ≤ read
IsBefore read e = Unit

-- The registry implements the history: after any announcements, ends, departures and sweeps, none of
-- the sweeps later than `read`, it names for a transfer whom the history names.
pub get_sender-after :
    (tid : Bytes) (read : ℕ) (past : List Event)
    → All (IsBefore read) past
    → get_sender tid read (after past) ≡ recall tid read past
unfolding get_sender
get_sender-after tid read [] h = refl
get_sender-after tid read (announced tid' sender now ∷ past) h =
    get_sender-register tid' tid sender now read (after past)
    ∙ ap
        (λ (o : Option Bytes).
          if bytes_eq tid' tid
          then (if ltb (read - now) transfer_ttl then some sender else none)
          else o)
        (get_sender-after tid read past h.1)
get_sender-after tid read (finished tid' ∷ past) h =
    get_sender-unregister tid' tid read (after past)
    ∙ ap (λ (o : Option Bytes). if bytes_eq tid' tid then none else o)
        (get_sender-after tid read past h.1)
get_sender-after tid read (departed sender ∷ past) h =
    get_sender-unregister_by_sender sender tid read (after past)
    ∙ ap (without_sender sender) (get_sender-after tid read past h.1)
get_sender-after tid read (swept r ∷ past) h =
    get_sender-cleanup_expired tid r read (after past) h.0 ∙ get_sender-after tid read past h.1
