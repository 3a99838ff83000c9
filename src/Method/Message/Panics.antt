-- ===== src/Method/Message/Panics.antt =====
-- handlers/method/send_message.rs: when the handler panics.
use zenth_dht.Prelude.{◌≡◌, refl, Option, none, some}
use zenth_dht.Models.{NaiveDateTime}
use zenth_dht.Server.{Result, Exit, returned, panicked, Env, Readings, World, body}
use zenth_dht.Server.Rules.{on_sql, on_row, on_reject, on_act, on_give}
use zenth_dht.Method.Message.{
  ZenthSignalEnvelope, SendMessageResponse, Formats, expires_at, store_message, send_message,
}

-- A panic says `Q`.
record PanicSays (Q : Type 0) (r : Exit (Result SendMessageResponse)) : Type 0 where
  says : r ≡ panicked → Q

module _ (env : Env) (at : Readings) (formats : Formats) (e : ZenthSignalEnvelope) where
  abbrev Says : Exit (Result SendMessageResponse) × World → Type 0
  Says r = PanicSays (expires_at formats at.utc e.sequence_number ≡ none) r.0

  fine :
      (r : Result SendMessageResponse)
      → PanicSays (expires_at formats at.utc e.sequence_number ≡ none) (returned r)
  fine r = record { says = λ h. cc }

  store_message-Says :
      (o : Option NaiveDateTime) (w : World)
      → expires_at formats at.utc e.sequence_number ≡ o
      → Says (body (store_message env at formats e o) w)
  unfolding store_message
  store_message-Says none w unset = on_give Says _ _ (record { says = λ h. unset })
  store_message-Says (some expiry) w set =
      on_sql Says env _ _ w
        (λ x broken. on_row Says _ _ _ _ _ (λ q. fine _) (λ y q. fine _) λ a q. cc)
        λ sound.
          on_row Says _ _ _ _ _ (λ q. fine _) (λ y q. fine _)
            λ a q. on_act Says _ _ _ (on_give Says _ _ (fine _))

  send_message-Says : (w : World) → Says (send_message env at formats e w)
  unfolding send_message
  send_message-Says w =
      on_sql Says env _ _ w
        (λ x broken. on_row Says _ _ _ _ _ (λ q. fine _) (λ y q. fine _) λ a q. cc)
        λ sound.
          on_row Says _ _ _ _ _ (λ q. fine _) (λ y q. fine _)
            λ sender q.
              on_reject Says _ _ _ _ (λ bad. fine _)
                λ signed.
                  on_sql Says env _ _ _
                    (λ x broken. on_row Says _ _ _ _ _ (λ q. fine _) (λ y q. fine _) λ a q. cc)
                    λ sound'.
                      on_row Says _ _ _ _ _ (λ q. fine _) (λ y q. fine _)
                        λ recipient q'.
                          on_reject Says _ _ _ _ (λ bad. fine _)
                            λ small. on_act Says _ _ _ (
                              on_reject Says _ _ _ _ (λ bad. fine _)
                                λ large. on_act Says _ _ _ (
                                  on_reject Says _ _ _ _ (λ bad. fine _)
                                    λ mid. store_message-Says _ _ refl))

  pub send_message_panics :
      (w : World)
      → (send_message env at formats e w).0 ≡ panicked
      → expires_at formats at.utc e.sequence_number ≡ none
  send_message_panics w h = (send_message-Says w).says h
