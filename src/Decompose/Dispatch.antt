-- ===== src/Decompose/Dispatch.antt =====
-- handlers/decompose.rs: rules of proof for the dispatch and for what the handlers share.
use mathlib.Core.Path.{subst}
use zenth_dht.Prelude.{
  ◌≡◌, refl, sym, true, List, [], ◌∷◌, String, Bytes, ℤ, pos, negsuc, All, Bool-cases, inl, inr,
  arith,
}
use zenth_dht.Models.{Db}
use zenth_dht.Server.{Message, text, Result, done, failed, Exit, returned, panicked, World}
use zenth_dht.Server.Keeps.{Keeps}
use zenth_dht.Method.Contact.{Answer}
use zenth_dht.Decompose.{Arm, same_method, match_arm}
use zenth_dht.Decompose.Codecs.{Handled, Decoded, parsed, malformed, Codec}
use zenth_dht.Decompose.Serve.{
  refused, answered, answered_exit, decoded, decoded_exit, serve, serve_exit, triple, acknowledged,
}

-- The proofs for the arms of a table, one after the other.
infixr 5 ◌also◌
abbrev pub ◌also◌ : {A B : Type 0} → A → B → A × B
a also b = (a, b)

eq_of_same_method : (a b : ℤ) → same_method a b ≡ true → a ≡ b
eq_of_same_method (pos a) (pos b) h = ground arith
eq_of_same_method (pos a) (negsuc b) h = cc
eq_of_same_method (negsuc a) (pos b) h = cc
eq_of_same_method (negsuc a) (negsuc b) h = ground arith

-- What holds of every arm, where the method is the arm's, and of an unknown method holds of the
-- dispatch.
pub on_match :
    (P : Exit Handled × World → Type 0) (method : ℤ) (payload : Bytes) (w : World) (arms : List Arm)
    → P (returned (refused (text "Unknown method")), w)
    → All (λ (arm : Arm). method ≡ arm.0 → P (arm.1 payload w)) arms
    → P (match_arm method arms payload w)
unfolding match_arm
on_match P method payload w [] unknown h = unknown
on_match P method payload w ((number, handle) ∷ arms) unknown h =
    elim (Bool-cases (same_method method number)) [
      | inl same ↦ rw same (h.0 (eq_of_same_method method number same))
      | inr other ↦ rw other (on_match P method payload w arms unknown h.1)
    ]

kept_by_answer :
    {B : Type 0} (encode : B → Bytes) (reply : B → Bytes → Handled) (shown : Message → Message)
    (r : Result B × World)
    → (answered encode reply shown r).1 ≡ r.1
unfolding answered
kept_by_answer encode reply shown (done r, w) = refl
kept_by_answer encode reply shown (failed e, w) = refl

kept_by_exit :
    {B : Type 0} (encode : B → Bytes) (reply : B → Bytes → Handled) (shown : Message → Message)
    (r : Exit (Result B) × World)
    → (answered_exit encode reply shown r).1 ≡ r.1
unfolding answered_exit
kept_by_exit encode reply shown (returned r, w) = kept_by_answer encode reply shown (r, w)
kept_by_exit encode reply shown (panicked, w) = refl

kept_by_acknowledgement : (r : Result (Unit {0}) × World) → (acknowledged r).1 ≡ r.1
kept_by_acknowledgement (done n, w) = refl
kept_by_acknowledgement (failed e, w) = refl

module _ {I : Db → Type 0} where
  pub decoded-Keeps :
      {A : Type 0} (m : String → Message) (d : Decoded A) (run : A → World → Handled × World)
      → ((req : A) → Keeps I (run req))
      → Keeps I (decoded m d run)
  unfolding decoded
  decoded-Keeps m (parsed req) run k = record { at = (k req).at }
  decoded-Keeps m (malformed e) run k = record { at = λ w h. h }

  pub serve-Keeps :
      {A B : Type 0} (m : String → Message) (codec : Codec A B) (run : A → World → Result B × World)
      (reply : B → Bytes → Handled) (shown : Message → Message) (payload : Bytes)
      → ((req : A) → Keeps I (run req))
      → Keeps I (serve m codec run reply shown payload)
  unfolding serve
  serve-Keeps m codec run reply shown payload k =
      decoded-Keeps m (codec.decode payload)
        (λ req w. answered codec.encode reply shown (run req w))
        λ req. record {
          at = λ w h.
              subst (λ (x : World). I x.db)
                (sym (kept_by_answer codec.encode reply shown (run req w))) ((k req).at w h);
        }

  pub triple-Keeps : (run : World → Answer × World) → Keeps I run → Keeps I (λ w. triple (run w))
  triple-Keeps run k = record { at = λ w h. k.at w h }

  pub acknowledged-Keeps :
      (run : World → Result (Unit {0}) × World) → Keeps I run → Keeps I (λ w. acknowledged (run w))
  acknowledged-Keeps run k = record {
    at = λ w h. subst (λ (x : World). I x.db) (sym (kept_by_acknowledgement (run w))) (k.at w h);
  }

module _ (I : Db → Type 0) where
  pub on_serve :
      {A B : Type 0} (m : String → Message) (codec : Codec A B) (run : A → World → Result B × World)
      (reply : B → Bytes → Handled) (shown : Message → Message) (payload : Bytes) (w : World)
      → ((req : A) → Keeps I (run req))
      → I w.db
      → I (serve m codec run reply shown payload w).1.db
  on_serve m codec run reply shown payload w k h =
      (serve-Keeps m codec run reply shown payload k).at w h

  pub on_serve_exit :
      {A B : Type 0} (m : String → Message) (codec : Codec A B)
      (run : A → World → Exit (Result B) × World) (reply : B → Bytes → Handled)
      (shown : Message → Message) (payload : Bytes) (w : World)
      → ((req : A) → Keeps I (run req))
      → I w.db
      → I (serve_exit m codec run reply shown payload w).1.db
  unfolding serve_exit decoded_exit
  on_serve_exit m codec run reply shown payload w k h = by_payload (codec.decode payload)
    where
      by_payload :
          (d : Decoded _)
          → I
              (decoded_exit m d
                (λ req w'. answered_exit codec.encode reply shown (run req w'))
                w).1.db
      by_payload (malformed e) = h
      by_payload (parsed req) =
          subst (λ (x : World). I x.db) (sym (kept_by_exit codec.encode reply shown (run req w)))
            ((k req).at w h)

  pub on_triple :
      {A : Type 0} (m : String → Message) (d : Decoded A) (run : A → World → Answer × World)
      (w : World)
      → ((req : A) → Keeps I (run req))
      → I w.db
      → I (decoded m d (λ req w'. triple (run req w')) w).1.db
  on_triple m d run w k h = (decoded-Keeps m d _ λ req. triple-Keeps (run req) (k req)).at w h

  pub on_acknowledged :
      {A : Type 0} (m : String → Message) (d : Decoded A)
      (run : A → World → Result (Unit {0}) × World) (w : World)
      → ((req : A) → Keeps I (run req))
      → I w.db
      → I (decoded m d (λ req w'. acknowledged (run req w')) w).1.db
  on_acknowledged m d run w k h =
      (decoded-Keeps m d _ λ req. acknowledged-Keeps (run req) (k req)).at w h
