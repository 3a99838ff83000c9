-- ===== src/Crypto.antt =====
-- crypto.rs: the check of a detached Dilithium signature. The package `pqcrypto_dilithium` is the
-- parameter `Dilithium2`.
use zenth_dht.Prelude.{
  ℕ, ◌≡◌, ◌↔◌, Bool, true, false, not, Option, none, some, Bytes, length, arith, ◌==◌,
  if◌then◌else◌,
}

pub record Dilithium2 : Type 1 where
  pub PublicKey : Type 0
  pub DetachedSignature : Type 0
  pub public_key_bytes : ℕ
  pub signature_bytes : ℕ
  pub public_key_from_bytes : Bytes → Option PublicKey
  pub signature_from_bytes : Bytes → Option DetachedSignature
  pub verify_detached_signature : DetachedSignature → Bytes → PublicKey → Bool

module _ (d : Dilithium2) where
  open d use {
    public_key_bytes, signature_bytes, public_key_from_bytes, signature_from_bytes,
    verify_detached_signature,
  }

  unfoldable pub verify_dilithium_signature : Bytes → Bytes → Bytes → Bool
  verify_dilithium_signature public_key_raw message signature_raw =
      if not (length public_key_raw == public_key_bytes)
      then false
      else if not (length signature_raw == signature_bytes)
      then false
      else elim (public_key_from_bytes public_key_raw) [
        | none ↦ false
        | some public_key ↦ elim (signature_from_bytes signature_raw) [
          | none ↦ false
          | some signature ↦ verify_detached_signature signature message public_key
        ]
      ]

  -- What the scheme itself says of a key, a message and a signature as bytes.
  pub data Verifies (key message signature : Bytes) : Type 0 where
    verifies :
        (pk : d.PublicKey) (sig : d.DetachedSignature)
        → length key ≡ public_key_bytes
        → length signature ≡ signature_bytes
        → public_key_from_bytes key ≡ some pk
        → signature_from_bytes signature ≡ some sig
        → verify_detached_signature sig message pk ≡ true
        → Verifies key message signature

  Verifies-accepted :
      (key message signature : Bytes)
      → Verifies key message signature
      → verify_dilithium_signature key message signature ≡ true
  unfolding verify_dilithium_signature
  Verifies-accepted key message signature (verifies pk sig lk ls pk_read sig_read good) =
      ground arith

  accepted_parts :
      (key message signature : Bytes)
      → verify_dilithium_signature key message signature ≡ true
      → (length key ≡ public_key_bytes)
        × (length signature ≡ signature_bytes)
        × ((pk : d.PublicKey) × (sig : d.DetachedSignature) × (public_key_from_bytes key ≡ some pk)
            × (signature_from_bytes signature ≡ some sig)
            × (verify_detached_signature sig message pk ≡ true))
  unfolding verify_dilithium_signature
  accepted_parts key message signature h = ground arith

  -- A signature is accepted exactly when key and signature have the scheme's sizes, both are read,
  -- and the scheme verifies the signature on the message with the key.
  pub verify_dilithium_signature_iff :
      (key message signature : Bytes)
      → (verify_dilithium_signature key message signature ≡ true) ↔ Verifies key message signature
  verify_dilithium_signature_iff key message signature = (
    λ h.
        let (lk, ls, rest) = accepted_parts key message signature h in
        verifies rest.0 rest.1 lk ls rest.2 rest.3 rest.4,
    Verifies-accepted key message signature,
  )
