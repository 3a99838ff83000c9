-- ===== src/Method/Updates.antt =====
-- handlers/method/update_manifest.rs and update_chunk.rs: the manifest of the released versions, and a
-- file of a release in chunks, both from a storage behind HTTP.
-- The storage's answers, the JSON reader and the base64 reader are parameters.
pub mod Ranges
mod Tests
use Prim.Native.Nat.{min}
use zenth_dht.Prelude.{
  ℕ, ◌+◌, ◌-◌, ◌*◌, ◌%◌, ◌^◌, Bool, true, false, not, ◌&&◌, Option, none, some, String, str_eq,
  Bytes, length, ltb, leb, if◌then◌else◌,
}
use zenth_dht.Server.{Message, text, with_number, Result, done, failed}

-- 512 KiB
abbrev pub max_chunk_size : ℕ
max_chunk_size = 512 * 1024

pub record PlatformEntry : Type 0 where
  pub file : String
  pub sha256 : String
  pub size : ℕ
  pub signature : String

pub record Manifest : Type 0 where
  pub version : String
  pub notes : String
  pub platforms : String → Option PlatformEntry

-- What comes of a request: no answer, or a status with a body that may not be read.
pub data Http : Type 0 where
  unreachable : Http
  responded : ℕ → Option Bytes → Http

pub record Storage : Type 0 where
  pub get_manifest : Http
  pub get_range : String → ℕ → ℕ → Http
  pub parse_manifest : Bytes → Option Manifest
  pub decode_base64 : String → Option Bytes

pub record UpdateManifestRequest : Type 0 where
  pub platform : String
  pub current_version : String

pub record UpdateManifestResponse : Type 0 where
  pub latest_version : String
  pub sha256 : String
  pub size : ℕ
  pub signature : Bytes
  pub notes : String
  pub platform : String

pub record UpdateChunkRequest : Type 0 where
  pub current_version : String
  pub offset : ℕ
  pub chunk_size : ℕ

pub record UpdateChunkResponse : Type 0 where
  pub offset : ℕ
  pub data_bytes : Bytes
  pub is_last : Bool
  pub total : ℕ

abbrev pub default_platform : String
default_platform = "linux-x86_64-deb"

-- `if !s.is_empty() { s } else { other }`
abbrev pub or_else : String → String → String
or_else s other = if str_eq s "" then other else s

-- `r?`, for the results below
abbrev pub and_then : {A B : Type 0} → Result A → (A → Result B) → Result B
and_then (done a) f = f a
and_then (failed m) f = failed m

-- `o.ok_or(m)`
abbrev pub ok_or : {A : Type 0} → Option A → Message → Result A
ok_or none m = failed m
ok_or (some a) m = done a

abbrev pub body_of : Http → Message → Message → Result Bytes
body_of unreachable lost unread = failed lost
body_of (responded status bytes) lost unread = ok_or bytes unread

-- `resp.status().is_success()`
abbrev pub is_success : ℕ → Bool
is_success status = leb 200 status && ltb status 300

abbrev pub checked : Http → Result Http
checked unreachable = done unreachable
checked (responded status bytes) =
    if is_success status
    then done (responded status bytes)
    else failed (with_number "RustFS a retourné HTTP {} pour manifest.json" status)

-- `a - 1` of type u64, which wraps around in a release build
abbrev pub pred_u64 : ℕ → ℕ
pred_u64 a = (a + (2 ^ 64 - 1)) % 2 ^ 64

-- `(req.offset + chunk_size - 1).min(total - 1)`
unfoldable pub range_end : ℕ → ℕ → ℕ → ℕ
range_end offset chunk_size total =
    min (pred_u64 ((offset + min chunk_size max_chunk_size) % 2 ^ 64)) (pred_u64 total)

module _ (storage : Storage) where
  unfoldable pub load_manifest : Http → Result Manifest
  load_manifest answer =
      and_then (body_of answer (text "Manifest inaccessible") (text "Manifest JSON invalide"))
        (λ bytes. ok_or (storage.parse_manifest bytes) (text "Manifest JSON invalide"))

  unfoldable pub get_update_manifest : UpdateManifestRequest → Result UpdateManifestResponse
  get_update_manifest req =
      let platform = or_else req.platform (or_else req.current_version default_platform) in
      and_then (checked storage.get_manifest) λ answer. and_then (load_manifest answer) λ manifest.
        and_then (ok_or (manifest.platforms platform) (text "Plateforme absente du manifest"))
          λ entry.
            and_then
              (ok_or (storage.decode_base64 entry.signature) (text "Signature base64 invalide"))
              λ signature. done (record {
                latest_version = manifest.version;
                sha256 = entry.sha256;
                size = entry.size;
                signature = signature;
                notes = manifest.notes;
                platform = platform;
              })

  -- The download of one range, and the response.
  unfoldable pub download : UpdateChunkRequest → PlatformEntry → Result UpdateChunkResponse
  download req entry =
      and_then
        (body_of
          (storage.get_range entry.file req.offset (range_end req.offset req.chunk_size entry.size))
          (text "Téléchargement chunk échoué") (text "Lecture bytes échouée"))
        λ bytes. done (record {
          offset = req.offset;
          data_bytes = bytes;
          is_last = leb entry.size ((req.offset + length bytes) % 2 ^ 64);
          total = entry.size;
        })

  unfoldable pub get_update_chunk : UpdateChunkRequest → Result UpdateChunkResponse
  get_update_chunk req =
      let platform = or_else req.current_version default_platform in
      and_then (load_manifest storage.get_manifest) λ manifest.
        and_then (ok_or (manifest.platforms platform) (text "Plateforme absente du manifest"))
          (download req)
