-- ===== src/Releases/Publishing.antt =====
-- The handlers of api/main.go that publish, activate and sign a release.
use device_pulse.Prelude.{
  ℕ, Text, codes, Bool, not, ◌&&◌, ◌||◌, List, [], ◌++◌, Option, ◌==◌, text_eq, if◌then◌else◌,
  length,
}
use device_pulse.Go.Strings.{trim_space, to_lower}
use device_pulse.Db.{Driver, Inserted, inserted, duplicate_key, insert_failed}
use device_pulse.Http.{Checked, ok, refuse, ◌>>=◌, ◌>>◌, require, or_refuse, outcome}
use device_pulse.Access.{logged}
use device_pulse.Releases.{AgentRelease, Shelf, Target, activate, is_known, of_target, trimmed}

-- `base64.StdEncoding.DecodeString` and `ed25519.Verify`.
pub record Ed25519 : Type 0 where
  pub decode : Text → Option Text
  pub verify : Text → Text → Text → Bool

abbrev pub release_signing_message : AgentRelease → Text
release_signing_message r =
    codes "devicepulse-release-v1\n"
    ++ r.version
    ++ codes "\n"
    ++ r.os
    ++ codes "/"
    ++ r.arch
    ++ codes "\n"
    ++ to_lower r.checksum

unfoldable pub verify_with : Ed25519 → Text → AgentRelease → Text → Checked (Unit {0})
verify_with crypto public_key r s = do
  p ← or_refuse (crypto.decode public_key) 400 "UPDATE_PUBLIC_KEY is misconfigured on the server"
  require (length p == 32) 400 "UPDATE_PUBLIC_KEY is misconfigured on the server"
  require (crypto.verify p (release_signing_message r) s) 400
      "signature does not verify against the configured public key"
  ok tt

-- `public_key` is the trimmed `UPDATE_PUBLIC_KEY`.
unfoldable pub verify_release_signature : Ed25519 → Text → AgentRelease → Text → Checked (Unit {0})
unfolding trim_space verify_with
verify_release_signature crypto public_key r sig = do
  s ←
      or_refuse (crypto.decode (trim_space sig)) 400
        "signature must be a base64-encoded 64-byte Ed25519 signature"
  require (length s == 64) 400 "signature must be a base64-encoded 64-byte Ed25519 signature"
  if text_eq.beq public_key [] then ok tt else verify_with crypto public_key r s

abbrev pub sign : Text → AgentRelease → AgentRelease
sign sig r = record r { signature = sig }

abbrev pub inserted_or_refuse {ℓ} : {D : Type ℓ} → Inserted D → Checked (List D)
inserted_or_refuse (inserted ds) = ok ds
inserted_or_refuse duplicate_key = refuse 500 "Database error"
inserted_or_refuse insert_failed = refuse 500 "Database error"

module _ (releases : Driver AgentRelease (λ r. r.id)) where
  -- `gated` is `releasesRequireActivation()`, `id` the new `_id`, `actor` the signed-in user's
  -- address.
  unfoldable pub release_publish_handler :
      Bool → Text → Text → ℕ → Option AgentRelease → ℕ → Shelf → Checked AgentRelease × Shelf
  release_publish_handler gated method actor id body now s = outcome s do
    require (text_eq.beq method (codes "POST")) 405 "Method not allowed"
    b ← or_refuse body 400 "Bad JSON"
    require
        (not (
          text_eq.beq b.version []
          || text_eq.beq b.os []
          || text_eq.beq b.arch []
          || text_eq.beq b.download_url []
          || text_eq.beq b.checksum []))
        400 "version, os, arch, download_url and checksum_sha256 are required"
    let rel : AgentRelease = record b { id = id; published_at = now; pending_activation = gated }
    rs ← inserted_or_refuse (releases.insert_one rel s.releases)
    ok (
      rel,
      record {
        releases = rs;
        audit =
            logged actor (codes "release.published") (rel.os ++ codes "/" ++ rel.arch) rel.version
              now s.audit;
      },
    )

  -- `UpdateMany`, and the insertion of the release where nothing matched any more.
  unfoldable pub republish :
      Target → ℕ → AgentRelease → List AgentRelease → Checked (List AgentRelease)
  republish t now rel rs = do
    (matched, es) ←
        or_refuse (releases.update_many (of_target t) (activate now) rs) 500 "Database error"
    if matched == 0 then inserted_or_refuse (releases.insert_one (activate now rel) es) else ok es

  unfoldable pub release_activate_handler :
      Text → Text → Option Target → ℕ → Shelf → Checked AgentRelease × Shelf
  unfolding republish trim_space
  release_activate_handler method actor body now s = outcome s do
    require (text_eq.beq method (codes "POST")) 405 "Method not allowed"
    b ← or_refuse body 400 "Bad JSON"
    let t = trimmed b
    require (is_known t) 400 "os, arch and version are required"
    rel ←
        or_refuse (releases.find_latest (of_target t) (λ r. r.published_at) s.releases) 404
          "Release not found"
    rs ← republish t now rel s.releases
    ok (
      activate now rel,
      record {
        releases = rs;
        audit =
            logged actor (codes "release.activated") (t.os ++ codes "/" ++ t.arch) t.version now
              s.audit;
      },
    )

  unfoldable pub release_signature_handler :
      Ed25519
      → Text
      → Text
      → Text
      → Option (Target × Text)
      → ℕ
      → Shelf
      → Checked AgentRelease × Shelf
  unfolding trim_space verify_release_signature
  release_signature_handler crypto public_key method actor body now s = outcome s do
    require (text_eq.beq method (codes "POST")) 405 "Method not allowed"
    (b, signature) ← or_refuse body 400 "Bad JSON"
    let t = trimmed b
    let sig = trim_space signature
    require (is_known t && not (text_eq.beq sig [])) 400
        "os, arch, version and signature are required"
    rel ← or_refuse (releases.find_one (of_target t) s.releases) 404 "Release not found"
    verify_release_signature crypto public_key rel sig
    (matched, rs) ←
        or_refuse (releases.update_many (of_target t) (sign sig) s.releases) 500 "Database error"
    ok (
      sign sig rel,
      record {
        releases = rs;
        audit =
            logged actor (codes "release.signed") (t.os ++ codes "/" ++ t.arch) t.version now
              s.audit;
      },
    )
