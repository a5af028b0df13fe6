-- ===== src/Bucket/Laws.antt =====
-- attachments/nano_attachment/nano_attachment_bucket.c: which sessions share a bucket, and what the
-- table answers.
use openappsec_attachment.Common.{ℕ, ◌%◌, ◌<◌, ◌≡◌, refl, ◌↔◌, some, arith, ◌==◌, if◌then◌else◌}
use openappsec_attachment.Bucket.{
  Buckets, AttachmentVerdictResponse, nano_ok, async_ctx_hash, async_ctx_buckets, find_response,
  add_response,
}

pub hash-lt : (s : ℕ) → async_ctx_hash s < async_ctx_buckets
unfolding async_ctx_hash
hash-lt s = omega arith

-- Two sessions have the same hash exactly when they agree modulo 2048.
pub hash_iff : (s t : ℕ) → (async_ctx_hash s ≡ async_ctx_hash t) ↔ (s % 2048 ≡ t % 2048)
unfolding async_ctx_hash
hash_iff s t = (λ h. omega arith, λ h. omega arith)

-- Adding a response for a session succeeds; then every session that agrees with it modulo 2048 finds
-- that response, and every other what it found before.
pub find-add :
    (b : Buckets) (s t : ℕ) (r : AttachmentVerdictResponse)
    → let (result, b') = add_response b s (some r) in
      (result ≡ nano_ok)
      × (find_response b' t ≡ (if t % 2048 == s % 2048 then r else find_response b t))
unfolding add_response find_response
find-add b s t r = (refl, ground (arith, hash_iff t s))
