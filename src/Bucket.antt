-- ===== src/Bucket.antt =====
-- attachments/nano_attachment/nano_attachment_bucket.c: the verdicts that wait for their sessions, in a
-- table by a hash of the session, and the queue of the sessions that failed. The structures are in
-- attachments/nano_attachment/nano_initializer.h and core/include/attachments/nano_attachment_common.h.
pub mod Laws
pub mod Queue
use openappsec_attachment.Common.{
  ℕ, ◌+◌, ◌-◌, ◌*◌, ◌%◌, Bool, true, false, Option, none, some, Memory, store, leb, ◌==◌, u32,
  if◌then◌else◌,
}

pub data AttachmentVerdict : Type 0 where
  inspect accept drop inject delayed : AttachmentVerdict

-- The two pointers are addresses, 0 for NULL: the code only moves them.
pub record AttachmentVerdictResponse : Type 0 where
  pub verdict : AttachmentVerdict
  pub session_id : ℕ
  pub web_response_data : ℕ
  pub modifications : ℕ

pub data NanoCommunicationResult : Type 0 where
  nano_ok nano_error nano_abort nano_again nano_http_forbidden : NanoCommunicationResult
  nano_declined nano_timeout : NanoCommunicationResult

abbrev pub async_ctx_buckets : ℕ
async_ctx_buckets = 2048

-- `attachment->async_buckets`, by index.
abbrev pub Buckets : Type 0
Buckets = ℕ → AttachmentVerdictResponse

abbrev pub set_bucket : Buckets → ℕ → AttachmentVerdictResponse → Buckets
set_bucket b i r j = if j == i then r else b j

-- Knuth's multiplicative hash; the product wraps as a `uint32_t`.
unfoldable pub async_ctx_hash : ℕ → ℕ
async_ctx_hash session_id = u32 (session_id * 2654435761) % async_ctx_buckets

unfoldable pub find_response : Buckets → ℕ → AttachmentVerdictResponse
find_response b session_id = b (async_ctx_hash session_id)

-- `is_open` is `fail_mode_verdict == NANO_OK`.
unfoldable pub generate_failed_verdict : Bool → ℕ → AttachmentVerdictResponse
generate_failed_verdict is_open session_id = record {
  verdict = if is_open then accept else drop;
  session_id = session_id;
  web_response_data = 0;
  modifications = 0;
}

unfoldable pub add_response :
    Buckets → ℕ → Option AttachmentVerdictResponse → NanoCommunicationResult × Buckets
add_response b session_id none = (nano_error, b)
add_response b session_id (some r) = (nano_ok, set_bucket b (async_ctx_hash session_id) r)

-- `memset` to 0, and the verdict, whose number is 0 too.
unfoldable pub remove_response : Buckets → ℕ → Buckets
remove_response b session_id =
    set_bucket b (async_ctx_hash session_id)
      (record { verdict = inspect; session_id = 0; web_response_data = 0; modifications = 0 })

abbrev pub session_id_queue_size : ℕ
session_id_queue_size = 1024

pub record SessionIdQueue : Type 0 where
  pub queue : Memory
  pub head : ℕ
  pub tail : ℕ
  pub count : ℕ

-- The pointer to the attachment is never NULL here; the calls with NULL answer `true`, an error and 0.
unfoldable pub failed_is_empty : SessionIdQueue → Bool
failed_is_empty q = q.count == 0

unfoldable pub failed_add : SessionIdQueue → ℕ → NanoCommunicationResult × SessionIdQueue
failed_add q session_id = if leb session_id_queue_size q.count then (nano_error, q) else (
  nano_ok,
  record {
    queue = store q.queue q.tail session_id;
    head = q.head;
    tail = u32 (q.tail + 1) % session_id_queue_size;
    count = u32 (q.count + 1);
  },
)

unfoldable pub failed_pop : SessionIdQueue → ℕ × SessionIdQueue
failed_pop q = if q.count == 0 then (0, q) else (
  q.queue q.head,
  record q { head = u32 (q.head + 1) % session_id_queue_size; count = q.count - 1 },
)
