-- ===== src/Async/Body/Laws.antt =====
-- attachments/nginx/ngx_module/async/ngx_cp_async_body.c: the buffers of a body are handed on once, in
-- their order.
use openappsec_attachment.Common.{ℕ, ◌≡◌, List, ◌++◌}
use openappsec_attachment.Async.Types.{Rc}
use openappsec_attachment.Async.Body.{Body, Sent, sent, refused_chunk, refused_end}

-- The buffers that were handed on, and then those that are saved.
abbrev pub buffers : Body → List ℕ
buffers b = b.forwarded ++ b.state.ctx.queue

-- What was sent has a context whose queue is that of the one before.
abbrev HasQueue : List ℕ → Sent → Type 0
HasQueue q (sent c) = c.queue ≡ q
HasQueue q (refused_chunk c) = c.queue ≡ q
HasQueue q (refused_end c) = c.queue ≡ q

-- The buffers of `b` are all there.
abbrev pub Keeps : List ℕ → Rc × Body → Type 0
Keeps bufs (rc, b) = buffers b ≡ bufs
