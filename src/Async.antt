-- ===== src/Async.antt =====
-- attachments/nginx/ngx_module/async: the asynchronous inspection of requests. A context follows one
-- request through its stages; events of NGINX, timers and the verdicts of the service drive it.
pub mod Types
pub mod Table
pub mod Stages
pub mod Body
pub mod Handler
pub mod Verdict
