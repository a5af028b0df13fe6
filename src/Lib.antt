-- ===== src/Lib.antt =====
-- The attachment of open-appsec: a web server's module hands its traffic to an inspection service over
-- queues in shared memory, and asks it for a verdict.
--
-- The parts and how they interact:
-- - core/shmem_ipc/shared_ring_queue.c is a ring of segments in shared memory, with one writer and one
--   reader. A process finds a queue's parameters by its name, in a table of four entries, and settles
--   once how large the segments are.
-- - core/shmem_ipc/shmem_ipc.c puts two rings together to a channel, one for each direction.
-- - core/shmem_ipc_2 has another version of both, for the nano attachment: the parameters of a channel's
--   two queues stand in one structure, and there is no table.
-- - attachments/nano_attachment/nano_attachment_bucket.c keeps the verdicts that arrive before their
--   session asks, and the sessions that failed; nano_attachment_metric.c beside it keeps the metrics.
-- - attachments/nano_attachment/nano_attachment_sender.c sends the chunks of a request and a response, each in
--   a thread of nano_attachment_thread.c, and answers with a verdict, that of the service or of the fail
--   mode.
-- - attachments/nano_attachment/nano_attachment_io.c puts the parts of a transaction into the ring as chunks
--   of fragments, signals over a socket that they are there, and reads the service's replies.
-- - attachments/nginx/ngx_module/ngx_cp_custom_response.c writes into the body what the service injects.
-- - attachments/nginx/ngx_module/ngx_cp_failing_state.c counts failures of the inspection, reports its
--   times to the metrics, and lets traffic pass uninspected for growing periods.
-- - attachments/nginx/ngx_module/async/ngx_cp_async_core.c drives the requests that are inspected without a
--   thread: a context for each, found by its session, goes from stage to stage as its chunks are sent,
--   as the service's verdicts come in, and as its timers fire.
--
-- The files:
-- - Common: numbers, tests, words of a fixed width, and memories as functions with their copies.
-- - Shmem/Params: initializeQueueParams, getQueueParams, addQueueParams, removeQueueParams.
--   A pointer to an entry is the entry found by name; `update_slot` is a write through it.
-- - Shmem/Sizes: initializeDockerEnvironment, isLargerDataSegmentSupported, getEffectiveSegmentSize,
--   getEffectiveEntrySize. `Os` holds what access, stat, fopen, getline and atoi answer; the environment is
--   state, since the code sets a variable in it.
-- - Shmem/Ring: the arithmetic of a ring, and the loops of the operations over its words and bytes.
-- - Shmem/Queue: getDataSegmentAddress, getNumOfDataSegmentsNeeded, isThereEnoughMemoryInQueue,
--   isGetPossitionSucceccful, resetRingQueue, peekToQueue, pushBuffersToQueue, pushToQueue, popFromQueue,
--   isQueueEmpty, isCorruptedQueue. `SharedRingQueue` is the shared structure and `Process` the static
--   variables of one process; each operation takes and returns both. Below it, Space is about the test
--   of space, Layout about what a ring of messages looks like in memory, Sound about a queue that agrees
--   with its process, Pop, Remove and Append about a ring's steps, and Refine, Push and Faults about the
--   operations as a whole.
-- - Shmem/Create: deriveSegmentSizeFromExistingQueue, createSharedRingQueue, destroySharedRingQueue.
-- - Shmem/Channel: isTowardsOwner, createOneWayIPCQueue, initIpc, resetIpc, destroyIpc, sendData,
--   sendChunkedData, receiveData, popData, isDataAvailable, isCorruptedShmem.
-- - Shmem2/Sizes, Shmem2/Queue, Shmem2/Create, Shmem2/Channel: the same parts of core/shmem_ipc_2. They
--   use the definitions of the first ring for its words and segments, where the code is the same.
-- - Bucket, Metric, Failing: the three files of the attachments named above.
-- - Sender: what the senders that wait for their answer share, with HandleDelayedVerdict; Sender/Chunks the
--   eight senders; Sender/Queued those that do not; Sender/Grounds is about what is reported;
--   Sender/Thread NanoRunInThreadTimeout. What the clock, the threads and the routines in them answer are
--   records; HandleDelayedVerdict is recursion on the retries that are left.
-- - Async: the asynchronous core. Types is the context, with the guarded reads of
--   ngx_cp_async_ctx_validation.c; Table the 2048 chains of contexts and the counter of pending chunks;
--   Stages the creation and the end of a context, ngx_cp_async_transition_after_wait and
--   ngx_cp_async_apply_verdict_for_stage; Handler ngx_cp_async_continue_processing,
--   ngx_cp_async_event_handler, Handler/Timers the deadline and cleanup handlers, and the release of a context in
--   ngx_cp_async_cleanup_impl; Body the filter of ngx_cp_async_body.c and the resumption of a request with its
--   saved buffers; Verdict ngx_cp_async_apply_verdict and drain_ipc_queue. Below them, Legal and
--   Moves are about the stages that follow each other, Total about the calls of the handlers, Ends about
--   how a context ends, Once about the moves of each function, Rule, Modifications and Stuck about a verdict,
--   and Drain about the loop.
-- - Rate: enforce_sessions_rate of attachments/nginx/ngx_module/ngx_cp_hooks.c, which limits the sessions of a
--   minute. Laws is about the counters of the seconds, Window about the limit.
-- - Wire: nano_attachment_io.c. Signal is notify_signal_to_service and signal_for_session_data, Send
--   send_session_data_to_service, Senders the senders of each part of a transaction (Senders/Headers,
--   Senders/Bodies and Senders/Metadata the larger ones), Response the responses that a reply asks for,
--   with Response/Packed for those with headers, and Replies the receiver of the replies, with
--   Replies/Inject for the modifications in them and Replies/Popped for the ring of the asynchronous use.
-- - Rewrite: ngx_http_cp_body_modifier of ngx_cp_custom_response.c. Sorting is about its sort, Weave about
--   the loop that applies the modifications, against one pass over the buffer, Chunks about the chain,
--   and Iterator get_list_element of ngx_cp_utils.c, which finds a header to change.
-- - Tests: the theorems at concrete inputs.
--
-- How the code is modelled: integers are natural numbers with their wrap-around written out, except the
-- signed ones, which are integers. A negative status is the code's. Loops are structural: over a
-- message's buffers, over the entries of the table, or by `fill` over a count of segments; the loop of
-- peekToQueue runs on the number of segments left before the end of the ring, which is all that its own
-- condition lets it visit. Debug output is left out, but what its arguments read past an array is kept.
-- The management words of a ring are kept apart from its bytes. They are apart in memory while two bytes
-- for each segment fit in one segment, which a sound queue states as `words_fit`. A mapping that failed
-- is a fault of its own, since the code takes it for a success. A queue is sound (`IsOpen`) where the
-- stamp, the table and the settled sizes of the process agree; it holds a list of messages (`Holds`)
-- where its words and bytes are theirs in order.
--
-- A context of the asynchronous core is a record, its address a number, and a table, a log of what was
-- done about the request and the context make the state of a handler; a handler that ends the context
-- leaves its record behind, since its memory is the request pool's. What the handlers learn from the
-- senders, the settings and the parts that are not modelled is a record of answers (`Env`), what the senders add to
-- the counter of pending chunks among them. The event
-- handler and the processing of a stage call each other: the recursion is on fuel, `none` is its end, and
-- 2 is enough. A verdict of `none` is the crash of the loop over its modifications.
--
-- What the sockets, the rings and the allocations answer to nano_attachment_io.c is a parameter, in the order
-- of the calls. The loop over the pieces of a body runs on fuel, for one test of its condition each; one
-- more than the number of pieces is enough up to 255 of them. The loop over the replies is structural in
-- the replies that are in the ring. A free of an address that is none of malloc's, and a write past the
-- end of an array, end the run (`crashed`, `overrun`). A chunk of a body is its bytes, and a node of the
-- list of modifications that was passed to ngx_pfree is a state of its own (`stale`), at which the run ends:
-- what the loop finds there depends on the pool of NGINX.
--
-- Not modelled: the memory that two processes touch at the same time (each operation is one step), what
-- a queue's memory holds after a creation or a removal that fails, the names' bytes past the
-- terminator, the connection of the sockets, the routines of the threads and the initialisation of the
-- nano attachment, and the hooks but for their limit of sessions, the threads, the identifiers of
-- sessions, the changes of headers, the pages sent in place of the traffic, and the sockets and the
-- filter of the headers of the asynchronous part of the NGINX module. What NGINX does while it runs a
-- request's phases, which may call back into the module, is one effect in the log. The code in other
-- languages and the libraries under external are outside it.
pub mod Async
pub mod Bucket
pub mod Common
pub mod Failing
pub mod Metric
pub mod Rate
pub mod Rewrite
pub mod Sender
pub mod Shmem
pub mod Shmem2
pub mod Tests
pub mod Wire
