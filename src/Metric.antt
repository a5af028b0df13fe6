-- ===== src/Metric.antt =====
-- attachments/nano_attachment/nano_attachment_metric.c, and attachments/nginx/ngx_module/ngx_cp_metric.c,
-- which has the same functions over two static arrays: the metrics of an attachment.
-- The types are `AttachmentMetricType` of core/include/attachments/nano_attachment_common.h.
pub mod Laws
use openappsec_attachment.Common.{
  ℕ, ◌+◌, ◌*◌, ◌/◌, List, [], ◌∷◌, Memory, store, fill, ltb, ◌==◌, u64, if◌then◌else◌,
}

pub data MetricType : Type 0 where
  transparents_count total_transparents_time : MetricType
  inspection_open_failures_count inspection_close_failures_count : MetricType
  inspection_successes_count inject_verdicts_count : MetricType
  drop_verdicts_count accept_verdicts_count : MetricType
  irrelevant_verdicts_count reconf_verdicts_count : MetricType
  inspect_verdicts_count hold_verdicts_count : MetricType
  average_overall_pprocessing_time_until_verdict max_overall_pprocessing_time_until_verdict :
      MetricType
  min_overall_pprocessing_time_until_verdict average_req_pprocessing_time_until_verdict : MetricType
  max_req_pprocessing_time_until_verdict min_req_pprocessing_time_until_verdict : MetricType
  average_res_pprocessing_time_until_verdict max_res_pprocessing_time_until_verdict : MetricType
  min_res_pprocessing_time_until_verdict thread_timeout : MetricType
  reg_thread_timeout req_metadata_thread_timeout : MetricType
  req_header_thread_timeout req_body_thread_timeout : MetricType
  req_end_thread_timeout average_req_body_size_upon_timeout : MetricType
  max_req_body_size_upon_timeout min_req_body_size_upon_timeout : MetricType
  res_header_thread_timeout res_body_thread_timeout : MetricType
  res_end_thread_timeout hold_thread_timeout : MetricType
  average_res_body_size_upon_timeout max_res_body_size_upon_timeout : MetricType
  min_res_body_size_upon_timeout thread_failure : MetricType
  req_proccessing_timeout res_proccessing_timeout : MetricType
  req_failed_to_reach_upstream req_failed_compression_count : MetricType
  res_failed_compression_count req_failed_decompression_count : MetricType
  res_failed_decompression_count req_successful_compression_count : MetricType
  res_successful_compression_count req_successful_decompression_count : MetricType
  res_successful_decompression_count corrupted_zip_skipped_session_count : MetricType
  cpu_usage average_vm_memory_usage : MetricType
  average_rss_memory_usage max_vm_memory_usage : MetricType
  max_rss_memory_usage request_overall_size_count : MetricType
  response_overall_size_count : MetricType

-- The enumerator's number, the index into the arrays.
unfoldable pub index : MetricType → ℕ
index transparents_count = 0
index total_transparents_time = 1
index inspection_open_failures_count = 2
index inspection_close_failures_count = 3
index inspection_successes_count = 4
index inject_verdicts_count = 5
index drop_verdicts_count = 6
index accept_verdicts_count = 7
index irrelevant_verdicts_count = 8
index reconf_verdicts_count = 9
index inspect_verdicts_count = 10
index hold_verdicts_count = 11
index average_overall_pprocessing_time_until_verdict = 12
index max_overall_pprocessing_time_until_verdict = 13
index min_overall_pprocessing_time_until_verdict = 14
index average_req_pprocessing_time_until_verdict = 15
index max_req_pprocessing_time_until_verdict = 16
index min_req_pprocessing_time_until_verdict = 17
index average_res_pprocessing_time_until_verdict = 18
index max_res_pprocessing_time_until_verdict = 19
index min_res_pprocessing_time_until_verdict = 20
index thread_timeout = 21
index reg_thread_timeout = 22
index req_metadata_thread_timeout = 23
index req_header_thread_timeout = 24
index req_body_thread_timeout = 25
index req_end_thread_timeout = 26
index average_req_body_size_upon_timeout = 27
index max_req_body_size_upon_timeout = 28
index min_req_body_size_upon_timeout = 29
index res_header_thread_timeout = 30
index res_body_thread_timeout = 31
index res_end_thread_timeout = 32
index hold_thread_timeout = 33
index average_res_body_size_upon_timeout = 34
index max_res_body_size_upon_timeout = 35
index min_res_body_size_upon_timeout = 36
index thread_failure = 37
index req_proccessing_timeout = 38
index res_proccessing_timeout = 39
index req_failed_to_reach_upstream = 40
index req_failed_compression_count = 41
index res_failed_compression_count = 42
index req_failed_decompression_count = 43
index res_failed_decompression_count = 44
index req_successful_compression_count = 45
index res_successful_compression_count = 46
index req_successful_decompression_count = 47
index res_successful_decompression_count = 48
index corrupted_zip_skipped_session_count = 49
index cpu_usage = 50
index average_vm_memory_usage = 51
index average_rss_memory_usage = 52
index max_vm_memory_usage = 53
index max_rss_memory_usage = 54
index request_overall_size_count = 55
index response_overall_size_count = 56

pub record Metrics : Type 0 where
  pub metric_data : Memory
  pub metric_average_data_divisor : Memory

abbrev pub metric_types_count : ℕ
metric_types_count = 57

unfoldable pub reset_metric_data : Metrics → Metrics
reset_metric_data m = record {
  metric_data = fill m.metric_data 0 metric_types_count 0;
  metric_average_data_divisor = fill m.metric_average_data_divisor 0 metric_types_count 0;
}

-- How `updateMetricField` treats a type.
pub data Kind : Type 0 where
  average maximum minimum counter : Kind

unfoldable pub kind : MetricType → Kind
kind average_overall_pprocessing_time_until_verdict = average
kind average_req_pprocessing_time_until_verdict = average
kind average_res_pprocessing_time_until_verdict = average
kind average_req_body_size_upon_timeout = average
kind average_res_body_size_upon_timeout = average
kind cpu_usage = average
kind average_vm_memory_usage = average
kind average_rss_memory_usage = average
kind max_overall_pprocessing_time_until_verdict = maximum
kind max_req_pprocessing_time_until_verdict = maximum
kind max_res_pprocessing_time_until_verdict = maximum
kind max_req_body_size_upon_timeout = maximum
kind max_res_body_size_upon_timeout = maximum
kind max_vm_memory_usage = maximum
kind max_rss_memory_usage = maximum
kind min_overall_pprocessing_time_until_verdict = minimum
kind min_req_pprocessing_time_until_verdict = minimum
kind min_res_pprocessing_time_until_verdict = minimum
kind min_req_body_size_upon_timeout = minimum
kind min_res_body_size_upon_timeout = minimum
kind _ = counter

unfoldable pub update_counter_metric_field : Metrics → ℕ → ℕ → Metrics
update_counter_metric_field m i value = record m {
  metric_data = store m.metric_data i (u64 (m.metric_data i + value));
}

-- A division by 0 needs a divisor of 2 ^ 64 - 1: the native division then gives 0.
unfoldable pub update_average_metric_field : Metrics → ℕ → ℕ → Metrics
update_average_metric_field m i value =
    let count = m.metric_average_data_divisor i in
    record {
      metric_data =
          store m.metric_data i (u64 (u64 (m.metric_data i * count) + value) / u64 (count + 1));
      metric_average_data_divisor = store m.metric_average_data_divisor i (u64 (count + 1));
    }

unfoldable pub update_max_metric_field : Metrics → ℕ → ℕ → Metrics
update_max_metric_field m i value =
    if ltb (m.metric_data i) value
    then record m { metric_data = store m.metric_data i value }
    else m

unfoldable pub update_min_metric_field : Metrics → ℕ → ℕ → Metrics
update_min_metric_field m i value =
    if m.metric_data i == 0
    then record m { metric_data = store m.metric_data i value }
    else if ltb value (m.metric_data i)
    then record m { metric_data = store m.metric_data i value }
    else m

-- The `switch`: all but the counters pass over a value of 0.
unfoldable pub update_field : Kind → Metrics → ℕ → ℕ → Metrics
unfolding update_counter_metric_field update_average_metric_field update_max_metric_field
    update_min_metric_field
update_field average m i value = if value == 0 then m else update_average_metric_field m i value
update_field maximum m i value = if value == 0 then m else update_max_metric_field m i value
update_field minimum m i value = if value == 0 then m else update_min_metric_field m i value
update_field counter m i value = update_counter_metric_field m i value

unfoldable pub update_metric_field : MetricType → ℕ → Metrics → Metrics
unfolding update_field
update_metric_field t value m = update_field (kind t) m (index t) value

-- A metric fed with values, first to last.
unfoldable pub feed : Kind → ℕ → List ℕ → Metrics → Metrics
feed k i [] m = m
feed k i (v ∷ vs) m = feed k i vs (update_field k m i v)
