-- ===== src/Async/Stages/Legal.antt =====
-- attachments/nginx/ngx_module/async/ngx_cp_async_core.c: the moves from stage to stage.
use openappsec_attachment.Common.{◌≡◌, refl, arith, ◌⊎◌, inl, inr}
use openappsec_attachment.Async.Types.{
  Stage, init, meta_data, wait_meta_verdict, headers, wait_header_verdict, end_transaction,
  wait_end_verdict, body, wait_body_verdict, complete, Ctx, Env,
}
use openappsec_attachment.Async.Stages.{State, apply_verdict_for_stage, transition_after_wait}

-- The moves of a context: it starts with the meta data, a chunk is followed by the next one or by the
-- wait for its verdict, and a wait by what comes after it. Every stage may be completed, and a completed one is left no more.
abbrev pub Step : Stage → Stage → Type 0
Step init t = (t ≡ meta_data) ⊎ (t ≡ complete)
Step meta_data t = (t ≡ wait_meta_verdict) ⊎ ((t ≡ headers) ⊎ (t ≡ complete))
Step headers t = (t ≡ wait_header_verdict) ⊎ ((t ≡ end_transaction) ⊎ ((t ≡ body) ⊎ (t ≡ complete)))
Step wait_header_verdict t = (t ≡ end_transaction) ⊎ ((t ≡ body) ⊎ (t ≡ complete))
Step end_transaction t = (t ≡ wait_end_verdict) ⊎ (t ≡ complete)
Step wait_end_verdict t = (t ≡ body) ⊎ (t ≡ complete)
Step body t = (t ≡ wait_body_verdict) ⊎ (t ≡ complete)
Step wait_body_verdict t = (t ≡ body) ⊎ (t ≡ complete)
Step complete t = ⊥
Step _ t = t ≡ complete

abbrev pub Moved : Stage → Stage → Type 0
Moved s t = (t ≡ s) ⊎ Step s t

pub apply_moves :
    (env : Env) (s : State) → Moved s.ctx.stage (apply_verdict_for_stage env s).1.ctx.stage
unfolding apply_verdict_for_stage
apply_moves env s = ground arith

pub transition_moves : (c : Ctx) → Moved c.stage (transition_after_wait c).stage
unfolding transition_after_wait
transition_moves c = ground arith

-- A stage that a sequence of moves leads to.
pub data Reaches : Stage → Stage → Type 0 where
  here : {s : Stage} → Reaches s s
  step : {s t u : Stage} → Step s t → Reaches t u → Reaches s u

pub Reaches-trans : {s t u : Stage} → Reaches s t → Reaches t u → Reaches s u
Reaches-trans here r = r
Reaches-trans (step m q) r = step m (Reaches-trans q r)

pub Moved→Reaches : {s t u : Stage} → Moved s t → Reaches t u → Reaches s u
Moved→Reaches {s} {t} {u} (inl same) r = rw same at r
Moved→Reaches (inr m) r = step m r

-- What a completed context reaches.
pub complete_stays : (t : Stage) → Reaches complete t → t ≡ complete
complete_stays t r = from complete t r refl
  where
    from : (s t : Stage) → Reaches s t → s ≡ complete → t ≡ s
    from s t here e = refl
    from s t (step m r) e = absurd (rw e at m)

-- Any context can be completed at once.
pub completes : (s : Stage) → Moved s complete
completes s = ground arith
