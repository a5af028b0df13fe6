-- ===== src/Shmem/Queue/Append.antt =====
-- core/shmem_ipc/shared_ring_queue.c: `pushBuffersToQueue` on a sound ring with room.
use mathlib.Core.List.{append-nil, append_assoc}
use openappsec_attachment.Common.{
  ℕ, ◌+◌, ◌-◌, ◌≤◌, ◌<◌, ◌≡◌, refl, sym, ◌∙◌, ◌≢◌, ◌⊎◌, inl, inr, List, [], ◌∷◌, ◌++◌, arith,
  length, Memory, fill, fill_in, fill_out, copy, copy_out, read-copy, store,
}
use openappsec_attachment.Shmem.Ring.{
  segments_needed, empty_buff_mgmt_magic, skip_buff_mgmt_magic, place_message, mark_message,
  max_write_size, data_segment_offset,
}
use openappsec_attachment.Shmem.Queue.Space.{HasRoom}
use openappsec_attachment.Shmem.Queue.Layout.{
  IsReleased, IsMessage, Run, Filled, Layout, linear, wrapped, segments_needed_bounds, Run-le,
  Run-frame, Run-snoc, offset_le, offset_mono,
}

-- What the loops of `pushBuffersToQueue` leave: the words, the message's first segment, and the
-- new write position.
unfoldable pub append_message : ℕ → ℕ → ℕ → Memory → ℕ → Memory × ℕ × ℕ
append_message n num size m w =
    let (m1, start) = place_message n num m w in
    let (m2, w') = mark_message n num size m1 start in (m2, start, w')

-- The words of a message of `num` segments at `start`.
marked : Memory → ℕ → ℕ → ℕ → Memory
marked m start num size = fill (store m start size) (start + 1) (num - 1) skip_buff_mgmt_magic

marked_out :
    (m : Memory) (start num size j : ℕ)
    → 0 < num
    → (j < start) ⊎ (start + num ≤ j)
    → marked m start num size j ≡ m j
unfolding marked
marked_out m start num size j h o =
    fill_out (store m start size) (start + 1) (num - 1) skip_buff_mgmt_magic j (omega arith)
    ∙ ground arith

append_here :
    (n num size : ℕ) (m : Memory) (w : ℕ)
    → n ≤ 2048
    → 0 < num
    → w + num < n
    → append_message n num size m w ≡ (marked m w num size, w, w + num)
unfolding append_message place_message mark_message marked
append_here n num size m w hn h l = ground arith

append_end :
    (n num size : ℕ) (m : Memory) (w : ℕ)
    → n ≤ 2048
    → 0 < num
    → w + num ≡ n
    → append_message n num size m w ≡ (marked m w num size, w, 0)
unfolding append_message place_message mark_message marked
append_end n num size m w hn h l = ground arith

append_around :
    (n num size : ℕ) (m : Memory) (w : ℕ)
    → n ≤ 2048
    → 0 < num
    → num < n
    → n < w + num
    → append_message n num size m w
      ≡ (marked (fill m w (n - w) skip_buff_mgmt_magic) 0 num size, 0, num)
unfolding append_message place_message mark_message marked
append_around n num size m w hn h k l = ground arith

snoc-ne-nil : (xs : List (List ℕ)) (x : List ℕ) → xs ++ x ∷ [] ≢ []
snoc-ne-nil [] x h = cc
snoc-ne-nil (y ∷ ys) x h = cc

module _ (size n : ℕ) (released : IsReleased size) (m b : Memory) (x : List ℕ) (start : ℕ) where
  -- The words and the bytes with `x` written from segment `start` on.
  abbrev words : Memory
  words = marked m start (segments_needed size (length x)) (length x)

  abbrev bytes : Memory
  bytes = copy b (data_segment_offset size start) x

  placed : 0 < length x → length x ≤ max_write_size → IsMessage size words bytes start x
  unfolding marked
  placed some_byte limit =
      let num : ℕ = segments_needed size (length x) in
      record {
        word =
            fill_out (store m start (length x)) (start + 1) (num - 1) skip_buff_mgmt_magic start
              (inl (omega arith))
            ∙ ground arith;
        nonempty = some_byte;
        limited = limit;
        further = λ j a d.
            fill_in (store m start (length x)) (start + 1) (num - 1) skip_buff_mgmt_magic j
              (omega arith) (omega arith);
        stored = read-copy b (data_segment_offset size start) x;
      }

  -- Messages before or behind the segments written are as they were.
  Run-apart :
      (p : ℕ) (xs : List (List ℕ)) (q : ℕ)
      → 0 < segments_needed size (length x)
      → (q ≤ start) ⊎ (start + segments_needed size (length x) ≤ p)
      → Run size m b p xs q
      → Run size words bytes p xs q
  Run-apart p xs q some_segment apart run =
      Run-frame size released m b words bytes p xs q
        (λ j a d.
          marked_out m start (segments_needed size (length x)) (length x) j some_segment
            (omega arith))
        (λ j a d. copy_out b (data_segment_offset size start) x j (elim apart [
          | inl h ↦ inl (omega (arith, offset_mono size released q start h))
          | inr h ↦ inr (omega (arith, offset_le size released start (length x) p h))
        ]))
        run

  Filled-apart :
      (p q v : ℕ)
      → 0 < segments_needed size (length x)
      → (q ≤ start) ⊎ (start + segments_needed size (length x) ≤ p)
      → Filled m p q v
      → Filled words p q v
  Filled-apart p q v some_segment apart h j a d =
      marked_out m start (segments_needed size (length x)) (length x) j some_segment (omega arith)
      ∙ h j a d

module _ (size n : ℕ) (released : IsReleased size) (m b : Memory) (x : List ℕ)
    (some_byte : 0 < length x) (limit : length x ≤ max_write_size) (ring : n ≤ 2048) where
  abbrev appended : ℕ → Memory × ℕ × ℕ
  appended w = append_message n (segments_needed size (length x)) (length x) m w

  -- The ring after the push, with the bytes copied to the first segment of the message.
  abbrev Holds : (r : ℕ) (out : Memory × ℕ × ℕ) (xs : List (List ℕ)) → Type 0
  Holds r out xs = Layout size n out.0 (copy b (data_segment_offset size out.1) x) r out.2 xs

  some_segment : 0 < segments_needed size (length x)
  some_segment = (segments_needed_bounds size released (length x) some_byte limit).0

  Run-extended :
      (m0 : Memory) (p start : ℕ) (xs : List (List ℕ))
      → Run size m0 b p xs start
      → Run size
          (words size n released m0 b x start)
          (bytes size n released m0 b x start)
          p
          (xs ++ x ∷ [])
          (start + segments_needed size (length x))
  Run-extended m0 p start xs run =
      Run-snoc size (words size n released m0 b x start) (bytes size n released m0 b x start) p xs x
        (Run-apart size n released m0 b x start p xs start some_segment (inl (omega arith)) run)
        (placed size n released m0 b x start some_byte limit)

  append_linear_here :
      (r w : ℕ) (xs : List (List ℕ))
      → r ≤ w
      → w + segments_needed size (length x) < n
      → Run size m b r xs w
      → Filled m 0 r empty_buff_mgmt_magic
      → Filled m w n empty_buff_mgmt_magic
      → Holds r (appended w) (xs ++ x ∷ [])
  append_linear_here r w xs rw_le l run before after =
      rw (append_here n (segments_needed size (length x)) (length x) m w ring some_segment l) (
        linear (omega arith) l (Run-extended m r w xs run)
          (Filled-apart size n released m b x w 0 r empty_buff_mgmt_magic some_segment (inl rw_le)
            before)
          (Filled-apart size n released m b x w (w + segments_needed size (length x)) n
            empty_buff_mgmt_magic some_segment (inr (omega arith))
            (λ j a d. after j (omega arith) d)))

  append_linear_end :
      (r w : ℕ) (xs : List (List ℕ))
      → r ≤ w
      → w < n
      → 0 < r
      → w + segments_needed size (length x) ≡ n
      → Run size m b r xs w
      → Filled m 0 r empty_buff_mgmt_magic
      → Holds r (appended w) (xs ++ x ∷ [])
  append_linear_end r w xs rw_le wn rpos e run before =
      rw (append_end n (segments_needed size (length x)) (length x) m w ring some_segment e) (
        wrapped rpos (omega arith) (xs ++ x ∷ []) [] n (sym (append-nil (xs ++ x ∷ [])))
          (snoc-ne-nil xs x) (omega arith) (rw e at (Run-extended m r w xs run))
          (λ j a d. absurd (omega arith)) refl
          (Filled-apart size n released m b x w 0 r empty_buff_mgmt_magic some_segment (inl rw_le)
            before))

  append_linear_around :
      (r w : ℕ) (xs : List (List ℕ))
      → r ≤ w
      → w < n
      → segments_needed size (length x) < r
      → n < w + segments_needed size (length x)
      → Run size m b r xs w
      → Filled m 0 r empty_buff_mgmt_magic
      → Holds r (appended w) (xs ++ x ∷ [])
  append_linear_around r w xs rw_le wn small over run before =
      let k : ℕ = segments_needed size (length x) in
      let m1 : Memory = fill m w (n - w) skip_buff_mgmt_magic in
      let same : (j : ℕ) → j < w → m1 j ≡ m j =
        λ j h. fill_out m w (n - w) skip_buff_mgmt_magic j (inl h) in
      rw (append_around n k (length x) m w ring some_segment (omega arith) over) (
        wrapped small (omega arith) xs (x ∷ []) w refl (snoc-ne-nil xs x) (omega arith)
          (Run-apart size n released m1 b x 0 r xs w some_segment (inr (omega arith))
            (Run-frame size released m b m1 b r xs w (λ j _ d. same j d) (λ j _ _. refl) run))
          (Filled-apart size n released m1 b x 0 w n skip_buff_mgmt_magic some_segment
            (inr (omega arith))
            (λ j a d. fill_in m w (n - w) skip_buff_mgmt_magic j a (omega arith)))
          (placed size n released m1 b x 0 some_byte limit, omega arith)
          (Filled-apart size n released m1 b x 0 k r empty_buff_mgmt_magic some_segment
            (inr (omega arith)) (λ j a d. same j (omega arith) ∙ before j (omega arith) d)))

  append_wrapped :
      (r w : ℕ) (ys zs : List (List ℕ)) (t : ℕ)
      → r < n
      → t ≤ n
      → w + segments_needed size (length x) < r
      → Run size m b r ys t
      → Filled m t n skip_buff_mgmt_magic
      → Run size m b 0 zs w
      → Filled m w r empty_buff_mgmt_magic
      → Holds r (appended w) ((ys ++ zs) ++ x ∷ [])
  append_wrapped r w ys zs t rn tn room run skips run' free =
      let k : ℕ = segments_needed size (length x) in
      let rt : r ≤ t = Run-le size m b r ys run in
      rw (append_here n k (length x) m w ring some_segment (omega arith)) (
        wrapped room rn ys (zs ++ x ∷ []) t (append_assoc ys zs (x ∷ [])) (snoc-ne-nil (ys ++ zs) x)
          tn (Run-apart size n released m b x w r ys t some_segment (inr (omega arith)) run)
          (Filled-apart size n released m b x w t n skip_buff_mgmt_magic some_segment
            (inr (omega arith)) skips)
          (Run-extended m 0 w zs run')
          (Filled-apart size n released m b x w (w + k) r empty_buff_mgmt_magic some_segment
            (inr (omega arith)) (λ j a d. free j (omega arith) d)))

  -- The message's segments lie in the ring.
  pub append_in_ring :
      (r w : ℕ)
      → w < n
      → r < n
      → HasRoom n w r (segments_needed size (length x))
      → (appended w).1 + segments_needed size (length x) ≤ n
  unfolding append_message place_message
  append_in_ring r w wn rn room = ground arith

  -- The words behind those of the ring's segments stay as they are.
  pub append_words :
      (r w j : ℕ)
      → w < n
      → r < n
      → HasRoom n w r (segments_needed size (length x))
      → n ≤ j
      → (append_message n (segments_needed size (length x)) (length x) m w).0 j ≡ m j
  append_words r w j wn rn room behind =
      let num = segments_needed size (length x) in
      let around = fill_out m w (n - w) skip_buff_mgmt_magic j (inr (omega arith)) in
      ground (
        arith,
        room,
        around,
        some_segment,
        append_here n num (length x) m w ring,
        append_end n num (length x) m w ring,
        append_around n num (length x) m w ring,
        marked_out m w num (length x) j,
        marked_out (fill m w (n - w) skip_buff_mgmt_magic) 0 num (length x) j,
      )

  -- With room, the message is added behind the others, whichever way the ring lies.
  pub append-Layout :
      {r w : ℕ} (xs : List (List ℕ))
      → HasRoom n w r (segments_needed size (length x))
      → Layout size n m b r w xs
      → Holds r (appended w) (xs ++ x ∷ [])
  append-Layout {r} {w} xs (inl (rw_le, small, inl l)) (linear _ wn run before after) =
      append_linear_here r w xs rw_le l run before after
  append-Layout {r} {w} xs (inl (rw_le, small, inr (inl (e, rpos))))
        (linear _ wn run before after) =
      append_linear_end r w xs rw_le wn rpos e run before
  append-Layout {r} {w} xs (inl (rw_le, small, inr (inr (over, few))))
        (linear _ wn run before after) =
      append_linear_around r w xs rw_le wn few over run before
  append-Layout xs (inr (wr, _)) (linear rw_le _ _ _ _) = absurd (omega arith)
  append-Layout xs (inl (rw_le, _, _)) (wrapped wr _ _ _ _ _ _ _ _ _ _ _) = absurd (omega arith)
  append-Layout {r} {w} xs (inr (_, room)) (wrapped _ rn ys zs t split ne tn run skips run' free) =
      rw split (append_wrapped r w ys zs t rn tn room run skips run' free)
