-- ===== src/Tests/Rewrite.antt =====
-- Runs of attachments/nginx/ngx_module/ngx_cp_custom_response.c.
use openappsec_attachment.Common.{
  ℕ, ◌≡◌, refl, Bool, true, List, [], ◌∷◌, arith, map, pos, negsuc, inl, inr,
}
use openappsec_attachment.Rewrite.{
  Modification, rewritten, sort_modifications, apply_modifications, body_modifier,
}
use openappsec_attachment.Rewrite.Iterator.{
  past_end, init_list_iterator, get_list_element, locate, get_locates,
}
use openappsec_attachment.Rewrite.Weave.{weave}
use openappsec_attachment.Rewrite.Chunks.{Part, all_wanted, sort_apply_weaves}
use openappsec_attachment.Rewrite.Chunks.Body.{woven, bytes_of, body_modifier_weaves}

abbrev yes_all : ℕ → ℕ → Bool
yes_all c i = true

abbrev at_two : Modification
at_two = record {
  node = 1;
  injection_pos = pos 2;
  orig_buff_index = 0;
  modification_buffer = 8 ∷ [];
}

abbrev at_one : Modification
at_one = record {
  node = 2;
  injection_pos = pos 1;
  orig_buff_index = 0;
  modification_buffer = 9 ∷ 9 ∷ [];
}

abbrev before_all : Modification
before_all = record {
  node = 3;
  injection_pos = negsuc 0;
  orig_buff_index = 0;
  modification_buffer = 7 ∷ [];
}

abbrev in_second : Modification
in_second = record {
  node = 4;
  injection_pos = pos 0;
  orig_buff_index = 1;
  modification_buffer = 6 ∷ [];
}

abbrev bytes : List ℕ
bytes = 1 ∷ 2 ∷ 3 ∷ []

-- The order of the modifications does not matter for the bytes.
woven_bytes : weave (at_one ∷ before_all ∷ at_two ∷ []) 0 bytes ≡ 1 ∷ 9 ∷ 9 ∷ 2 ∷ 8 ∷ 3 ∷ []
unfolding weave
woven_bytes = refl

sort_apply_weaves_example :
    apply_modifications (λ i. true) 0 (sort_modifications (at_one ∷ before_all ∷ at_two ∷ [])) bytes
    ≡ weave (at_one ∷ before_all ∷ at_two ∷ []) 0 bytes
sort_apply_weaves_example =
    sort_apply_weaves (λ i. true) (at_one ∷ before_all ∷ at_two ∷ []) bytes (λ i. refl)

abbrev parts : List Part
parts =
    record { bytes = bytes; wanted = at_two ∷ at_one ∷ before_all ∷ [] }
    ∷ record { bytes = 4 ∷ 5 ∷ []; wanted = in_second ∷ [] }
    ∷ record { bytes = []; wanted = [] }
    ∷ []

body_modifier_weaves_example :
    body_modifier yes_all (map bytes_of parts) (all_wanted parts) ≡ rewritten (map woven parts)
body_modifier_weaves_example =
    body_modifier_weaves yes_all parts (λ c i. refl)
      (
        (
          (refl, (refl, (refl, tt))),
          omega arith,
          ((refl, (refl, tt)), ((refl, tt), (tt, tt))),
          inr (omega arith),
        ),
        (
          ((refl, tt), omega arith, (tt, tt), inr (omega arith)),
          ((tt, omega arith, tt, inl refl), tt),
        ),
      )

-- The list 1, 2, 3, 4 in two parts: the third element is missed.
abbrev first_part : List ℕ
first_part = 1 ∷ 2 ∷ []

abbrev later_parts : List (List ℕ)
later_parts = (3 ∷ 4 ∷ []) ∷ []

third_missed : (get_list_element (init_list_iterator first_part later_parts) 2).0 ≡ past_end
unfolding get_list_element init_list_iterator
third_missed = refl

get_locates_example :
    (get_list_element (init_list_iterator first_part later_parts) 3).0
    ≡ locate first_part later_parts 3
get_locates_example = get_locates first_part later_parts 3 (omega arith, tt)
