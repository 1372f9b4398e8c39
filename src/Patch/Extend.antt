-- ===== src/Patch/Extend.antt =====
-- `extend_patch` and `process_patch_lines` of pr_agent/algo/git_patch_processing.py: context lines
-- from the file around each hunk. The numbers of context lines are the settings after
-- `cap_and_log_extra_lines`, taken not to be negative.
pub mod Layout
pub mod Lines
pub mod ReadBack
pub mod Reach
pub mod Agreement
pub mod Placed
use achord_review.Prelude.{
  ℕ, ◌+◌, String, Bool, true, false, ◌&&◌, ◌||◌, not, Option, none, some, List, [], ◌∷◌, ◌++◌, any,
  null, ltb, ◌==◌, if◌then◌else◌,
}
use achord_review.Prelude.Int.{pos, ◌+ℤ◌, ◌-ℤ◌}
use achord_review.Text.{Text, codes, text_eq, starts_with, join, newline}
use achord_review.Text.Lines.{split_lines}
use achord_review.Text.Numbers.{show_ℤ}
use achord_review.Patch.Header.{Match, HunkHeader, match_header, extract_hunk_headers}
use Layout.{
  Context, HunkLayout, slice, as_context, layout_hunk, check_if_hunk_lines_matches_to_file,
}

-- The header line of the extended hunk.
unfoldable pub extended_header : HunkLayout → Text
extended_header l =
    codes "@@ -"
    ++ (show_ℤ l.extent.start1
        ++ (codes ","
            ++ (show_ℤ l.extent.size1
                ++ (codes " +"
                    ++ (show_ℤ l.extent.start2
                        ++ (codes ","
                            ++ (show_ℤ l.extent.size2 ++ (codes " @@ " ++ l.section))))))))

-- The variables of the loop; `hunk` is `none` while `start1 == -1`.
pub record ExtendState : Type 0 where
  pub extended_patch_lines : List Text
  pub is_valid_hunk : Bool
  pub hunk : Option HunkHeader

abbrev pub lines_after : Context → Option HunkHeader → List Text
lines_after cx none = []
lines_after cx (some h) = as_context (
    slice cx.original_lines (pos (h.start1 + h.size1) -ℤ pos 1)
      (pos (h.start1 + h.size1) -ℤ pos 1 +ℤ pos cx.extra_after))

-- "finish processing previous hunk"
unfoldable pub finish_hunk : Context → ExtendState → List Text
finish_hunk cx s =
    if s.is_valid_hunk && ltb 0 cx.extra_after
    then s.extended_patch_lines ++ lines_after cx s.hunk
    else s.extended_patch_lines

abbrev pub write_layout : HunkLayout → List Text
write_layout l = [] ∷ extended_header l ∷ l.before

abbrev pub enter_hunk : Context → ExtendState → Text → List Text → Option Match → ExtendState
enter_hunk cx s line rest none = record s {
  extended_patch_lines = s.extended_patch_lines ++ line ∷ [];
}
enter_hunk cx s line rest (some m) =
    let h = extract_hunk_headers m in
    let valid = check_if_hunk_lines_matches_to_file rest cx.original_lines h.start1 in
    record {
      extended_patch_lines = finish_hunk cx s ++ write_layout (layout_hunk cx h valid);
      is_valid_hunk = valid;
      hunk = some h;
    }

-- One round of the loop; `rest` holds the lines behind this one.
unfoldable pub extend_step : Context → ExtendState → Text → List Text → ExtendState
unfolding finish_hunk
extend_step cx s line rest =
    if starts_with (codes "@@") line
    then enter_hunk cx s line rest (match_header line)
    else record s { extended_patch_lines = s.extended_patch_lines ++ line ∷ [] }

unfoldable pub extend_loop : Context → ExtendState → List Text → ExtendState
extend_loop cx s [] = s
extend_loop cx s (line ∷ rest) = extend_loop cx (extend_step cx s line rest) rest

abbrev pub extend_start : ExtendState
extend_start = record { extended_patch_lines = []; is_valid_hunk = true; hunk = none }

unfoldable pub process_patch_lines : Context → Text → Text
unfolding extend_loop finish_hunk
process_patch_lines cx patch_str =
    join newline (finish_hunk cx (extend_loop cx extend_start (split_lines patch_str)))

-- `filename.endswith(skip_type)`
abbrev pub ends_with : Text → Text → Bool
ends_with suffix [] = null suffix
ends_with suffix (c ∷ s) = text_eq suffix (c ∷ s) || ends_with suffix s

unfoldable pub should_skip_patch : List Text → Text → Bool
should_skip_patch patch_extension_skip_types filename =
    not (null patch_extension_skip_types)
    && not (null filename)
    && any (λ suffix. ends_with suffix filename) patch_extension_skip_types

-- The settings of `extend_patch`.
pub record ExtendSettings : Type 0 where
  pub allow_dynamic_context : Bool
  pub max_extra_lines_before_dynamic_context : ℕ
  pub patch_extension_skip_types : List Text

abbrev pub context_of : ExtendSettings → Text → Text → ℕ → ℕ → Context
context_of st original_file new_file before after = record {
  original_lines = split_lines original_file;
  new_lines = split_lines new_file;
  extra_before = before;
  extra_after = after;
  allow_dynamic_context = st.allow_dynamic_context;
  extra_before_dynamic = st.max_extra_lines_before_dynamic_context;
}

unfoldable pub extend_patch : ExtendSettings → Text → Text → ℕ → ℕ → Text → Text → Text
unfolding process_patch_lines
extend_patch st original_file_str patch_str before after filename new_file_str =
    if null patch_str
      || ((before == 0) && (after == 0))
      || null original_file_str
      || should_skip_patch st.patch_extension_skip_types filename
    then patch_str
    else process_patch_lines (context_of st original_file_str new_file_str before after) patch_str
