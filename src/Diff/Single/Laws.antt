-- ===== src/Diff/Single/Laws.antt =====
-- What `get_pr_diff` adds behind the patches of a compressed diff.
use achord_review.Prelude.{
  ℕ, ◌+◌, ◌≤◌, ◌≡◌, List, [], ◌++◌, append_assoc, append-nil, null, Bool-cases, inl, inr, ◌∙◌, ap,
  le→ltb_false, if◌then◌else◌,
}
use achord_review.Text.{Text, codes, join, newline}
use achord_review.Types.{TokenHandler}
use achord_review.Diff.Pack.{FileDict, hard_threshold}
use achord_review.Diff.Clip.{Tokenizer, clip_tokens}
use achord_review.Diff.Single.{
  Growing, clip_list, append_list, add_lists, finish_diff, list_files, no_lists,
}

-- The text has the front, and something behind it.
abbrev pub Extends : Text → Text → Type 0
Extends front text = (rest : Text) × (text ≡ front ++ rest)

module _ (handler : TokenHandler) (tokenizer : Tokenizer) (max_tokens_model : ℕ) where
  append_list-Extends :
      (front : Text) (g : Growing) (list : Text)
      → Extends front g.final_diff
      → Extends front (append_list handler tokenizer max_tokens_model g list).final_diff
  unfolding append_list
  append_list-Extends front g list (rest, e) =
      let clipped = clip_list handler tokenizer max_tokens_model g.curr_token list in
      elim (Bool-cases (null clipped)) [
        | inl gone ↦ rw gone (rest, e)
        | inr left ↦ rw left (
          rest ++ (codes "\n\n" ++ clipped),
          ap (λ t. t ++ (codes "\n\n" ++ clipped)) e ∙ append_assoc front rest _,
        )
      ]

  -- The compressed diff begins with the patches of the first group, whatever lists are added.
  finish_diff-Extends :
      (patches : List Text) (total_tokens : ℕ) (files_in_patch : List Text) (file_dict : FileDict)
      → Extends (join newline patches) (
          finish_diff handler tokenizer max_tokens_model patches total_tokens files_in_patch
            file_dict)
  unfolding finish_diff add_lists
  finish_diff-Extends patches total_tokens files_in_patch file_dict = append_list-Extends _ _ _ (
      append_list-Extends _ _ _ (append_list-Extends _ _ _ ([], append_nil (join newline patches))))
    where
      append_nil : (t : Text) → t ≡ t ++ []
      append_nil t = rw append-nil

  -- With at most ten tokens left the compressed diff is exactly the patches of the first group.
  finish_diff-no_room :
      (patches : List Text) (total_tokens : ℕ) (files_in_patch : List Text) (file_dict : FileDict)
      → max_tokens_model ≤ total_tokens + hard_threshold + 10
      → finish_diff handler tokenizer max_tokens_model patches total_tokens files_in_patch file_dict
        ≡ join newline patches
  unfolding finish_diff add_lists append_list clip_tokens
  finish_diff-no_room patches total_tokens files_in_patch file_dict h =
      let full = le→ltb_false (total_tokens + hard_threshold + 10) max_tokens_model h in
      ap
        (λ t.
          (add_lists handler tokenizer max_tokens_model
            (record { final_diff = join newline patches; curr_token = total_tokens })
            (if t then list_files files_in_patch no_lists file_dict else no_lists)).final_diff)
        full
