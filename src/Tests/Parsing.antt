-- ===== src/Tests/Parsing.antt =====
-- A file reconstructed from its patch.
use achord_review.Prelude.{◌≡◌, refl, All, false, some, List, [], ◌∷◌}
use achord_review.Text.{Text, codes, text_eq, join}
use achord_review.Text.Lines.{split_lines, split_from, is_break}
use achord_review.DiffParsing.{
  context_line, added_line, removed_line, other_line, PatchedFile, strip_ends, apply_line,
  apply_lines, apply_hunks, seek, has_line, finish_text, rest_of, reconstruct_from,
  reconstruct_base_file,
}
use achord_review.DiffParsing.RoundTrip.{
  Change, HasTarget, base_of, head_of, hunks_of, reconstruct_base_file-base_of,
}

abbrev changes : List Change
changes =
    record {
      kept = codes "one" ∷ [];
      lines =
          context_line (codes "two\n")
          ∷ removed_line (codes "three\n")
          ∷ added_line (codes "3\n")
          ∷ [];
    }
    ∷ record {
      kept = codes "four" ∷ [];
      lines = added_line (codes "five\r\n") ∷ other_line (codes "") ∷ [];
    }
    ∷ []

abbrev head_file : Text
head_file = codes "one\ntwo\n3\nfour\nfive\nsix\n"

abbrev file : PatchedFile
file = record {
  is_binary_file = false;
  is_added_file = false;
  is_removed_file = false;
  is_rename = false;
  source_file = codes "a/f";
  target_file = codes "b/f";
  shown = [];
  hunks = hunks_of 0 changes;
}

head_lines : split_lines head_file ≡ head_of changes (codes "six" ∷ [])
unfolding split_lines split_from is_break strip_ends
head_lines = refl

changes-HasTarget : All HasTarget changes
changes-HasTarget = (refl, (refl, tt))

reconstruct_base_file-base_of_example :
    reconstruct_base_file (λ _. some (file ∷ [])) head_file []
    ≡ finish_text head_file (base_of changes (codes "six" ∷ []))
reconstruct_base_file-base_of_example =
    reconstruct_base_file-base_of (λ _. some (file ∷ [])) head_file [] file changes
      (codes "six" ∷ []) refl refl head_lines changes-HasTarget

original :
    reconstruct_base_file (λ _. some (file ∷ [])) head_file []
    ≡ codes "one\ntwo\nthree\nfour\nsix\n"
unfolding reconstruct_base_file reconstruct_from rest_of finish_text apply_hunks apply_lines
    apply_line seek has_line strip_ends split_lines split_from is_break join text_eq
original = refl

-- A deleted file has no target line: its hunk starts at 0, which is refused.
deleted_file :
    reconstruct_base_file
      (λ _. some (
        record file {
          hunks = record { target_start = 0; lines = removed_line (codes "one\n") ∷ [] } ∷ [];
        }
        ∷ []))
      []
      []
    ≡ []
unfolding reconstruct_base_file reconstruct_from rest_of apply_hunks seek split_lines split_from
deleted_file = refl
