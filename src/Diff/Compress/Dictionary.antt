-- ===== src/Diff/Compress/Dictionary.antt =====
-- `file_dict` and the deleted files: where each file of the pull request ends up.
use achord_review.Prelude.{
  All, keep, ◌≡◌, Bool, true, false, ◌||◌, not, Option, none, some, List, [], ◌∷◌, arith, any,
  any-append, null, Bool-cases, inl, inr, ltb,
}
use achord_review.Text.{Text, text_eq}
use achord_review.Types.{EditType, FilePatchInfo, TokenHandler, mem_text, text_eq_refl, text_eq→eq}
use achord_review.Patch.Deletions.{handle_patch_deletions}
use achord_review.Diff.Pack.{Entry, FileDict}
use achord_review.Diff.Compress.{
  Table, put, note_deleted, table_step, table_loop, table_start, with_patch, without_patch,
}

-- `name in file_dict`
abbrev pub has_key : Text → FileDict → Bool
has_key name = any (λ item. text_eq name item.0)

has_key-put :
    (name : Text) (entry : Entry) (dict : FileDict) → has_key name (put name entry dict) ≡ true
unfolding put
has_key-put name entry [] = ground (arith, text_eq_refl name)
has_key-put name entry ((k, e) ∷ dict) = elim (Bool-cases (text_eq k name)) [
  | inl h ↦ rw h (rw (text_eq→eq k name h) (rw text_eq_refl))
  | inr h ↦ rw (h, has_key-put name entry dict) (ground arith)
]

-- A key is not lost when another one is written.
has_key-put_of :
    (name other : Text) (entry : Entry) (dict : FileDict)
    → has_key name dict ≡ true
    → has_key name (put other entry dict) ≡ true
unfolding put
has_key-put_of name other entry [] h = cc
has_key-put_of name other entry ((k, e) ∷ dict) h = elim (Bool-cases (text_eq k other)) [
  | inl p ↦ rw p h
  | inr p ↦ rw p (ground (arith, has_key-put_of name other entry dict))
]

-- The file is shown by an entry or named among the deleted files.
abbrev pub is_listed : Text → Table → Bool
is_listed name t = has_key name t.file_dict || mem_text name t.deleted_files

note_deleted-listed : (t : Table) (name : Text) → is_listed name (note_deleted t name) ≡ true
note_deleted-listed t name = elim (Bool-cases (mem_text name t.deleted_files)) [
  | inl h ↦ rw (h, h) (ground arith)
  | inr h ↦ rw (h, any-append) (ground (arith, text_eq_refl name))
]

note_deleted-keeps :
    (t : Table) (name other : Text)
    → is_listed name t ≡ true
    → is_listed name (note_deleted t other) ≡ true
note_deleted-keeps t name other h = elim (Bool-cases (mem_text other t.deleted_files)) [
  | inl p ↦ rw p h
  | inr p ↦ rw (p, any-append) (ground arith)
]

put-keeps :
    (t : Table) (name other : Text) (entry : Entry)
    → is_listed name t ≡ true
    → is_listed name (record t { file_dict = put other entry t.file_dict }) ≡ true
put-keeps t name other entry h = ground (arith, has_key-put_of name other entry t.file_dict)

put-listed :
    (t : Table) (name : Text) (entry : Entry)
    → is_listed name (record t { file_dict = put name entry t.file_dict }) ≡ true
put-listed t name entry = rw has_key-put

module _ (handler : TokenHandler) (convert : Bool) where
  without_patch-keeps :
      (t : Table) (file : FilePatchInfo) (kind : EditType) (name : Text)
      → is_listed name t ≡ true
      → is_listed name (without_patch handler t file kind) ≡ true
  without_patch-keeps t file EditType.added name h = elim (Bool-cases (ltb 0 file.num_plus_lines)) [
    | inl p ↦ rw p (put-keeps t name file.filename _ h)
    | inr p ↦ rw p h
  ]
  without_patch-keeps t file EditType.deleted name h =
      elim (Bool-cases (ltb 0 file.num_minus_lines)) [
        | inl p ↦ rw p (note_deleted-keeps t name file.filename h)
        | inr p ↦ rw p h
      ]
  without_patch-keeps t file _ name h = h

  with_patch-keeps :
      (t : Table) (file : FilePatchInfo) (patch : Option Text) (name : Text)
      → is_listed name t ≡ true
      → is_listed name (with_patch handler convert t file patch) ≡ true
  with_patch-keeps t file none name h = note_deleted-keeps t name file.filename h
  with_patch-keeps t file (some patch) name h = put-keeps t name file.filename _ h

  with_patch-listed :
      (t : Table) (file : FilePatchInfo) (patch : Option Text)
      → is_listed file.filename (with_patch handler convert t file patch) ≡ true
  with_patch-listed t file none = note_deleted-listed t file.filename
  with_patch-listed t file (some patch) = put-listed t file.filename _

  step-keeps :
      (t : Table) (file : FilePatchInfo) (name : Text)
      → is_listed name t ≡ true
      → is_listed name (table_step handler convert t file) ≡ true
  unfolding table_step
  step-keeps t file name h = elim (Bool-cases (null file.patch)) [
    | inl p ↦ rw p (without_patch-keeps t file file.edit_type name h)
    | inr p ↦ rw p (
        with_patch-keeps t file (handle_patch_deletions file.patch file.head_file file.edit_type)
          name h)
  ]

  loop-keeps :
      (t : Table) (files : List FilePatchInfo) (name : Text)
      → is_listed name t ≡ true
      → is_listed name (table_loop handler convert t files) ≡ true
  unfolding table_loop
  loop-keeps t [] name h = h
  loop-keeps t (file ∷ files) name h =
      loop-keeps (table_step handler convert t file) files name (step-keeps t file name h)

  -- A file with a patch, an added file with a count of lines, or a deleted file with one.
  abbrev pub has_something : FilePatchInfo → Bool
  has_something file = not (null file.patch) || (elim file.edit_type [
    | EditType.added ↦ ltb 0 file.num_plus_lines
    | EditType.deleted ↦ ltb 0 file.num_minus_lines
    | _ ↦ false
  ])

  without_patch-listed :
      (t : Table) (file : FilePatchInfo) (kind : EditType)
      → (elim kind [
        | EditType.added ↦ ltb 0 file.num_plus_lines
        | EditType.deleted ↦ ltb 0 file.num_minus_lines
        | _ ↦ false
      ])
        ≡ true
      → is_listed file.filename (without_patch handler t file kind) ≡ true
  without_patch-listed t file EditType.added h = rw h (put-listed t file.filename _)
  without_patch-listed t file EditType.deleted h = rw h (note_deleted-listed t file.filename)
  without_patch-listed t file _ h = cc

  step-listed :
      (t : Table) (file : FilePatchInfo)
      → has_something file ≡ true
      → is_listed file.filename (table_step handler convert t file) ≡ true
  unfolding table_step
  step-listed t file h = elim (Bool-cases (null file.patch)) [
    | inl p ↦ rw p (without_patch-listed t file file.edit_type (rw p at h))
    | inr p ↦
        rw p (
          with_patch-listed t file
            (handle_patch_deletions file.patch file.head_file file.edit_type))
  ]

  loop-listed :
      (t : Table) (files : List FilePatchInfo)
      → All
          (λ file. is_listed file.filename (table_loop handler convert t files) ≡ true)
          (keep has_something files)
  unfolding table_loop
  loop-listed t [] = tt
  loop-listed t (file ∷ files) = elim (Bool-cases (has_something file)) [
    | inl h ↦ rw h (
      loop-keeps (table_step handler convert t file) files file.filename (step-listed t file h),
      loop-listed (table_step handler convert t file) files,
    )
    | inr h ↦ rw h (loop-listed (table_step handler convert t file) files)
  ]

  -- No file vanishes: each file that has a patch, or that is an added or a deleted file with a count
  -- of lines, has an entry in `file_dict` or is named among the deleted files.
  pub table_loop-listed :
      (files : List FilePatchInfo)
      → All
          (λ file. is_listed file.filename (table_loop handler convert table_start files) ≡ true)
          (keep has_something files)
  table_loop-listed files = loop-listed table_start files
