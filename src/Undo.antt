-- ===== src/Undo.antt =====
-- storage_server/undo_buffer.c and .h: one undo copy for each file, in a chained table under one
-- mutex, so that each function is one atomic step. Each call of `malloc` is an argument that says
-- whether it succeeds. A file's content is its bytes, with a size, and may hold zeros.
pub mod Spec
pub mod Restore
pub mod Failure
pub mod Tests
use name_file_system_docs.Base.{
  ℕ, ◌+◌, ◌-◌, ◌*◌, ◌%◌, ◌^◌, Bool, true, false, ◌&&◌, not, Option, none, some, List, [], ◌∷◌,
}
use name_file_system_docs.Base.Tests.{ltb, if◌then◌else◌}
use name_file_system_docs.Base.Lists.{take}
use name_file_system_docs.Base.Strings.{CString, same, same_iff, copy_str, as_signed}
use name_file_system_docs.Protocol.{err_success, err_server_error, err_not_found, max_filename_len}
use name_file_system_docs.Table.Chain.{Keyed, Buckets, lookup, write, prepend, update, delete}

abbrev pub undo_hash_size : ℕ
undo_hash_size = 509

abbrev pub max_undo_size : ℕ
max_undo_size = 1024 * 1024

-- `content` is `none` for a null pointer.
pub record UndoEntry : Type 0 where
  pub filename : CString
  pub content : Option (List ℕ)
  pub size : ℕ
  pub valid : Bool

pub record UndoTable : Type 0 where
  pub buckets : Buckets UndoEntry
  pub entry_count : ℕ

djb2_signed : ℕ → CString → ℕ
unfolding as_signed
djb2_signed hash [] = hash
djb2_signed hash (c ∷ s) = djb2_signed ((hash * 33 + as_signed (2 ^ 32) c) % 2 ^ 32) s

pub hash_filename : CString → ℕ
unfolding djb2_signed
hash_filename f = djb2_signed 5381 f % undo_hash_size

abbrev pub undo_keys : Keyed UndoEntry CString
undo_keys = record {
  key = λ e. e.filename;
  matches = same;
  matches_iff = same_iff;
  bucket_of = hash_filename;
}

unfoldable pub undo_table_init : UndoTable
undo_table_init = record { buckets = λ _. []; entry_count = 0 }

-- The entry's last assignments in both branches of `undo_save`.
abbrev pub saved : List ℕ → ℕ → UndoEntry → UndoEntry
saved content size e = record e { content = some (take size content); size = size; valid = true }

unfoldable pub undo_save : UndoTable → CString → List ℕ → ℕ → Bool → Bool → ℕ × UndoTable
undo_save t f content size node_alloc content_alloc =
    if ltb max_undo_size size then (err_server_error, t) else elim (lookup undo_keys t.buckets f) [
      | some e ↦
          if content_alloc
          then (
            err_success,
            record t { buckets = update undo_keys t.buckets f (saved content size) },
          )
          else (
            err_server_error,
            record t { buckets = update undo_keys t.buckets f (λ e. record e { content = none }) },
          )
      | none ↦
          if node_alloc && content_alloc
          then (
            err_success,
            record {
              buckets = prepend undo_keys t.buckets f (record {
                filename = copy_str max_filename_len f;
                content = some (take size content);
                size = size;
                valid = true;
              });
              entry_count = t.entry_count + 1;
            },
          )
          else (err_server_error, t)
    ]

-- `restored` fills `*content_out` and `*size_out`; `null_copy` is `memcpy` from a null pointer.
pub data Restoration : Type 0 where
  restored : List ℕ → ℕ → UndoTable → Restoration
  failed : ℕ → UndoTable → Restoration
  null_copy : Restoration

-- `free(content); content = NULL; size = 0; valid = 0`
abbrev pub cleared : UndoEntry → UndoEntry
cleared e = record e { content = none; size = 0; valid = false }

-- The copy to the caller, and the clearing of the entry.
unfoldable pub copy_out : UndoTable → CString → UndoEntry → Option (List ℕ) → Restoration
copy_out t f e none = null_copy
copy_out t f e (some c) =
    restored (take e.size c) e.size (record t { buckets = update undo_keys t.buckets f cleared })

unfoldable pub undo_restore : UndoTable → CString → Bool → Restoration
undo_restore t f alloc = elim (lookup undo_keys t.buckets f) [
  | some e ↦
      if not e.valid
      then failed err_not_found t
      else if alloc
      then copy_out t f e e.content
      else failed err_server_error t
  | none ↦ failed err_not_found t
]

unfoldable pub undo_available : UndoTable → CString → Bool
undo_available t f = elim (lookup undo_keys t.buckets f) [ some e ↦ e.valid | none ↦ false ]

unfoldable pub undo_clear_file : UndoTable → CString → UndoTable
undo_clear_file t f = elim (lookup undo_keys t.buckets f) [
  | some e ↦ record { buckets = delete undo_keys t.buckets f; entry_count = t.entry_count - 1 }
  | none ↦ t
]

unfoldable pub undo_table_destroy : UndoTable → UndoTable
undo_table_destroy t = record {
  buckets = λ i. if ltb i undo_hash_size then [] else t.buckets i;
  entry_count = 0;
}
