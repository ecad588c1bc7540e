-- ===== src/Checkpoint/Copies.antt =====
-- checkpoint_manager.c: what a checkpoint keeps, and what going back to it restores.
use name_file_system_docs.Base.{
  ℕ, ◌≡◌, refl, sym, ap, ◌∙◌, inl, inr, Bool, true, false, ◌||◌, not, Option, none, some, List,
  arith,
}
use name_file_system_docs.Base.Tests.{Bool-cases, Option-cases}
use name_file_system_docs.Base.Strings.{CString, same, eq_of_same}
use name_file_system_docs.Disk.Laws.{put_here}
use name_file_system_docs.Protocol.{err_created, err_server_error, err_success}
use name_file_system_docs.Checkpoint.{
  checkpoint_create, checkpoint_revert, copy_file, get_checkpoint_dir, get_checkpoint_path,
  made_dir,
}
use name_file_system_docs.Disk.{
  Disk, Node, directory, is_directory, is_there, mkdir, open_read, put, regular, write_file,
}
use name_file_system_docs.Storage.{Calls, path_in}

-- Making a checkpoint changes nothing that is there.
abbrev Keeps : Disk → Disk → Type 0
Keeps d e = (p : CString) (n : Node) → d p ≡ some n → e p ≡ some n

put-Keeps :
    (d : Disk) (q : CString) (n : Node) → is_there (d q) ≡ false → Keeps d (put d q (some n))
put-Keeps d q n absent p m h = elim (Bool-cases (same q p)) [
  | inl here ↦ absurd (ground (arith, eq_of_same q p))
  | inr away ↦ rw away h
]

mkdir-Keeps :
    (d : Disk) (q : CString) (makes : Bool) (e : Disk) → mkdir d q makes ≡ some e → Keeps d e
unfolding mkdir
mkdir-Keeps d q makes e made p n h = elim (Bool-cases (not makes || is_there (d q))) [
  | inl refused ↦ absurd (ground arith)
  | inr free ↦
      let at : put d q (some directory) ≡ e = ground arith in
      ap (λ (o : Disk). o p) (sym at) ∙ put-Keeps d q directory (ground arith) p n h
]

-- Writing a file that is not there.
write-Keeps :
    (d : Disk) (q : CString) (creates : Bool) (bytes : List ℕ) (code : ℕ)
    → is_there (d q) ≡ false
    → Keeps d
        (elim (write_file d q creates bytes) as (λ _. ℕ × Disk) [
          | none ↦ (err_server_error, d)
          | some e ↦ (code, e)
        ]).1
unfolding write_file
write-Keeps d q creates bytes code absent p n h =
    elim (Bool-cases (not creates || is_directory (d q))) [
      | inl refused ↦ rw refused h
      | inr free ↦ rw free (put-Keeps d q (regular bytes) absent p n h)
    ]

copy-Keeps :
    (d : Disk) (src dest : CString) (calls : Calls) (code : ℕ)
    → is_there (d dest) ≡ false
    → Keeps d (copy_file d src dest calls code).1
unfolding copy_file
copy-Keeps d src dest calls code absent = elim (Option-cases (open_read d src calls.opens)) [
  | inl unread ↦ rw (unread, copy_file) (λ p n h. h)
  | inr (bytes, read) ↦ rw (read, copy_file) (write-Keeps d dest calls.creates bytes code absent)
]

made-Keeps :
    (dir : CString) (d : Disk) (f : CString) (makes : Bool) (e : Disk)
    → made_dir dir d f makes ≡ some e
    → Keeps d e
unfolding made_dir
made-Keeps dir d f makes e made p n h =
    elim (Bool-cases (is_there (d (get_checkpoint_dir dir f)))) [
      | inl there ↦
          let same_disk : d ≡ e = ground arith in ap (λ (o : Disk). o p) (sym same_disk) ∙ h
      | inr absent ↦ mkdir-Keeps d (get_checkpoint_dir dir f) makes e (ground arith) p n h
    ]

-- A checkpoint is never overwritten, and making one changes no file: whatever the answer of
-- `checkpoint_create`, each file, directory and checkpoint that was there is there with what it held.
pub create_keeps :
    (dir : CString) (d : Disk) (f tag : CString) (calls : Calls) (p : CString) (n : Node)
    → d p ≡ some n
    → (checkpoint_create dir d f tag calls).1 p ≡ some n
unfolding checkpoint_create
create_keeps dir d f tag calls p n h = elim (Bool-cases (is_there (d (path_in dir f)))) [
  | inr absent ↦ rw absent h
  | inl there ↦ elim (Option-cases (made_dir dir d f calls.makes)) [
    | inl unmade ↦ rw (there, unmade, checkpoint_create) h
    | inr (e, made) ↦
        let kept = made-Keeps dir d f calls.makes e made p n h in
        rw (there, made, checkpoint_create)
          (elim (Bool-cases (is_there (e (get_checkpoint_path dir f tag)))) [
            | inl conflict ↦ rw conflict kept
            | inr free ↦ rw free (
                copy-Keeps e (path_in dir f) (get_checkpoint_path dir f tag) calls err_created free
                  p n kept)
          ])
  ]
]

copied :
    (d : Disk) (src dest : CString) (calls : Calls) (code : ℕ) (c : List ℕ)
    → d src ≡ some (regular c)
    → calls.opens ≡ true
    → calls.creates ≡ true
    → is_directory (d dest) ≡ false
    → copy_file d src dest calls code ≡ (code, put d dest (some (regular c)))
unfolding copy_file open_read write_file
copied d src dest calls code c there opens creates free =
    let read : open_read d src calls.opens ≡ some c = simp (opens, there) refl in
    let written : write_file d dest calls.creates c ≡ some (put d dest (some (regular c))) =
      simp (creates, free) refl in
    simp (read, written, copy_file) refl

absent-is_directory : (o : Option Node) → is_there o ≡ false → is_directory o ≡ false
absent-is_directory none h = refl
absent-is_directory (some n) h = absurd (cc)

-- Making a checkpoint and going back to it. A file that is there is copied under a tag that it does not
-- have yet, and `checkpoint_revert` to the tag, at any later time while the checkpoint stands, puts the
-- bytes of then back into the file, whatever it holds by then, and changes nothing else. The calls are
-- granted, the directory of the file's checkpoints is there or can be made, and the file's place is no
-- directory.
pub create_revert :
    (dir : CString) (d : Disk) (f tag : CString) (calls calls' : Calls) (c : List ℕ) (e : Disk)
    → d (path_in dir f) ≡ some (regular c)
    → made_dir dir d f calls.makes ≡ some e
    → is_there (e (get_checkpoint_path dir f tag)) ≡ false
    → calls.opens ≡ true
    → calls.creates ≡ true
    → calls'.opens ≡ true
    → calls'.creates ≡ true
    → (d' : Disk) × (checkpoint_create dir d f tag calls ≡ (err_created, d'))
      × ((later : Disk)
          → later (get_checkpoint_path dir f tag) ≡ d' (get_checkpoint_path dir f tag)
          → is_directory (later (path_in dir f)) ≡ false
          → checkpoint_revert dir later f tag calls'
            ≡ (err_success, put later (path_in dir f) (some (regular c))))
unfolding checkpoint_create checkpoint_revert
create_revert dir d f tag calls calls' c e there made absent opens creates opens' creates' =
    let at = get_checkpoint_path dir f tag in
    let kept = made-Keeps dir d f calls.makes e made (path_in dir f) (regular c) there in
    let held : put e at (some (regular c)) at ≡ some (regular c) =
      put_here e at (some (regular c)) in
    (
      put e at (some (regular c)),
      simp (there, made, absent, checkpoint_create)
          (copied e (path_in dir f) at calls err_created c kept opens creates
            (absent-is_directory (e at) absent)),
      λ later stands free.
          let stored = stands ∙ held in
          simp (stored, checkpoint_revert)
            (copied later at (path_in dir f) calls' err_success c stored opens' creates' free),
    )
