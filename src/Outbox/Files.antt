-- ===== src/Outbox/Files.antt =====
-- The listing of a folder (`list_pending` of integrations/outbox.py): the files in the order of their
-- names.
use unlearning.Prelude.{
  Str, ◌≡◌, refl, ap, ◌∙◌, false, ◌||◌, some, [], ◌∷◌, arith, if◌then◌else◌, length, suc,
}
use unlearning.Prelude.Dict.{get, keys}
use unlearning.Prelude.Eq.{str_eq, str_beq, str_beq_iff, elem, IsDistinct}
use unlearning.Outbox.{OutboxEnvelope, Folder, insert_file, sorted_files}

get-insert_file :
    (k j : Str) (e : OutboxEnvelope) (files : Folder)
    → elem k (keys files) ≡ false
    → get j (insert_file k e files) ≡ (if str_beq k j then some e else get j files)
unfolding insert_file get
get-insert_file k j e [] h = refl
get-insert_file k j e ((i, d) ∷ files) h =
    ground (arith, get-insert_file k j e files, str_beq_iff k j, str_beq_iff i j, str_beq_iff i k)

elem-insert_file :
    (k j : Str) (e : OutboxEnvelope) (files : Folder)
    → elem j (keys (insert_file k e files)) ≡ str_beq k j || elem j (keys files)
unfolding insert_file
elem-insert_file k j e [] = refl
elem-insert_file k j e ((i, d) ∷ files) = ground (arith, elem-insert_file k j e files)

insert_file-IsDistinct :
    (k : Str) (e : OutboxEnvelope) (files : Folder)
    → elem k (keys files) ≡ false
    → IsDistinct (keys files)
    → IsDistinct (keys (insert_file k e files))
unfolding insert_file
insert_file-IsDistinct k e [] h d = (refl, tt)
insert_file-IsDistinct k e ((i, c) ∷ files) h d = ground (
  arith,
  insert_file-IsDistinct k e files,
  elem-insert_file k i e files,
  str_beq_iff k i,
  str_beq_iff i k,
)

elem-sorted_files :
    (j : Str) (files : Folder) → elem j (keys (sorted_files files)) ≡ elem j (keys files)
unfolding sorted_files
elem-sorted_files j [] = refl
elem-sorted_files j ((k, e) ∷ files) =
    ground (arith, elem-insert_file k j e (sorted_files files), elem-sorted_files j files)

pub sorted_files-IsDistinct :
    (files : Folder) → IsDistinct (keys files) → IsDistinct (keys (sorted_files files))
unfolding sorted_files
sorted_files-IsDistinct [] d = tt
sorted_files-IsDistinct ((k, e) ∷ files) d =
    insert_file-IsDistinct k e (sorted_files files) (elem-sorted_files k files ∙ d.0)
      (sorted_files-IsDistinct files d.1)

-- Sorting keeps the files.
pub get-sorted_files :
    (j : Str) (files : Folder) → IsDistinct (keys files) → get j (sorted_files files) ≡ get j files
unfolding sorted_files get
get-sorted_files j [] d = refl
get-sorted_files j ((k, e) ∷ files) d =
    get-insert_file k j e (sorted_files files) (elem-sorted_files k files ∙ d.0)
    ∙ rw (get-sorted_files j files d.1) refl

-- Each envelope is filed under its id.
abbrev pub IsKeyed : Folder → Type 0
IsKeyed files = (j : Str) (e : OutboxEnvelope) → get j files ≡ some e → e.envelope_id ≡ j

length-insert_file :
    (k : Str) (e : OutboxEnvelope) (files : Folder)
    → length (insert_file k e files) ≡ suc (length files)
unfolding insert_file
length-insert_file k e [] = refl
length-insert_file k e ((i, d) ∷ files) = ground (arith, length-insert_file k e files)

pub length-sorted_files : (files : Folder) → length (sorted_files files) ≡ length files
unfolding sorted_files
length-sorted_files [] = refl
length-sorted_files ((k, e) ∷ files) =
    length-insert_file k e (sorted_files files) ∙ ap suc (length-sorted_files files)
