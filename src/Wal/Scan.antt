-- ===== src/Wal/Scan.antt =====
-- `WriteAheadLog.iter_records` of api/wal.py. The generator's records are collected: every caller
-- reads them all, so an exception of the generator is the caller's.
use unlearning.Prelude.{
  ℕ, zero, suc, ◌-◌, not, ◌&&◌, Option, none, some, List, [], ◌∷◌, ◌++◌, length, take, drop,
  get_elem?, ltb, ◌==◌, if◌then◌else◌, Result, ok, raise, value_error, ◌>>=◌,
}
use unlearning.Prelude.Eq.{str_beq}
use unlearning.Prelude.Text.{codes}
use unlearning.Wal.Codec.{
  Bytes, Digest, Record, begin_delete, commit, from_le, magic_begin, magic_commit, rec_begin_delete,
  rec_commit, begin_size, commit_size, checksum_begin, checksum_commit,
}

-- What one round of the loop finds: the end of the file or a torn tail (both `break`), a corrupt
-- record (`raise`), or a record and the bytes behind it.
pub data Next : Type 0 where
  stop : Next
  corrupt : Next
  found : Record → Bytes → Next

-- `head[4]`
abbrev pub type_byte : Bytes → ℕ
type_byte head = elim (get_elem? head 4) [ none ↦ 0 | some b ↦ b ]

-- the field of `w` bytes at an offset of the blob
abbrev pub field : ℕ → ℕ → Bytes → ℕ
field offset w blob = from_le (take w (drop offset blob))

unfoldable pub read_begin : Digest → Bytes → Bytes → Next
read_begin d head after =
    let rest = take (begin_size - 8) after in
    let blob = head ++ rest in
    let ts = field 8 8 blob in
    let tx = field 16 8 blob in
    let node = field 24 8 blob in
    let m = field 32 4 blob in
    let checksum = drop 40 blob in
    if ltb (length rest) (begin_size - 8)
    then stop
    else if not (str_beq checksum (checksum_begin d ts tx node m))
    then corrupt
    else found
        (begin_delete (record {
          timestamp = ts;
          transaction_id = tx;
          target_node_id = node;
          max_m = m;
          checksum = checksum;
        }))
        (drop (begin_size - 8) after)

unfoldable pub read_commit : Digest → Bytes → Bytes → Next
read_commit d head after =
    let rest = take (commit_size - 8) after in
    let blob = head ++ rest in
    let ts = field 8 8 blob in
    let tx = field 16 8 blob in
    let checksum = drop 24 blob in
    if ltb (length rest) (commit_size - 8)
    then stop
    else if not (str_beq checksum (checksum_commit d ts tx))
    then corrupt
    else found (commit (record { timestamp = ts; transaction_id = tx; checksum = checksum }))
        (drop (commit_size - 8) after)

unfoldable pub next_record : Digest → Bytes → Next
next_record d file =
    let head = take 8 file in
    let after = drop 8 file in
    let magic = take 4 head in
    if ltb (length head) 8
    then stop
    else if str_beq magic magic_begin && type_byte head == rec_begin_delete
    then read_begin d head after
    else if str_beq magic magic_commit && type_byte head == rec_commit
    then read_commit d head after
    else corrupt

-- The rest of a round: `more` goes on with the bytes behind the record.
abbrev pub continue : (Bytes → Result (List Record)) → Next → Result (List Record)
continue more stop = ok []
continue more corrupt = raise (value_error (codes "WAL corrupt"))
continue more (found r rest) = do rs ← more rest; ok (r ∷ rs)

-- `while True` on fuel: each round consumes at least eight bytes.
unfoldable pub scan : ℕ → Digest → Bytes → Result (List Record)
scan zero d file = ok []
scan (suc fuel) d file = continue (scan fuel d) (next_record d file)

unfoldable pub scan_all : Digest → Bytes → Result (List Record)
scan_all d file = scan (suc (length file)) d file

-- A file that is not there has no records.
unfoldable pub iter_records : Digest → Option Bytes → Result (List Record)
iter_records d none = ok []
iter_records d (some file) = scan_all d file
