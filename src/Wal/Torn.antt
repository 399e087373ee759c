-- ===== src/Wal/Torn.antt =====
-- Crashes in the middle of an append: what the reader of api/wal.py makes of a torn tail, and of
-- records that are appended behind one.
use mathlib.Core.List.{append-nil}
use unlearning.Prelude.{
  subst, ℕ, zero, suc, ◌≤◌, ◌<◌, ◌≡◌, refl, ap, ◌∙◌, List, [], ◌++◌, arith, length, take, drop, All,
  length-take, lt→ltb, ok, raise, value_error,
}
use unlearning.Prelude.Text.{codes}
use unlearning.Wal.Codec.{
  Bytes, Digest, Record, begin_delete, commit, pack_begin, pack_commit, pack_record, pack_all,
}
use unlearning.Wal.Scan.{
  stop, corrupt, continue, next_record, scan, read_begin, read_commit, scan_all,
}
use unlearning.Wal.Roundtrip.{IsWritten, scan_all-loop, scan-pack_all}

-- The size of a record of this kind.
abbrev pub size : Record → ℕ
size (begin_delete b) = 72
size (commit c) = 56

short_body : (k n : ℕ) (xs : Bytes) → k < n → length (take n (take k xs)) < n
short_body k n xs h = omega (arith, length-take n (take k xs), length-take k xs)

torn_begin :
    (d : Digest) (n ts tx node m : ℕ) (digest : Bytes)
    → n < 72
    → next_record d (take n (pack_begin ts tx node m digest)) ≡ stop
unfolding next_record read_begin pack_begin
torn_begin d zero ts tx node m digest h = refl
torn_begin d (suc zero) ts tx node m digest h = refl
torn_begin d (suc (suc zero)) ts tx node m digest h = refl
torn_begin d (suc (suc (suc zero))) ts tx node m digest h = refl
torn_begin d (suc (suc (suc (suc zero)))) ts tx node m digest h = refl
torn_begin d (suc (suc (suc (suc (suc zero))))) ts tx node m digest h = refl
torn_begin d (suc (suc (suc (suc (suc (suc zero)))))) ts tx node m digest h = refl
torn_begin d (suc (suc (suc (suc (suc (suc (suc zero))))))) ts tx node m digest h = refl
torn_begin d (suc (suc (suc (suc (suc (suc (suc (suc k)))))))) ts tx node m digest h =
    rw (lt→ltb _ 64 (short_body k 64 (drop 8 (pack_begin ts tx node m digest)) (omega arith)))

torn_commit :
    (d : Digest) (n ts tx : ℕ) (digest : Bytes)
    → n < 56
    → next_record d (take n (pack_commit ts tx digest)) ≡ stop
unfolding next_record read_commit pack_commit
torn_commit d zero ts tx digest h = refl
torn_commit d (suc zero) ts tx digest h = refl
torn_commit d (suc (suc zero)) ts tx digest h = refl
torn_commit d (suc (suc (suc zero))) ts tx digest h = refl
torn_commit d (suc (suc (suc (suc zero)))) ts tx digest h = refl
torn_commit d (suc (suc (suc (suc (suc zero))))) ts tx digest h = refl
torn_commit d (suc (suc (suc (suc (suc (suc zero)))))) ts tx digest h = refl
torn_commit d (suc (suc (suc (suc (suc (suc (suc zero))))))) ts tx digest h = refl
torn_commit d (suc (suc (suc (suc (suc (suc (suc (suc k)))))))) ts tx digest h =
    rw (lt→ltb _ 48 (short_body k 48 (drop 8 (pack_commit ts tx digest)) (omega arith)))

torn_record :
    (d : Digest) (n : ℕ) (r : Record) → n < size r → next_record d (take n (pack_record r)) ≡ stop
unfolding pack_record
torn_record d n (begin_delete b) h = torn_begin d n _ _ _ _ _ h
torn_record d n (commit c) h = torn_commit d n _ _ _ h

-- A crash in the middle of an append behind whole records loses none of them: the reader returns
-- the earlier records and ignores the torn tail, wherever inside the record the write stopped.
pub scan_all-torn :
    (d : Digest) (rs : List Record) (r : Record) (n : ℕ)
    → All (IsWritten d) rs
    → n < size r
    → scan_all d (pack_all rs ++ take n (pack_record r)) ≡ ok rs
scan_all-torn d rs r n h short =
    scan-pack_all d rs (take n (pack_record r)) h
    ∙ rw
        (scan_all-loop d (take n (pack_record r))
          ∙ ap (continue (scan_all d)) (torn_record d n r short))
        (ap ok (append-nil rs))

scan_all-nil : (d : Digest) → scan_all d [] ≡ ok []
unfolding scan_all scan next_record
scan_all-nil d = refl

-- A whole file is read back.
pub scan_all-pack_all :
    (d : Digest) (rs : List Record) → All (IsWritten d) rs → scan_all d (pack_all rs) ≡ ok rs
scan_all-pack_all d rs h =
    subst (λ file. scan_all d file ≡ ok rs) (append-nil (pack_all rs))
      (scan-pack_all d rs [] h ∙ rw (scan_all-nil d) (ap ok (append-nil rs)))

misaligned :
    (d : Digest) (n : ℕ) (r r' : Record) (rest : Bytes)
    → 1 ≤ n
    → n ≤ 4
    → next_record d (take n (pack_record r) ++ (pack_record r' ++ rest)) ≡ corrupt
unfolding next_record pack_record
misaligned d zero r r' rest lo hi = absurd (omega arith)
misaligned d (suc zero) (begin_delete b) (begin_delete b') rest lo hi = refl
misaligned d (suc zero) (begin_delete b) (commit c') rest lo hi = refl
misaligned d (suc zero) (commit c) (begin_delete b') rest lo hi = refl
misaligned d (suc zero) (commit c) (commit c') rest lo hi = refl
misaligned d (suc (suc zero)) (begin_delete b) (begin_delete b') rest lo hi = refl
misaligned d (suc (suc zero)) (begin_delete b) (commit c') rest lo hi = refl
misaligned d (suc (suc zero)) (commit c) (begin_delete b') rest lo hi = refl
misaligned d (suc (suc zero)) (commit c) (commit c') rest lo hi = refl
misaligned d (suc (suc (suc zero))) (begin_delete b) (begin_delete b') rest lo hi = refl
misaligned d (suc (suc (suc zero))) (begin_delete b) (commit c') rest lo hi = refl
misaligned d (suc (suc (suc zero))) (commit c) (begin_delete b') rest lo hi = refl
misaligned d (suc (suc (suc zero))) (commit c) (commit c') rest lo hi = refl
misaligned d (suc (suc (suc (suc zero)))) (begin_delete b) (begin_delete b') rest lo hi = refl
misaligned d (suc (suc (suc (suc zero)))) (begin_delete b) (commit c') rest lo hi = refl
misaligned d (suc (suc (suc (suc zero)))) (commit c) (begin_delete b') rest lo hi = refl
misaligned d (suc (suc (suc (suc zero)))) (commit c) (commit c') rest lo hi = refl
misaligned d (suc (suc (suc (suc (suc k))))) r r' rest lo hi = absurd (omega arith)

-- The torn tail stays in the file. A later append goes behind it, and then, when the tail has one
-- to four bytes, every read of the file raises: the records before the tail are lost to recovery.
pub scan_all-append_after_torn :
    (d : Digest) (rs : List Record) (n : ℕ) (r r' : Record) (rest : Bytes)
    → All (IsWritten d) rs
    → 1 ≤ n
    → n ≤ 4
    → scan_all d (pack_all rs ++ (take n (pack_record r) ++ (pack_record r' ++ rest)))
      ≡ raise (value_error (codes "WAL corrupt"))
scan_all-append_after_torn d rs n r r' rest h lo hi =
    scan-pack_all d rs _ h
    ∙ rw
        (scan_all-loop d (take n (pack_record r) ++ (pack_record r' ++ rest))
          ∙ ap (continue (scan_all d)) (misaligned d n r r' rest lo hi))
        refl
