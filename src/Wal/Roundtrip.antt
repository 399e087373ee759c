-- ===== src/Wal/Roundtrip.antt =====
-- Reading back what was packed (api/wal.py): one record, and a whole file.
use mathlib.Core.List.{append_assoc}
use unlearning.Prelude.{
  if-cases, ltb, ltb→le, ◌==◌, ◌&&◌, Bool, ℕ, zero, suc, ◌^◌, ◌<◌, ◌≡◌, refl, ap, ◌∙◌, true, false,
  not, List, [], ◌∷◌, ◌++◌, arith, length, take, drop, All, length-drop, length-take, inl, inr,
  take-append, drop-append, if◌then◌else◌, Result, ok, raise, ◌>>=◌, subst,
}
use unlearning.Prelude.Eq.{str_beq, str_beq_iff}
use unlearning.Wal.Codec.{
  magic_begin, magic_commit, Bytes, Digest, Record, begin_delete, commit, le_bytes, from_le,
  checksum_begin, checksum_commit, pack_begin, pack_commit, pack_record, pack_all, from_le-le_bytes,
}
use unlearning.Wal.Scan.{
  continue, type_byte, Next, stop, corrupt, found, next_record, read_begin, read_commit, scan,
  scan_all,
}

-- The fields fit their columns and the digest is that of the payload: what `Log` writes.
abbrev pub IsWritten : Digest → Record → Type 0
IsWritten d (begin_delete b) =
    (b.timestamp < 256 ^ 8)
    × (b.transaction_id < 256 ^ 8)
    × (b.target_node_id < 256 ^ 8)
    × (b.max_m < 256 ^ 4)
    × (b.checksum ≡ checksum_begin d b.timestamp b.transaction_id b.target_node_id b.max_m)
IsWritten d (commit c) =
    (c.timestamp < 256 ^ 8)
    × (c.transaction_id < 256 ^ 8)
    × (c.checksum ≡ checksum_commit d c.timestamp c.transaction_id)

-- The digest that a record carries.
abbrev pub checksum : Record → Bytes
checksum (begin_delete b) = b.checksum
checksum (commit c) = c.checksum

ok_bind : (m : Result (List Record)) → m ≡ (m >>= λ ts. ok ts)
ok_bind (ok ts) = refl
ok_bind (raise e) = refl

ok_cons :
    (r : Record) (rs : List Record) (m : Result (List Record))
    → ((m >>= λ ts. ok (rs ++ ts)) >>= λ ts. ok (r ∷ ts)) ≡ (m >>= λ ts. ok (r ∷ rs ++ ts))
ok_cons r rs (ok ts) = refl
ok_cons r rs (raise e) = refl

take_digest : (digest rest : Bytes) → length digest ≡ 32 → take 32 (digest ++ rest) ≡ digest
take_digest digest rest h =
    subst (λ n. take n (digest ++ rest) ≡ digest) h (take-append digest rest)

drop_digest : (digest rest : Bytes) → length digest ≡ 32 → drop 32 (digest ++ rest) ≡ rest
drop_digest digest rest h = subst (λ n. drop n (digest ++ rest) ≡ rest) h (drop-append digest rest)

pub next-pack_begin :
    (d : Digest) (ts tx node m : ℕ) (digest rest : Bytes)
    → ts < 256 ^ 8
    → tx < 256 ^ 8
    → node < 256 ^ 8
    → m < 256 ^ 4
    → length digest ≡ 32
    → next_record d (pack_begin ts tx node m digest ++ rest) ≡ (
        if not (str_beq digest (checksum_begin d ts tx node m))
        then corrupt
        else found
            (begin_delete (record {
              timestamp = ts;
              transaction_id = tx;
              target_node_id = node;
              max_m = m;
              checksum = digest;
            }))
            rest)
unfolding next_record read_begin pack_begin
next-pack_begin d ts tx node m digest rest h1 h2 h3 h4 h5 =
    let e1 : from_le (le_bytes 8 ts) ≡ ts = from_le-le_bytes 8 ts h1 in
    let e2 : from_le (le_bytes 8 tx) ≡ tx = from_le-le_bytes 8 tx h2 in
    let e3 : from_le (le_bytes 8 node) ≡ node = from_le-le_bytes 8 node h3 in
    let e4 : from_le (le_bytes 4 m) ≡ m = from_le-le_bytes 4 m h4 in
    rw (take_digest digest rest h5, drop_digest digest rest h5, h5, e1, e2, e3, e4) refl

pub next-pack_commit :
    (d : Digest) (ts tx : ℕ) (digest rest : Bytes)
    → ts < 256 ^ 8
    → tx < 256 ^ 8
    → length digest ≡ 32
    → next_record d (pack_commit ts tx digest ++ rest) ≡ (
        if not (str_beq digest (checksum_commit d ts tx))
        then corrupt
        else found
            (commit (record { timestamp = ts; transaction_id = tx; checksum = digest }))
            rest)
unfolding next_record read_commit pack_commit
next-pack_commit d ts tx digest rest h1 h2 h5 =
    let e1 : from_le (le_bytes 8 ts) ≡ ts = from_le-le_bytes 8 ts h1 in
    let e2 : from_le (le_bytes 8 tx) ≡ tx = from_le-le_bytes 8 tx h2 in
    rw (take_digest digest rest h5, drop_digest digest rest h5, h5, e1, e2) refl

length-checksum_begin :
    (d : Digest) (ts tx node m : ℕ) → length (checksum_begin d ts tx node m) ≡ 32
unfolding checksum_begin
length-checksum_begin d ts tx node m = d.length-sha256 _

length-checksum_commit : (d : Digest) (ts tx : ℕ) → length (checksum_commit d ts tx) ≡ 32
unfolding checksum_commit
length-checksum_commit d ts tx = d.length-sha256 _

pub length-checksum : (d : Digest) (r : Record) → IsWritten d r → length (checksum r) ≡ 32
length-checksum d (begin_delete b) h = rw (h.4) (length-checksum_begin d _ _ _ _)
length-checksum d (commit c) h = rw (h.2) (length-checksum_commit d _ _)

-- A record that was written is read back, and the bytes behind it are left.
pub next-pack_record :
    (d : Digest) (r : Record) (rest : Bytes)
    → IsWritten d r
    → next_record d (pack_record r ++ rest) ≡ found r rest
unfolding pack_record
next-pack_record d (begin_delete b) rest h =
    rw
      (next-pack_begin d b.timestamp b.transaction_id b.target_node_id b.max_m b.checksum rest h.0
        h.1 h.2 h.3 (length-checksum d (begin_delete b) h))
      (rw ((str_beq_iff b.checksum _).1 h.4) refl)
next-pack_record d (commit c) rest h =
    rw
      (next-pack_commit d c.timestamp c.transaction_id c.checksum rest h.0 h.1
        (length-checksum d (commit c) h))
      (rw ((str_beq_iff c.checksum _).1 h.2) refl)

checked-rest :
    (short bad : Bool) (r₀ : Record) {r : Record} {rest₀ rest : Bytes}
    → (if short then stop else if bad then corrupt else found r₀ rest₀) ≡ found r rest
    → rest ≡ rest₀
checked-rest true bad r₀ h = cc
checked-rest false true r₀ h = cc
checked-rest false false r₀ h = cc

read_begin-rest :
    (d : Digest) (head after : Bytes) {r : Record} {rest : Bytes}
    → read_begin d head after ≡ found r rest
    → rest ≡ drop 64 after
unfolding read_begin
read_begin-rest d head after h = checked-rest _ _ _ h

read_commit-rest :
    (d : Digest) (head after : Bytes) {r : Record} {rest : Bytes}
    → read_commit d head after ≡ found r rest
    → rest ≡ drop 48 after
unfolding read_commit
read_commit-rest d head after h = checked-rest _ _ _ h

-- A round that finds a record consumes bytes.
pub next-shorter :
    (d : Digest) (file : Bytes) {r : Record} {rest : Bytes}
    → next_record d file ≡ found r rest
    → length rest < length file
unfolding next_record
next-shorter d file h = elim (if-cases (ltb (length (take 8 file)) 8) h) [
  | inl (short, e) ↦ absurd (cc)
  | inr (long, e) ↦
      let size = ltb→le _ _ long in
      elim (if-cases (str_beq (take 4 (take 8 file)) magic_begin && type_byte (take 8 file) == 1)
        e) [
          | inl (_, b) ↦ omega (
            arith,
            length-take 8 file,
            length-drop 8 file,
            length-drop 64 (drop 8 file),
            ap length (read_begin-rest d _ _ b),
          )
          | inr (_, e') ↦
              elim (if-cases
                (str_beq (take 4 (take 8 file)) magic_commit && type_byte (take 8 file) == 2) e') [
                  | inl (_, c) ↦ omega (
                    arith,
                    length-take 8 file,
                    length-drop 8 file,
                    length-drop 48 (drop 8 file),
                    ap length (read_commit-rest d _ _ c),
                  )
                  | inr (_, bad) ↦ absurd (cc)
                ]
        ]
]

-- `continue` looks at `more` only behind a record that was found.
continue-eq :
    (n : Next) {more more' : Bytes → Result (List Record)}
    → ((r : Record) (rest : Bytes) → n ≡ found r rest → more rest ≡ more' rest)
    → continue more n ≡ continue more' n
continue-eq stop h = refl
continue-eq corrupt h = refl
continue-eq (found r rest) h = rw (h r rest refl)

-- Fuel beyond the file's length changes nothing.
pub scan_enough :
    (f g : ℕ) (d : Digest) (file : Bytes)
    → length file < f
    → length file < g
    → scan f d file ≡ scan g d file
unfolding scan
scan_enough zero g d file hf hg = absurd (omega arith)
scan_enough (suc f) zero d file hf hg = absurd (omega arith)
scan_enough (suc f) (suc g) d file hf hg = continue-eq (next_record d file) λ r rest e.
    let less = next-shorter d file e in scan_enough f g d rest (omega arith) (omega arith)

-- The reader is the loop of the source, whatever the file: no fuel shows.
pub scan_all-loop :
    (d : Digest) (file : Bytes) → scan_all d file ≡ continue (scan_all d) (next_record d file)
unfolding scan_all scan
scan_all-loop d file = continue-eq (next_record d file) λ r rest e.
    scan_enough (length file) (suc (length rest)) d rest (next-shorter d file e) (omega arith)

-- Records whose fields fit their columns and whose digests are theirs are read back, before
-- whatever stands behind them.
pub scan-pack_all :
    (d : Digest) (rs : List Record) (tail : Bytes)
    → All (IsWritten d) rs
    → scan_all d (pack_all rs ++ tail) ≡ (scan_all d tail >>= λ ts. ok (rs ++ ts))
unfolding pack_all
scan-pack_all d [] tail h = ok_bind (scan_all d tail)
scan-pack_all d (r ∷ rs) tail h = rw (append_assoc (pack_record r) (pack_all rs) tail) (
    scan_all-loop d _
    ∙ (ap (continue (scan_all d)) (next-pack_record d r (pack_all rs ++ tail) h.0)
        ∙ rw (scan-pack_all d rs tail h.1) (ok_cons r rs (scan_all d tail))))
