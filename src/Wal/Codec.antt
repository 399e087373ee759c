-- ===== src/Wal/Codec.antt =====
-- api/wal.py: record types, the binary layout of `BEGIN_FMT` and `COMMIT_FMT`, checksums.
-- SHA-256 (hashlib) is a parameter, of which only the digest's size is used.
use unlearning.Prelude.{
  ℕ, zero, suc, ◌+◌, ◌*◌, ◌/◌, ◌%◌, ◌^◌, ◌<◌, ◌≡◌, List, [], ◌∷◌, ◌++◌, arith, length,
}
use native.Mathlib.Nat.{pow-suc}
use unlearning.Prelude.Text.{codes}

abbrev pub Bytes : Type 0
Bytes = List ℕ

-- hashlib.sha256(payload).digest()
pub record Digest : Type 0 where
  pub sha256 : Bytes → Bytes
  pub length-sha256 : (payload : Bytes) → length (sha256 payload) ≡ 32

pub record BeginDelete : Type 0 where
  pub timestamp : ℕ
  pub transaction_id : ℕ
  pub target_node_id : ℕ
  pub max_m : ℕ
  pub checksum : Bytes

pub record Commit : Type 0 where
  pub timestamp : ℕ
  pub transaction_id : ℕ
  pub checksum : Bytes

pub data Record : Type 0 where
  begin_delete : BeginDelete → Record
  commit : Commit → Record

-- Little-endian integers of `w` bytes, as `struct` packs and unpacks them.
unfoldable pub le_bytes : ℕ → ℕ → Bytes
le_bytes zero n = []
le_bytes (suc w) n = n % 256 ∷ le_bytes w (n / 256)

unfoldable pub from_le : Bytes → ℕ
from_le [] = 0
from_le (b ∷ bs) = b + 256 * from_le bs

abbrev pub magic_begin : Bytes
magic_begin = codes "WDEL"

abbrev pub magic_commit : Bytes
magic_commit = codes "WCMT"

abbrev pub rec_begin_delete : ℕ
rec_begin_delete = 1

abbrev pub rec_commit : ℕ
rec_commit = 2

abbrev pub begin_size : ℕ
begin_size = 72

abbrev pub commit_size : ℕ
commit_size = 56

-- `_checksum_begin` and `_checksum_commit`
unfoldable pub checksum_begin : Digest → ℕ → ℕ → ℕ → ℕ → Bytes
checksum_begin d ts tx node m =
    d.sha256 (le_bytes 8 ts ++ (le_bytes 8 tx ++ (le_bytes 8 node ++ le_bytes 4 m)))

unfoldable pub checksum_commit : Digest → ℕ → ℕ → Bytes
checksum_commit d ts tx = d.sha256 (le_bytes 8 ts ++ le_bytes 8 tx)

-- The blob of a record: magic, type, padding, payload, digest.
unfoldable pub pack_begin : ℕ → ℕ → ℕ → ℕ → Bytes → Bytes
unfolding le_bytes
pack_begin ts tx node m digest =
    magic_begin
    ++ (rec_begin_delete ∷ 0 ∷ 0 ∷ 0 ∷ [])
    ++ (le_bytes 8 ts
        ++ (le_bytes 8 tx ++ (le_bytes 8 node ++ (le_bytes 4 m ++ (le_bytes 4 0 ++ digest)))))

unfoldable pub pack_commit : ℕ → ℕ → Bytes → Bytes
unfolding le_bytes
pack_commit ts tx digest =
    magic_commit ++ (rec_commit ∷ 0 ∷ 0 ∷ 0 ∷ []) ++ (le_bytes 8 ts ++ (le_bytes 8 tx ++ digest))

unfoldable pub pack_record : Record → Bytes
unfolding pack_begin pack_commit
pack_record (begin_delete b) =
    pack_begin b.timestamp b.transaction_id b.target_node_id b.max_m b.checksum
pack_record (commit c) = pack_commit c.timestamp c.transaction_id c.checksum

unfoldable pub pack_all : List Record → Bytes
pack_all [] = []
pack_all (r ∷ rs) = pack_record r ++ pack_all rs

-- Packing and unpacking an integer that fits is the identity.
pub from_le-le_bytes : (w n : ℕ) → n < 256 ^ w → from_le (le_bytes w n) ≡ n
unfolding le_bytes from_le
from_le-le_bytes zero n h = omega arith
from_le-le_bytes (suc w) n h =
    let small : n / 256 < 256 ^ w = omega (arith, pow-suc 256 w) in
    omega (arith, from_le-le_bytes w (n / 256) small)
