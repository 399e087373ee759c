-- ===== src/Registry/Names.antt =====
-- `_norm_collection` and `_norm_external`: names are stripped, and must not be empty.
use unlearning.Prelude.{◌≡◌, arith, if◌then◌else◌, Str, Result, ok, raise, value_error}
use unlearning.Prelude.Text.{codes, strip, is_empty, strip_idem}

unfoldable pub norm_collection : Str → Result Str
norm_collection collection =
    let coll = strip collection in
    if is_empty coll
    then raise (value_error (codes "collection must be a non-empty string"))
    else ok coll

unfoldable pub norm_external : Str → Result Str
norm_external external_id =
    let ext = strip external_id in
    if is_empty ext
    then raise (value_error (codes "external_id must be a non-empty string"))
    else ok ext

-- A name that was normalised is itself normal.
pub norm_collection_idem :
    (collection : Str) {coll : Str}
    → norm_collection collection ≡ ok coll
    → norm_collection coll ≡ ok coll
unfolding norm_collection
norm_collection_idem collection {coll} h = ground (arith, strip_idem collection)

pub norm_external_idem :
    (external_id : Str) {ext : Str}
    → norm_external external_id ≡ ok ext
    → norm_external ext ≡ ok ext
unfolding norm_external
norm_external_idem external_id {ext} h = ground (arith, strip_idem external_id)
