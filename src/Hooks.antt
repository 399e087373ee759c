-- ===== src/Hooks.antt =====
-- integrations/hooks.py: the hooks of the workflow's steps. The HTTP client, JSON, the texts of numbers,
-- of exceptions and of lists, and the clock are parameters; the latency is left out, and the timeout is a natural number. What a hook
-- returns is a record with the fields of the source's dictionary.
pub mod Shredding
pub mod Config
mod Tests
use unlearning.Prelude.{
  ℕ, Bool, true, false, not, Option, none, some, List, [], ◌∷◌, ◌++◌, take, map, leb, if◌then◌else◌,
  Str, Exn, runtime_error, other, Result, ok, raise,
}
use unlearning.Prelude.Dict.{Dict, get, put, is_some}
use unlearning.Prelude.Eq.{str_eq}
use unlearning.Prelude.Text.{codes}

-- `default` for an attribute that is missing
abbrev pub getattr_or {ℓ} : {A : Type ℓ} → A → Option A → A
getattr_or default none = default
getattr_or default (some a) = a

pub record WebhookHook : Type 0 where
  pub url : Str
  pub event : Str
  pub timeout_s : ℕ
  pub headers : Dict Str Str

abbrev pub with_content_type : Dict Str Str → Dict Str Str
with_content_type headers =
    if is_some (get (codes "Content-Type") headers)
    then headers
    else put (codes "Content-Type") (codes "application/json") headers

abbrev pub with_api_key : Option Str → Dict Str Str → Dict Str Str
with_api_key none headers = headers
with_api_key (some []) headers = headers
with_api_key (some (c ∷ key)) headers = put (codes "X-API-Key") (c ∷ key) headers

-- `HttpWebhookHook.__init__`
unfoldable pub new_webhook : Str → Str → ℕ → Option (Dict Str Str) → Option Str → WebhookHook
new_webhook url event timeout_s headers api_key = record {
  url = url;
  event = event;
  timeout_s = timeout_s;
  headers = with_api_key api_key (with_content_type (getattr_or [] headers));
}

pub record Payload : Type 0 where
  pub event : Str
  pub collection : Str
  pub ids : List Str
  pub request_id : Str
  pub reason : Option Str
  pub timestamp_unix_ns : ℕ

-- How `urlopen` ended: a response, an `HTTPError` or a `URLError`.
pub data Opened : Type 0 where
  responded : Option ℕ → Str → Opened
  http_error : ℕ → Str → Opened
  url_error : Str → Opened

pub record WebhookResult : Type 0 where
  pub ok_flag : Bool
  pub http_status : ℕ
  pub response : Str
  pub url : Str
  pub event : Str

-- `decimal` prints a number, `repr` some bytes, and `to_json` is the request's body.
module _ (decimal : ℕ → Str) (repr : Str → Str) (to_json : Payload → Str)
    (urlopen : Str → Dict Str Str → ℕ → Str → Opened) where
  abbrev pub webhook_answer : WebhookHook → Opened → Result WebhookResult
  webhook_answer hook (responded status body) =
      let code = getattr_or 200 status in
      if leb 400 code
      then raise
          (runtime_error (codes "webhook HTTP " ++ (decimal code ++ (codes ": " ++ take 200 body))))
      else ok (record {
        ok_flag = true;
        http_status = code;
        response = take 500 body;
        url = hook.url;
        event = hook.event;
      })
  webhook_answer hook (http_error code body) = raise (
      runtime_error
        (codes "webhook HTTP " ++ (decimal code ++ (codes ": " ++ repr (take 200 body)))))
  webhook_answer hook (url_error text) =
      raise (runtime_error (codes "webhook unreachable: " ++ text))

  -- `HttpWebhookHook.__call__`
  unfoldable pub call_webhook :
      WebhookHook → Str → List Str → Str → Option Str → ℕ → Result WebhookResult
  call_webhook hook collection ids request_id reason now =
      let payload : Payload = record {
        event = hook.event;
        collection = collection;
        ids = ids;
        request_id = request_id;
        reason = reason;
        timestamp_unix_ns = now;
      } in
      webhook_answer hook (urlopen hook.url hook.headers hook.timeout_s (to_json payload))

  -- What `as_document_store_hook` and `as_backup_ack_hook` return.
  unfoldable pub as_hook : WebhookHook → Str → List Str → ℕ → Result WebhookResult
  as_hook hook collection ids now = call_webhook hook collection ids [] none now

-- What `vault.shred` returned: a receipt, or a value by its truth.
pub data ShredAnswer : Type 0 where
  receipt : Bool → Option Str → ShredAnswer
  plain : Bool → ShredAnswer

-- The vault that a hook was made for.
pub record ShredVault : Type 1 where
  pub V : Type 0
  pub has_shred : Bool
  pub shred : Str → V → Result ShredAnswer × V

pub record ShredResult : Type 0 where
  pub entity_id : Str
  pub shredded : Bool
  pub message : Option Str
  pub error : Option Str

abbrev pub answered : Str → ShredAnswer → ShredResult
answered eid (receipt done message) = record {
  entity_id = eid;
  shredded = done;
  message = some (getattr_or (codes "ok") message);
  error = none;
}
answered eid (plain done) = record {
  entity_id = eid;
  shredded = done;
  message = none;
  error = none;
}

-- `[r for r in results if not r.get("shredded")]`
unfoldable pub failed_of : List ShredResult → List ShredResult
failed_of [] = []
failed_of (r ∷ rs) = let rest = failed_of rs in if r.shredded then rest else r ∷ rest

module _ (vault : ShredVault) (exn_text : Exn → Str) (results_text : List ShredResult → Str) where
  abbrev pub result_of : Str → Result ShredAnswer → ShredResult
  result_of eid (ok answer) = answered eid answer
  result_of eid (raise x) = record {
    entity_id = eid;
    shredded = false;
    message = none;
    error = some (exn_text x);
  }

  -- The body of the loop of `make_crypto_shred_hook`.
  unfoldable pub shred_one : Str → vault.V → ShredResult × vault.V
  shred_one eid v =
      let (answer, v') = vault.shred eid v in
      if vault.has_shred
      then (result_of eid answer, v')
      else (result_of eid (raise (other (codes "vault has no shred()"))), v)

  unfoldable pub shred_all : List Str → vault.V → List ShredResult × vault.V
  shred_all [] v = ([], v)
  shred_all (eid ∷ ids) v =
      let (r, v') = shred_one eid v in let (rs, v'') = shred_all ids v' in (r ∷ rs, v'')

  abbrev pub checked : List ShredResult → List ShredResult → Result (List ShredResult)
  checked [] results = ok results
  checked (f ∷ failed) results =
      raise (runtime_error (codes "crypto_shred failed for: " ++ results_text (f ∷ failed)))

  -- The hook of `make_crypto_shred_hook`.
  unfoldable pub crypto_shred_hook : List Str → vault.V → Result (List ShredResult) × vault.V
  crypto_shred_hook ids v =
      let (results, v') = shred_all ids v in (checked (failed_of results) results, v')

-- An ack by the attributes that it has.
pub record AckView : Type 0 where
  pub replica_id : Option Str
  pub success : Option Bool
  pub message : Option Str

pub record AckResult : Type 0 where
  pub replica_id : Str
  pub success : Bool
  pub message : Str

abbrev pub ack_result : AckView → AckResult
ack_result a = record {
  replica_id = getattr_or (codes "?") a.replica_id;
  success = getattr_or false a.success;
  message = getattr_or [] a.message;
}

-- What `publish` returned: an object with `quorum_met`, a dictionary by that key, or another value.
pub data Published : Type 0 where
  outcome : Bool → List AckView → Published
  mapping : Option Bool → Str → Published
  value : Str → Published

pub data FanoutResult : Type 0 where
  quorum : Bool → List AckResult → FanoutResult
  as_given : Published → FanoutResult
  as_text : Str → FanoutResult

-- The hook of `make_replica_fanout_hook`, on what `publish` returned; `show` prints a result.
unfoldable pub replica_fanout_hook : (FanoutResult → Str) → Published → Result FanoutResult
replica_fanout_hook show (outcome met acks) =
    let payload = quorum met (map ack_result acks) in
    if met
    then ok payload
    else raise (runtime_error (codes "replica quorum not met: " ++ show payload))
replica_fanout_hook show (mapping met text) =
    let given = as_given (mapping met text) in
    if getattr_or true met
    then ok given
    else raise (runtime_error (codes "replica quorum not met: " ++ show given))
replica_fanout_hook show (value text) = ok (as_text text)

pub record BackupAck : Type 0 where
  pub collection : Str
  pub ids : List Str
  pub acked : Bool
  pub policy : Str
  pub timestamp_unix_ns : ℕ

-- `LocalBackupAckHook`
pub record LocalBackupAckHook : Type 0 where
  pub auto_ack : Bool
  pub acks : List BackupAck

abbrev pub backup_ack : Str → List Str → ℕ → BackupAck
backup_ack collection ids now = record {
  collection = collection;
  ids = ids;
  acked = true;
  policy = codes "local_auto_ack_dev_only";
  timestamp_unix_ns = now;
}

unfoldable pub call_backup_ack :
    Str → List Str → ℕ → LocalBackupAckHook → Result BackupAck × LocalBackupAckHook
call_backup_ack collection ids now hook =
    let rec = backup_ack collection ids now in
    if not hook.auto_ack
    then (
      raise (runtime_error (codes "backup ack requires operator confirmation (auto_ack=False)")),
      hook,
    )
    else (ok rec, record hook { acks = hook.acks ++ (rec ∷ []) })
