-- ===== src/Hooks/Config.antt =====
-- integrations/hooks_config.py: which hooks the environment asks for. A hook is described by the object
-- that it is made of; log output is left out.
use unlearning.Prelude.{Bool, true, Option, none, some, [], ◌∷◌, if◌then◌else◌, Str}
use unlearning.Prelude.Dict.{get}
use unlearning.Prelude.Eq.{str_eq, elem}
use unlearning.Prelude.Text.{codes, strip, lower, is_empty}
use unlearning.Auth.{Env, get_or}
use unlearning.Hooks.{WebhookHook, LocalBackupAckHook, new_webhook}
use unlearning.Shred.{Vault, new_vault}

pub data BackupHook : Type 0 where
  webhook : WebhookHook → BackupHook
  local : LocalBackupAckHook → BackupHook

pub record HooksConfig : Type 0 where
  pub document_store : Option WebhookHook
  -- the vault that the hook is made for
  pub crypto_shred : Option Vault
  -- the data directory of the outbox
  pub replica_fanout : Option Str
  pub backup_ack : Option BackupHook

unfoldable pub env_flag : Str → Env → Bool
env_flag name env =
    elem (lower (strip (get_or name [] env)))
      (codes "1" ∷ codes "true" ∷ codes "yes" ∷ codes "on" ∷ [])

-- A webhook for the URL of the variable, if it has one; `timeout_s` is the default, 10.
unfoldable pub webhook_from_env : Str → Str → Env → Option WebhookHook
webhook_from_env name event env =
    let url = strip (get_or name [] env) in
    if is_empty url
    then none
    else some (new_webhook url event 10 none (get (codes "HEALER_WEBHOOK_API_KEY") env))

abbrev pub backup_from_env : Env → Option BackupHook
backup_from_env env =
    elim (webhook_from_env (codes "HEALER_WEBHOOK_BACKUP_ACK") (codes "backup_ack") env) [
      | some hook ↦ some (webhook hook)
      | none ↦
          if env_flag (codes "HEALER_LOCAL_BACKUP_ACK") env
          then some (local (record { auto_ack = true; acks = [] }))
          else none
    ]

unfoldable pub build_hooks_from_env : Str → Env → HooksConfig
build_hooks_from_env data_dir env = record {
  document_store =
      webhook_from_env (codes "HEALER_WEBHOOK_DOCUMENT_STORE") (codes "document_store_delete") env;
  crypto_shred = if env_flag (codes "HEALER_CRYPTO_SHRED") env then some new_vault else none;
  replica_fanout = if env_flag (codes "HEALER_OUTBOX_REPLICA") env then some data_dir else none;
  backup_ack = backup_from_env env;
}
