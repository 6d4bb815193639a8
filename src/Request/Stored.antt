-- ===== src/Request/Stored.antt =====
-- The storage service over a storage that does what it documents.
use hcvault_mashery_api_auth.Prelude.{String, ◌≡◌, ◌≢◌, Option, none, some, arith}
use hcvault_mashery_api_auth.Value.{Fields, Err, good, json, wrapped}
use hcvault_mashery_api_auth.Env.{Env, StorageLaws}
use hcvault_mashery_api_auth.Request.{persist}

module _ {env : Env} (laws : StorageLaws env) where
  put-of_persist :
      (path : String) (f : Fields) (s s' : env.Store)
      → persist env path f s ≡ (none, s')
      → env.storage_put path (json f) s ≡ (none, s')
  unfolding persist
  put-of_persist path f s s' e = put (env.storage_put path (json f) s) e
    where
      put :
          (x : Option Err × env.Store)
          → ◌≡◌ {A = Option Err × env.Store}
              (
                elim x.0 [ none ↦ none | some err ↦ some (wrapped "failed to persist object" err) ],
                x.1,
              )
              (none, s')
          → x ≡ (none, s')
      put (none, t) q = q
      put (some err, t) q = absurd (ground arith)

  -- What was persisted without an error is in the storage.
  pub get-persist :
      (path : String) (f : Fields) (s s' : env.Store)
      → persist env path f s ≡ (none, s')
      → env.storage_get path s' ≡ good (some (json f))
  get-persist path f s s' e = laws.get-put_self path (json f) s s' (put-of_persist path f s s' e)

  -- Other entries are as they were.
  pub get-persist_ne :
      (path q : String) (f : Fields) (s s' : env.Store)
      → persist env path f s ≡ (none, s')
      → path ≢ q
      → env.storage_get q s' ≡ env.storage_get q s
  get-persist_ne path q f s s' e h =
      laws.get-put_ne path q (json f) s s' (put-of_persist path f s s' e) h
