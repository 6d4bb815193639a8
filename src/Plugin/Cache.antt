-- ===== src/Plugin/Cache.antt =====
-- The cache of API clients: what a hit, a configuration update and housekeeping do to it.
use hcvault_mashery_api_auth.Prelude.{
  ℤ, ltb_ℤ, eqb_ℤ, String, ◌≡◌, refl, ap, ◌∙◌, subst, ◌⊎◌, inl, inr, Bool, true, false, Option,
  none, some, List, [], ◌∷◌, arith, ◌==◌, eq_iff, if◌then◌else◌,
}
use hcvault_mashery_api_auth.Time.{add64}
use hcvault_mashery_api_auth.Role.{StoredRole}
use hcvault_mashery_api_auth.Config.{BackendConfiguration, tls_pinning_system}
use hcvault_mashery_api_auth.Env.{Env, OAuthParams, V3Client}
use hcvault_mashery_api_auth.Plugin.{
  Cached, AuthPlugin, find, insert, drop_idle, http_idle, client_lookup_key, v2_signature_for,
  tls_of, pinning_of, oauth_params, get_oauth_helper, accept_configuration_update, new_v3_client,
  get_mashery_v3_client, new_v2_client, get_mashery_v2_client, housekeeping,
}

module _ {C : Type 0} (P : C → Type 0) where
  abbrev pub Every : List (String × C) → Type 0
  Every [] = Unit
  Every ((k, c) ∷ rest) = P c × Every rest

module _ {C : Type 0} where
  find-Every :
      (P : C → Type 0) (key : String) (l : List (String × C)) (c : C)
      → Every P l
      → find key l ≡ some c
      → P c
  find-Every P key [] c h e = absurd (ground arith)
  find-Every P key ((k, d) ∷ rest) c (p, h) e = split (k == key) (find-Every P key rest c h) e
    where
      split :
          (b : Bool)
          → (find key rest ≡ some c → P c)
          → (if b then some d else find key rest) ≡ some c
          → P c
      split true f e' = subst P (some-inj e') p
        where
          some-inj : {x y : C} → some x ≡ some y → x ≡ y
          some-inj q = ground arith
      split false f e' = f e'

  insert-Every :
      (P : C → Type 0) (key : String) (c : C) (l : List (String × C))
      → P c
      → Every P l
      → Every P (insert key c l)
  insert-Every P key c [] p h = (p, tt)
  insert-Every P key c ((k, d) ∷ rest) p (q, h) = split (k == key) (insert-Every P key c rest p h)
    where
      split :
          (b : Bool)
          → Every P (insert key c rest)
          → Every P (if b then (key, c) ∷ rest else (k, d) ∷ insert key c rest)
      split true i = (p, h)
      split false i = (q, i)

  drop_idle-Every :
      (P : Cached C → Type 0) (cutover : ℤ) (l : List (String × Cached C))
      → Every P l
      → Every (λ c. P c × (ltb_ℤ c.last_used cutover ≡ false)) (drop_idle cutover l)
  unfolding drop_idle
  drop_idle-Every P cutover [] h = tt
  drop_idle-Every P cutover ((k, c) ∷ rest) (p, h) =
      split (ltb_ℤ c.last_used cutover) refl (drop_idle-Every P cutover rest h)
    where
      split :
          (b : Bool)
          → ltb_ℤ c.last_used cutover ≡ b
          → Every (λ x. P x × (ltb_ℤ x.last_used cutover ≡ false)) (drop_idle cutover rest)
          → Every
              (λ x. P x × (ltb_ℤ x.last_used cutover ≡ false))
              (if b then drop_idle cutover rest else (k, c) ∷ drop_idle cutover rest)
      split true e i = i
      split false e i = ((p, e), i)

  Every-weaken :
      {P Q : C → Type 0} (l : List (String × C)) → ((c : C) → P c → Q c) → Every P l → Every Q l
  Every-weaken [] f h = tt
  Every-weaken ((k, c) ∷ rest) f (p, h) = (f c p, Every-weaken rest f h)

eq_key : (k key : String) → (k == key) ≡ true → k ≡ key
eq_key k key q = ground (arith, eq_iff k key)

module _ {C : Type 0} where
  -- A map has one entry for a key.
  abbrev pub Distinct : List (String × C) → Type 0
  Distinct [] = Unit
  Distinct ((k, c) ∷ rest) = (find k rest ≡ none) × Distinct rest

  find-drop_idle-none :
      (key : String) (cutover : ℤ) (l : List (String × Cached C))
      → find key l ≡ none
      → find key (drop_idle cutover l) ≡ none
  unfolding drop_idle
  find-drop_idle-none key cutover [] e = refl
  find-drop_idle-none key cutover ((k, c) ∷ rest) e =
      ground (arith, find-drop_idle-none key cutover rest)

module _ {C : Type 0} where
  find-drop_idle :
      (key : String) (cutover : ℤ) (l : List (String × Cached C)) (c : Cached C)
      → Distinct l
      → find key l ≡ some c
      → ltb_ℤ c.last_used cutover ≡ true
      → find key (drop_idle cutover l) ≡ none
  unfolding drop_idle
  find-drop_idle key cutover [] c d e i = refl
  find-drop_idle key cutover ((k, x) ∷ rest) c (fresh, d) e i =
      split (k == key) refl e (find-drop_idle key cutover rest c d)
    where
      split :
          (b : Bool)
          → (k == key) ≡ b
          → (if b then some x else find key rest) ≡ some c
          → (find key rest ≡ some c
              → ltb_ℤ c.last_used cutover ≡ true
              → find key (drop_idle cutover rest) ≡ none)
          → find key (drop_idle cutover ((k, x) ∷ rest)) ≡ none
      split true q e' ih =
          let gone =
            subst (λ h. find h (drop_idle cutover rest) ≡ none) (eq_key k key q)
              (find-drop_idle-none k cutover rest fresh) in
          ground arith
      split false q e' ih = let gone = ih e' i in ground arith

module _ (env : Env) where
  -- A client whose TLS settings are those of this configuration.
  abbrev pub IsConfigured : BackendConfiguration → Cached V3Client → Type 0
  IsConfigured cfg c =
      (c.client.tls_config ≡ tls_of env cfg)
      × (c.client.tls_config_delegate_system ≡ eqb_ℤ (pinning_of env cfg) tls_pinning_system)

  -- The plugin's helper and all of its V3 clients follow its current configuration.
  pub record IsCoherent (b : AuthPlugin) : Type 0 where
    pub helper : (b.oauth_helper ≡ none) ⊎ (b.oauth_helper ≡ some (oauth_params env b.cfg))
    pub clients : Every (IsConfigured b.cfg) b.v3_clients

  cached_client :
      (now : ℤ) (role : StoredRole) (b : AuthPlugin) (c : Cached V3Client)
      → find (client_lookup_key b role) b.v3_clients ≡ some c
      → get_mashery_v3_client env now role b ≡ (c.client, b)
  unfolding get_mashery_v3_client
  cached_client now role b c e = ground (arith, e)

  -- After a configuration update the helper and all clients follow the new configuration, whatever
  -- they were before.
  pub accept_configuration_update-IsCoherent :
      (cfg : BackendConfiguration) (b : AuthPlugin)
      → (IsCoherent (accept_configuration_update env cfg b))
        × ((accept_configuration_update env cfg b).cfg ≡ cfg)
        × ((accept_configuration_update env cfg b).v2_clients ≡ [])
  unfolding accept_configuration_update
  accept_configuration_update-IsCoherent cfg b =
      (record { helper = inl refl; clients = tt }, refl, refl)

  -- A plugin whose helper and clients follow its configuration hands out a V3 client with the TLS
  -- settings of the current configuration, from the cache or not, and stays so.
  pub get_mashery_v3_client-IsCoherent :
      (now : ℤ) (role : StoredRole) (b : AuthPlugin)
      → IsCoherent b
      → (IsCoherent (get_mashery_v3_client env now role b).1)
        × (((get_mashery_v3_client env now role b).0).tls_config ≡ tls_of env b.cfg)
        × ((get_mashery_v3_client env now role b).1.cfg ≡ b.cfg)
  unfolding get_mashery_v3_client new_v3_client
  get_mashery_v3_client-IsCoherent now role b h =
      split (find (client_lookup_key b role) b.v3_clients) refl
    where
      key : String
      key = client_lookup_key b role

      made : Cached V3Client
      made = record { client = new_v3_client env b.cfg role; last_used = now }

      after : Option (Cached V3Client) → V3Client × AuthPlugin
      after o = elim o [
        | some cl ↦ (cl.client, b)
        | none ↦
            (new_v3_client env b.cfg role, record b { v3_clients = insert key made b.v3_clients })
      ]

      split :
          (o : Option (Cached V3Client))
          → find key b.v3_clients ≡ o
          → (IsCoherent (after o).1)
            × ((after o).0.tls_config ≡ tls_of env b.cfg)
            × ((after o).1.cfg ≡ b.cfg)
      split none e = (
        record {
          helper = h.helper;
          clients = insert-Every (IsConfigured b.cfg) key made b.v3_clients (refl, refl) h.clients;
        },
        refl,
        refl,
      )
      split (some cl) e =
          (h, (find-Every (IsConfigured b.cfg) key b.v3_clients cl h.clients e).0, refl)

  -- The OAuth helper that is handed out was made of the current configuration.
  pub get_oauth_helper-IsCoherent :
      (b : AuthPlugin)
      → IsCoherent b
      → (IsCoherent (get_oauth_helper env b).1)
        × ((get_oauth_helper env b).0 ≡ oauth_params env b.cfg)
  unfolding get_oauth_helper
  get_oauth_helper-IsCoherent b h = split b.oauth_helper h.helper
    where
      after : Option OAuthParams → OAuthParams × AuthPlugin
      after o = elim o [
        | some x ↦ (x, b)
        | none ↦ (oauth_params env b.cfg, record b { oauth_helper = some (oauth_params env b.cfg) })
      ]

      split :
          (o : Option OAuthParams)
          → (o ≡ none) ⊎ (o ≡ some (oauth_params env b.cfg))
          → (IsCoherent (after o).1) × ((after o).0 ≡ oauth_params env b.cfg)
      split none e = (record { helper = inr refl; clients = h.clients }, refl)
      split (some x) (inl e) = absurd (ground arith)
      split (some x) (inr e) = (h, ground arith)

  -- Housekeeping keeps the helper and the clients coherent, and of the clients only those that were
  -- used at the start of the idle period or after it.
  pub housekeeping-IsCoherent :
      (now : ℤ) (b : AuthPlugin)
      → IsCoherent b
      → (IsCoherent (housekeeping env now b))
        × (Every
            (λ c. ltb_ℤ c.last_used (add64 now http_idle) ≡ false)
            (housekeeping env now b).v3_clients)
  unfolding housekeeping
  housekeeping-IsCoherent now b h =
      let kept =
        drop_idle-Every (IsConfigured b.cfg) (add64 now http_idle) b.v3_clients h.clients in
      (
        record {
          helper = h.helper;
          clients = Every-weaken (drop_idle (add64 now http_idle) b.v3_clients) (λ c x. x.0) kept;
        },
        Every-weaken (drop_idle (add64 now http_idle) b.v3_clients) (λ c x. x.1) kept,
      )

  -- A cached V3 client that was made before the idle period is gone after housekeeping, even where
  -- the client was handed out for its role at the same time: its use does not count.
  pub housekeeping_of_used_client :
      (now : ℤ) (role : StoredRole) (b : AuthPlugin) (c : Cached V3Client)
      → Distinct b.v3_clients
      → find (client_lookup_key b role) b.v3_clients ≡ some c
      → ltb_ℤ c.last_used (add64 now http_idle) ≡ true
      → find
          (client_lookup_key b role)
          (housekeeping env now (get_mashery_v3_client env now role b).1).v3_clients
        ≡ none
  unfolding housekeeping
  housekeeping_of_used_client now role b c distinct e idle =
      ap
        (λ (x : V3Client × AuthPlugin).
          find (client_lookup_key b role) (drop_idle (add64 now http_idle) x.1.v3_clients))
        (cached_client now role b c e)
      ∙ find-drop_idle (client_lookup_key b role) (add64 now http_idle) b.v3_clients c distinct e
          idle

  -- A V2 client is handed out with the signature of the role and the time of the call, from the
  -- cache or not.
  pub get_mashery_v2_client-signature :
      (now : ℤ) (role : StoredRole) (b : AuthPlugin)
      → ((get_mashery_v2_client env now role b).0).signature ≡ v2_signature_for env now role
  unfolding get_mashery_v2_client new_v2_client
  get_mashery_v2_client-signature now role b = ground arith
