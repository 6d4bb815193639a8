-- ===== src/System/Coherent.antt =====
-- The plugin as a whole stays coherent, as every path of it keeps it so.
use hcvault_mashery_api_auth.Prelude.{String, ◌≡◌, sym, ap, ◌∙◌, subst, inl, arith}
use hcvault_mashery_api_auth.Config.{BackendConfiguration}
use hcvault_mashery_api_auth.Env.{Env}
use hcvault_mashery_api_auth.Plugin.{make_new}
use hcvault_mashery_api_auth.Plugin.Cache.{Every, IsConfigured, IsCoherent, housekeeping-IsCoherent}
use hcvault_mashery_api_auth.Request.{World}
use hcvault_mashery_api_auth.ConfigSteps.{init_on_mount}
use hcvault_mashery_api_auth.System.{
  Moves, requested, checked, kept_house, Reachable, mounted, moved,
}
use hcvault_mashery_api_auth.System.Paths.{callback_in-KeepsWorld, check-KeepsWorld, all_paths-Keep}

module _ {env : Env} (zero_cfg : BackendConfiguration) where
  Moves-IsCoherent :
      {w w' : World env} → Moves zero_cfg w w' → IsCoherent env w.plugin → IsCoherent env w'.plugin
  Moves-IsCoherent (requested p op f d body w m e) h =
      (callback_in-KeepsWorld p.operations op f (all_paths-Keep zero_cfg p m).operations_keep e d
          body).at
        w h
  Moves-IsCoherent (checked p check d body w m e) h =
      (check-KeepsWorld p.existence_check check (all_paths-Keep zero_cfg p m).check_keeps e d
          body).at
        w h
  Moves-IsCoherent (kept_house w) h = (housekeeping-IsCoherent env (env.now w.ticks) w.plugin h).0

  -- The mount changes the configuration alone.
  init_on_mount-helper :
      (w : World env) → (init_on_mount w).1.plugin.oauth_helper ≡ w.plugin.oauth_helper
  unfolding init_on_mount
  init_on_mount-helper w = ground arith

  init_on_mount-clients :
      (w : World env) → (init_on_mount w).1.plugin.v3_clients ≡ w.plugin.v3_clients
  unfolding init_on_mount
  init_on_mount-clients w = ground arith

  mounted-IsCoherent :
      (w : World env) (uuid : String)
      → w.plugin ≡ make_new zero_cfg uuid
      → IsCoherent env (init_on_mount w).1.plugin
  unfolding make_new
  mounted-IsCoherent w uuid e = record {
    helper = inl (init_on_mount-helper w ∙ ap (λ b. b.oauth_helper) e);
    clients =
        subst (λ l. Every (IsConfigured env (init_on_mount w).1.plugin.cfg) l)
          (sym (init_on_mount-clients w ∙ ap (λ b. b.v3_clients) e)) tt;
  }

  -- From the mount on, whatever requests, existence checks and housekeeping come in whatever order,
  -- and however each of them ends: the OAuth helper and every cached V3 client of the plugin have the
  -- settings of the configuration that the plugin has then.
  pub Reachable-IsCoherent : {w : World env} → Reachable zero_cfg w → IsCoherent env w.plugin
  Reachable-IsCoherent (mounted w uuid e) = mounted-IsCoherent w uuid e
  Reachable-IsCoherent (moved r m) = Moves-IsCoherent m (Reachable-IsCoherent r)
