-- ===== src/Container/Build/Errors.antt =====
-- internal/container/start.go: the errors of making a container of a block of the config.
use lstk.Container.Build.{
  mount_all, mount_extra, build_containers, volume_binds, build_container, bind_sources, Settings,
}
use lstk.Config.ExposePorts.{exposed_ports}
use lstk.Env.{env_value}
use lstk.Container.Gateway.{parse_gateway_listen}
use lstk.Config.Containers.{bad_expose_port, ContainerConfig}
use lstk.Config.Volumes.{VolumeMount}
use lstk.Container.Retry.{stale_license}
use lstk.Container.Licenses.{rejection}
use lstk.Config.Containers.{volume_dir, extra_volumes}
use lstk.Prelude.{[], ◌∷◌, List, Bool, refl}
use lstk.Text.Basic.{codes, Text, text_eq}
use lstk.Container.Actions.Outcomes.{returns, follow-Ends}
use lstk.Container.Outside.{bad_gateway, volume_dir_failed, missing_source, bad_config, Outside}
use lstk.Container.Retry.Laws.{Settles}
use lstk.Config.Containers
use lstk.Container.Start.Errors.{unless-Settles, lift-Settles}

module _ {S : Type 0} (outside : Outside S) (is_addr : Text → Bool) (o : Settings) where
  bind_sources-Settles :
      (mounts : List VolumeMount) (s : S)
      → Settles outside (bind_sources outside is_addr o mounts s)
  unfolding bind_sources rejection stale_license
  bind_sources-Settles [] s = returns _ _ tt
  bind_sources-Settles (m ∷ mounts) s =
      follow-Ends _ _
        (unless-Settles outside (outside.path_exists s m.source) (missing_source m.source) s refl
          refl)
        (λ u s₁ t. follow-Ends _ _ (bind_sources-Settles mounts s₁) (λ binds s₂ t'. returns _ _ tt))

  mount_all-Settles :
      (c : ContainerConfig) (dir : Text) (s : S)
      → Settles outside (mount_all outside is_addr o c dir s)
  unfolding rejection stale_license
  mount_all-Settles c dir s =
      follow-Ends _ _
        (unless-Settles outside (outside.make_dirs s dir).0 (volume_dir_failed dir) _ refl refl)
        (λ u s₁ t.
          lift-Settles outside bad_config (extra_volumes o.home o.cache o.config_dir c)
            (mount_extra outside is_addr o dir) s₁ (λ e. (refl, refl))
            (λ extra.
              follow-Ends _ _ (bind_sources-Settles extra s₁) (λ binds s₂ t'. returns _ _ tt)))

  volume_binds-Settles :
      (c : ContainerConfig) (s : S) → Settles outside (volume_binds outside is_addr o c s)
  unfolding volume_binds rejection stale_license
  volume_binds-Settles c s =
      lift-Settles outside bad_config (volume_dir o.home o.cache o.config_dir c)
        (mount_all outside is_addr o c) s (λ e. (refl, refl)) (λ dir. mount_all-Settles c dir s)

  build_container-Settles :
      (token : Text) (c : ContainerConfig) (s : S)
      → Settles outside (build_container outside is_addr o token c s)
  unfolding build_container rejection stale_license
  build_container-Settles token c s =
      lift-Settles outside bad_config (Containers.image c) _ s (λ e. (refl, refl))
        (λ image.
          lift-Settles outside bad_config (Containers.health_path c) _ s (λ e. (refl, refl))
            (λ health.
              lift-Settles outside bad_config (Containers.product_name c) _ s (λ e. (refl, refl))
                (λ product.
                  lift-Settles outside bad_config (Containers.container_port_of c) _ s
                    (λ e. (refl, refl))
                    (λ port.
                      lift-Settles outside bad_config (Containers.resolved_env o.profiles c.env) _ s
                        (λ e. (refl, refl))
                        (λ resolved.
                          lift-Settles outside bad_gateway
                            (parse_gateway_listen is_addr
                              (env_value resolved (codes "GATEWAY_LISTEN")))
                            _ s (λ e. (refl, refl))
                            (λ gateway. follow-Ends _ _ (volume_binds-Settles c s) (λ binds s₁ t.
                              lift-Settles outside (λ e. bad_config (bad_expose_port e))
                                (exposed_ports c.expose_ports) _ s₁ (λ e. (refl, refl))
                                (λ exposed. returns _ _ tt))))))))

  pub build_containers-Settles :
      (token : Text) (configs : List ContainerConfig) (s : S)
      → Settles outside (build_containers outside is_addr o token configs s)
  unfolding build_containers
  build_containers-Settles token [] s = returns _ _ tt
  build_containers-Settles token (c ∷ configs) s =
      follow-Ends _ _ (build_container-Settles token c s) (λ built s₁ t.
        follow-Ends _ _ (build_containers-Settles token configs s₁)
          (λ others s₂ t'. returns _ _ tt))
