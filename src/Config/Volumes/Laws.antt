-- ===== src/Config/Volumes/Laws.antt =====
-- internal/config/containers.go: an accepted bind mount is absolute on both sides.
use lstk.Text.Search.{split, has_prefix}
use lstk.Config.Volumes.{
  target_relative, target_empty, source_empty, persistence_target, split_volume_spec, expand_tilde,
  parsed_volumes, parse_volume, without_persistence, resolve_host_path, VolumeMount,
}
use lstk.Text.Paths.{join_path, clean, is_abs}
use lstk.Prelude.{
  guard-eq-ok, ok-injective, >>=-eq-ok, ◌≡◌, refl, ◌≢◌, true, false, not, some, List, [], ◌∷◌, ◌++◌,
  arith, ◌==◌, nat_eq, any, All, if◌then◌else◌, ok, guard, subst, if-cases,
}
use lstk.Text.Basic.{text_beq, Text, codes, text_eq, text_beq_iff}

-- Docker takes a source that is not absolute for the name of a volume.
pub record IsBind (m : VolumeMount) : Type 0 where
  pub source_is_abs : is_abs m.source ≡ true
  pub target_is_abs : is_abs m.target ≡ true

clean-is_abs : (p : Text) → is_abs p ≡ true → is_abs (clean p) ≡ true
unfolding clean has_prefix
clean-is_abs p h = rw h refl

join_path-is_abs : (p q : Text) → is_abs p ≡ true → is_abs (join_path p q) ≡ true
unfolding join_path
join_path-is_abs [] q h = unfold has_prefix in cc
join_path-is_abs (c ∷ s) [] h = clean-is_abs (c ∷ s) h
join_path-is_abs (c ∷ s) (d ∷ t) h =
    clean-is_abs ((c ∷ s) ++ b'/' ∷ d ∷ t) (unfold has_prefix in ground (arith, h))

module _ (home config_dir : Text) (home_abs : is_abs home ≡ true)
    (config_abs : is_abs config_dir ≡ true) where
  resolve_host_path-is_abs :
      (host_path : Text) {r : Text}
      → resolve_host_path (some home) config_dir host_path ≡ ok r
      → is_abs r ≡ true
  unfolding resolve_host_path
  resolve_host_path-is_abs host_path h =
      let (p, _, h₁) = >>=-eq-ok (expand_tilde (some home) host_path) _ h in
      subst (λ x. is_abs x ≡ true) {x = if is_abs p then p else join_path config_dir p}
        (ok-injective h₁)
        (if-cases (λ x. is_abs x ≡ true) (is_abs p) (λ e. e)
          (λ _. join_path-is_abs config_dir p config_abs))

  -- With absolute home and config directories, an accepted volume has an absolute source on the host
  -- and an absolute target in the container.
  pub parse_volume-IsBind :
      (spec : Text) {m : VolumeMount} → parse_volume (some home) config_dir spec ≡ ok m → IsBind m
  unfolding parse_volume
  parse_volume-IsBind spec h =
      let ((source, target, opts), _, h₁) = >>=-eq-ok (split_volume_spec spec false) _ h in
      let (_, _, h₂) = >>=-eq-ok (guard (not (source == [])) source_empty) _ h₁ in
      let (_, _, h₃) = >>=-eq-ok (guard (not (target == [])) target_empty) _ h₂ in
      let (_, g, h₄) = >>=-eq-ok (guard (is_abs target) (target_relative target)) _ h₃ in
      let (resolved, r, h₅) = >>=-eq-ok (resolve_host_path (some home) config_dir source) _ h₄ in
      subst IsBind
        {x = record {
          source = resolved;
          target = target;
          read_only = any (λ opt. opt == codes "ro") (split opts b',');
        }}
        (ok-injective h₅)
        (record {
          source_is_abs = resolve_host_path-is_abs source r;
          target_is_abs = guard-eq-ok (is_abs target) (target_relative target) g;
        })

  parsed_volumes-IsBind :
      (volumes : List Text) {mounts : List VolumeMount}
      → parsed_volumes (some home) config_dir volumes ≡ ok mounts
      → All IsBind mounts
  unfolding parsed_volumes
  parsed_volumes-IsBind [] h = subst (All IsBind) {x = []} (ok-injective h) tt
  parsed_volumes-IsBind (spec ∷ volumes) h =
      let (m, e, h₁) = >>=-eq-ok (parse_volume (some home) config_dir spec) _ h in
      let (mounts, f, h₂) = >>=-eq-ok (parsed_volumes (some home) config_dir volumes) _ h₁ in
      subst (All IsBind) {x = m ∷ mounts} (ok-injective h₂)
        (parse_volume-IsBind spec e, parsed_volumes-IsBind volumes f)

without_persistence-target :
    (mounts : List VolumeMount)
    → All IsBind mounts
    → All (λ m. IsBind m × (m.target ≢ persistence_target)) (without_persistence mounts)
unfolding without_persistence
without_persistence-target [] h = tt
without_persistence-target (m ∷ mounts) (h, hs) =
    if-cases (All (λ m. IsBind m × (m.target ≢ persistence_target)))
      (text_beq m.target persistence_target) (λ _. without_persistence-target mounts hs)
      (λ n. (
        (h, ground (arith, n, text_beq_iff m.target persistence_target)),
        without_persistence-target mounts hs,
      ))
