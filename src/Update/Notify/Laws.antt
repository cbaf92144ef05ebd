-- ===== src/Update/Notify/Laws.antt =====
-- internal/update/notify.go: which versions the notification of an update acts on.
use lstk.Prelude.{
  not-injective, ◌≡◌, refl, sym, ◌∙◌, ◌≢◌, ◌⊎◌, inl, inr, Bool, true, false, not, ◌&&◌, Option,
  none, some, List, [], ◌∷◌, arith, ◌==◌, nat_eq, All, subst, if-cases,
}
use lstk.Text.Basic.{text_beq, Text, codes, text_eq, text_beq_iff}
use lstk.Update.Notify.{
  NotifyOptions, PromptOutcome, gave_up, selected, Deed, applied, skip_saved, normalize_version,
  is_dev, prompt_and_update, notify_update, check_quietly,
}

-- A version that is offered: the latest, which is another one than the current, which was not skipped,
-- where prompts are wanted.
pub record IsOffered (opts : NotifyOptions) (current latest : Text) : Type 0 where
  pub released : is_dev current ≡ false
  pub other : normalize_version current ≢ normalize_version latest
  pub prompts : opts.update_prompt ≡ true
  pub not_skipped :
      (opts.skipped_version ≡ [])
      ⊎ (normalize_version opts.skipped_version ≢ normalize_version latest)

abbrev pub version_of : Deed → Text
version_of (applied v) = v
version_of (skip_saved v) = v

-- A deed that is about the latest version, when that is offered.
abbrev pub IsWanted : NotifyOptions → Text → Option Text → Deed → Type 0
IsWanted opts current fetched deed =
    (fetched ≡ some (version_of deed)) × IsOffered opts current (version_of deed)

false-ne-true : false ≢ true
false-ne-true e = cc

-- What lstk does and whether it exits.
abbrev Fine : Bool → NotifyOptions → Text → Option Text → Bool × List Deed → Type 0
Fine works opts current fetched r =
    All (IsWanted opts current fetched) r.1
    × (r.0 ≡ true → (works ≡ true) × (v : Text) × (r.1 ≡ applied v ∷ []))

quiet-Fine :
    (works : Bool) (opts : NotifyOptions) (current : Text) (fetched : Option Text)
    → Fine works opts current fetched (false, [])
quiet-Fine works opts current fetched = (tt, λ e. absurd (false-ne-true e))

prompt-Fine :
    (works can_persist : Bool) (opts : NotifyOptions) (current latest : Text)
    (outcome : PromptOutcome)
    → IsOffered opts current latest
    → Fine works opts current (some latest) (prompt_and_update works can_persist latest outcome)
prompt-Fine works can_persist opts current latest gave_up h =
    quiet-Fine works opts current (some latest)
prompt-Fine works can_persist opts current latest (selected key) h =
    if-cases (Fine works opts current (some latest)) (key == codes "u")
      (λ e. (((refl, h), tt), λ w. (w, latest, refl)))
      (λ e.
        if-cases (Fine works opts current (some latest)) (key == codes "s")
          (λ e. (
            if-cases (All (IsWanted opts current (some latest))) can_persist (λ e. ((refl, h), tt))
                (λ e. tt),
            λ e. absurd (false-ne-true e),
          ))
          (λ e. quiet-Fine works opts current (some latest)))

-- A version that `checkQuietly` reports.
check_quietly-other :
    (current : Text) (fetched : Option Text)
    → (check_quietly current fetched).1 ≡ true
    → (fetched ≡ some (check_quietly current fetched).0)
      × (is_dev current ≡ false)
      × (normalize_version current ≢ normalize_version (check_quietly current fetched).0)
unfolding check_quietly
check_quietly-other current none h = ground (arith, h)
check_quietly-other current (some latest) h =
    ground (arith, h, text_beq_iff (normalize_version current) (normalize_version latest))

skipped_other :
    (s latest : Text)
    → (not (s == []) && normalize_version s == normalize_version latest) ≡ false
    → (s ≡ []) ⊎ (normalize_version s ≢ normalize_version latest)
unfolding text_beq
skipped_other [] latest h = inl refl
skipped_other (c ∷ s) latest h = inr (λ e.
    false-ne-true
      (sym h ∙ (text_beq_iff (normalize_version (c ∷ s)) (normalize_version latest)).1 e))

-- What the notification does to the installation or the config is about the latest version, which is
-- another one than the current, was not skipped, and is offered in a prompt, of a release that is no
-- development build; and lstk exits only behind an update to it that succeeded.
pub notify_update-IsWanted :
    (works : Bool) (opts : NotifyOptions) (current : Text) (fetched : Option Text)
    (outcome : PromptOutcome)
    → let (exits, deeds) = notify_update works opts current fetched outcome in
      All (IsWanted opts current fetched) deeds
      × (exits ≡ true → (works ≡ true) × (v : Text) × (deeds ≡ applied v ∷ []))
unfolding notify_update
notify_update-IsWanted works opts current fetched outcome =
    let quiet = quiet-Fine works opts current fetched in
    let latest : Text = (check_quietly current fetched).0 in
    if-cases (Fine works opts current fetched) (not (check_quietly current fetched).1) (λ e. quiet)
      (λ e.
        let (found, released, other) = check_quietly-other current fetched (not-injective e) in
        if-cases (Fine works opts current fetched)
          (not (opts.skipped_version == [])
            && normalize_version opts.skipped_version == normalize_version latest)
          (λ f. quiet)
          (λ f.
            if-cases (Fine works opts current fetched) (not opts.update_prompt) (λ g. quiet)
              (λ g.
                subst
                  (λ o.
                    Fine works opts current o
                      (prompt_and_update works opts.can_persist latest outcome))
                  (sym found)
                  (prompt-Fine works opts.can_persist opts current latest outcome (record {
                    released = released;
                    other = other;
                    prompts = not-injective g;
                    not_skipped = skipped_other opts.skipped_version latest f;
                  })))))
