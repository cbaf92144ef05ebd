-- ===== src/Container/OptionalPorts/Busy.antt =====
-- internal/container/start.go: `dropBusyOptionalPorts` is a filter, copied only when it drops.
use lstk.Container.OptionalPorts.{
  required_host_ports, drop_start, drop_busy_optional_ports, drop_all, DropWarning, port_busy, Drop,
  drop_one,
}
use lstk.Ports.{PortMapping}
use lstk.Prelude.{
  append_assoc, subst, append-nil, ◌≡◌, refl, sym, inl, inr, Bool, true, false, not, ◌&&◌, List, [],
  ◌∷◌, ◌++◌, arith, nat_eq, if◌then◌else◌, Bool-cases,
}
use lstk.Text.Basic.{Text, text_eq}

-- The mappings that are required or free.
module _ (is_available : Text → Bool) where
  abbrev pub is_busy : PortMapping → Bool
  is_busy ep = ep.optional && not (is_available ep.host_port)

  abbrev pub publishable : List PortMapping → List PortMapping
  publishable [] = []
  publishable (ep ∷ mappings) =
      let rest = publishable mappings in if is_busy ep then rest else ep ∷ rest

  -- The warnings of the mappings that are not.
  abbrev pub busy_warnings : List PortMapping → List DropWarning
  busy_warnings [] = []
  busy_warnings (ep ∷ mappings) =
      let rest = busy_warnings mappings in
      if is_busy ep then record { port = ep.host_port; cause = port_busy } ∷ rest else rest

  publishable-snoc :
      (xs : List PortMapping) (ep : PortMapping)
      → publishable (xs ++ ep ∷ []) ≡ publishable xs ++ (if is_busy ep then [] else ep ∷ [])
  publishable-snoc [] ep = ground arith
  publishable-snoc (x ∷ xs) ep = ground (arith, publishable-snoc xs ep)

  busy_warnings-snoc :
      (xs : List PortMapping) (ep : PortMapping)
      → busy_warnings (xs ++ ep ∷ [])
        ≡ busy_warnings xs
          ++ (if is_busy ep then record { port = ep.host_port; cause = port_busy } ∷ [] else [])
  busy_warnings-snoc [] ep = ground arith
  busy_warnings-snoc (x ∷ xs) ep = ground (arith, busy_warnings-snoc xs ep)

  -- What the loop keeps of the mappings that it has passed.
  record IsFiltering (done : List PortMapping) (st : Drop) : Type 0 where
    before_eq : st.before ≡ done
    kept_empty : st.dropped ≡ false → st.kept ≡ []
    kept_eq : st.dropped ≡ true → st.kept ≡ publishable done
    untouched_eq : st.dropped ≡ false → publishable done ≡ done
    warnings_eq : st.warnings ≡ busy_warnings done

  drop_one-IsFiltering :
      (done : List PortMapping) (ep : PortMapping) (st : Drop)
      → IsFiltering done st
      → IsFiltering (done ++ ep ∷ []) (drop_one is_available ep st)
  unfolding drop_one
  drop_one-IsFiltering done ep st f = elim (Bool-cases (is_busy ep)) [
    | inl b ↦ rw b (record {
      before_eq = rw f.before_eq;
      kept_empty = λ e. cc;
      kept_eq = λ _. elim (Bool-cases st.dropped) [
        | inl d ↦
            rw (d, f.kept_eq d, publishable-snoc done ep, b, append-nil (publishable done)) refl
        | inr d ↦
            rw
              (
                d,
                f.kept_empty d,
                f.before_eq,
                publishable-snoc done ep,
                b,
                f.untouched_eq d,
                append-nil done,
              )
              refl
      ];
      untouched_eq = λ e. cc;
      warnings_eq = rw (f.warnings_eq, busy_warnings-snoc done ep, b);
    })
    | inr b ↦ rw b (record {
      before_eq = rw f.before_eq;
      kept_empty = λ e. rw (e, f.kept_empty e) refl;
      kept_eq = λ e. rw (e, f.kept_eq e, publishable-snoc done ep, b) refl;
      untouched_eq = λ e. rw (publishable-snoc done ep, b, f.untouched_eq e) refl;
      warnings_eq =
          rw (busy_warnings-snoc done ep, b, append-nil (busy_warnings done)) f.warnings_eq;
    })
  ]

  drop_all-IsFiltering :
      (done mappings : List PortMapping) (st : Drop)
      → IsFiltering done st
      → IsFiltering (done ++ mappings) (drop_all is_available mappings st)
  unfolding drop_all
  drop_all-IsFiltering done [] st f = subst (λ x. IsFiltering x st) (sym (append-nil done)) f
  drop_all-IsFiltering done (ep ∷ mappings) st f =
      subst (λ x. IsFiltering x (drop_all is_available mappings (drop_one is_available ep st)))
        (append_assoc done (ep ∷ []) mappings)
        (drop_all-IsFiltering (done ++ ep ∷ []) mappings (drop_one is_available ep st)
          (drop_one-IsFiltering done ep st f))

  -- The loop, which copies its argument from the first dropped mapping on, returns the mappings
  -- that are required or free, in order, and a warning for each of the others, in order.
  pub drop_busy_optional_ports-publishable :
      (mappings : List PortMapping)
      → drop_busy_optional_ports is_available mappings
        ≡ (publishable mappings, busy_warnings mappings)
  unfolding drop_busy_optional_ports
  drop_busy_optional_ports-publishable mappings = elim (Bool-cases st.dropped) [
    | inl d ↦ rw (d, f.kept_eq d, f.warnings_eq) refl
    | inr d ↦ rw (d, f.warnings_eq, f.untouched_eq d) refl
  ]
    where
      st : Drop
      st = drop_all is_available mappings (drop_start is_available)

      f : IsFiltering mappings st
      f = drop_all-IsFiltering [] mappings (drop_start is_available) (record {
        before_eq = refl;
        kept_empty = λ e. refl;
        kept_eq = λ e. refl;
        untouched_eq = λ e. refl;
        warnings_eq = refl;
      })

  required_host_ports-publishable :
      (mappings : List PortMapping)
      → required_host_ports (publishable mappings) ≡ required_host_ports mappings
  unfolding required_host_ports
  required_host_ports-publishable [] = refl
  required_host_ports-publishable (ep ∷ mappings) =
      ground (arith, required_host_ports-publishable mappings)

  -- The ports that have to be free for a start, those of the mappings that are neither optional nor
  -- for udp, are the same before and after busy optional ports are dropped.
  pub required_host_ports-drop_busy_optional_ports :
      (mappings : List PortMapping)
      → required_host_ports (drop_busy_optional_ports is_available mappings).0
        ≡ required_host_ports mappings
  required_host_ports-drop_busy_optional_ports mappings =
      rw (drop_busy_optional_ports-publishable mappings) (required_host_ports-publishable mappings)
